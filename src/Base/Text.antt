-- ===== src/Base/Text.antt =====
-- The functions of Go's package `strings` that the source calls, over code points.
use Prim.Native.Nat.{zero, suc, ℕ, ◌+◌, ◌<◌}
use Prim.Native.Char.{Char, char, code, IsScalar}
use Prim.Native.String
use Prim.Native.String.{String}
use mathlib.Core.Path.{◌≡◌, refl, ap₂}
use mathlib.Core.Logic.{inl, inr, dite}
use mathlib.Core.Bool.{Bool, true, false, ◌&&◌, ◌||◌}
use native.Mathlib.Omega.{arith}
use native.Mathlib.Decide.{dec_lt}
use mathlib.Core.Option.{Option, none, some}
use text.Mathlib.TextEquality.{Char-path}
use ai_peer.Base.Letters.{lower_code}
use ai_peer.Base.Tests.{ltb, leb, if◌then◌else◌, ◌==◌, nat_eq, string_eq, Bool-cases, is_some}

-- `unicode.IsSpace`: the code points with the property White_Space.
unfoldable pub is_space : Char → Bool
is_space c =
    let n = code c in
    (leb 9 n && leb n 13)
    || n == 32
    || n == 0x85
    || n == 0xa0
    || n == 0x1680
    || (leb 0x2000 n && leb n 0x200a)
    || n == 0x2028
    || n == 0x2029
    || n == 0x202f
    || n == 0x205f
    || n == 0x3000

trim_left : String → String
trim_left String.[] = ""
trim_left (String.◌∷◌ c s) = let rest = trim_left s in if is_space c then rest else String.◌∷◌ c s

trim_right : String → String
trim_right String.[] = ""
trim_right (String.◌∷◌ c s) =
    let rest = trim_right s in if is_space c && rest == "" then "" else String.◌∷◌ c rest

-- `strings.TrimSpace`.
unfoldable pub trim_space : String → String
unfolding trim_left trim_right is_space
trim_space s = trim_right (trim_left s)

pub low_IsScalar : (n : ℕ) → n < 0xd800 → IsScalar n
low_IsScalar n h = ground arith

pub high_IsScalar : (n : ℕ) → 0xdfff < n → n < 0x110000 → IsScalar n
high_IsScalar n h k = ground arith

pub ascii_IsScalar : (n : ℕ) → n < 128 → IsScalar n
ascii_IsScalar n h = ground arith

char_or : Char → ℕ → Char
unfolding dec_lt
char_or c n =
    dite (dec_lt n 0xd800) (λ h. char n (low_IsScalar n h))
      λ _.
        dite (dec_lt 0xdfff n)
          (λ h. dite (dec_lt n 0x110000) (λ k. char n (high_IsScalar n h k)) (λ _. c)) (λ _. c)

-- `unicode.ToLower`.
unfoldable pub lower_char : Char → Char
unfolding lower_code char_or
lower_char c =
    let n = code c in
    if ltb n 128
    then if leb 65 n && leb n 90 then char_or c (n + 32) else c
    else char_or c (lower_code n)

-- `strings.ToLower`.
unfoldable pub to_lower : String → String
unfolding lower_char
to_lower String.[] = ""
to_lower (String.◌∷◌ c s) = String.◌∷◌ (lower_char c) (to_lower s)

-- `strings.EqualFold(s, word)` for a word of ASCII letters other than k and s, whose only case
-- variants are the two ASCII ones.
fold_char : Char → ℕ
fold_char c = if leb 65 (code c) && leb (code c) 90 then code c + 32 else code c

unfoldable pub equal_fold : String → String → Bool
unfolding fold_char
equal_fold String.[] String.[] = true
equal_fold String.[] (String.◌∷◌ d t) = false
equal_fold (String.◌∷◌ c s) String.[] = false
equal_fold (String.◌∷◌ c s) (String.◌∷◌ d t) = fold_char c == fold_char d && equal_fold s t

-- `strings.HasPrefix`, and what follows the prefix.
unfoldable pub strip_prefix : String → String → Option String
strip_prefix String.[] s = some s
strip_prefix (String.◌∷◌ c p) String.[] = none
strip_prefix (String.◌∷◌ c p) (String.◌∷◌ d s) =
    let rest = strip_prefix p s in if code c == code d then rest else none

-- The rest of a string after its first characters.
unfoldable pub drop_chars : ℕ → String → String
drop_chars zero s = s
drop_chars (suc n) String.[] = ""
drop_chars (suc n) (String.◌∷◌ c s) = drop_chars n s

-- `strings.Contains`.
unfoldable pub contains : String → String → Bool
unfolding strip_prefix
contains String.[] t = is_some (strip_prefix t "")
contains (String.◌∷◌ c s) t = is_some (strip_prefix t (String.◌∷◌ c s)) || contains s t

-- Go's order on strings, bytewise in UTF-8, which is the order of the code points.
unfoldable pub ltb_str : String → String → Bool
ltb_str String.[] String.[] = false
ltb_str String.[] (String.◌∷◌ d t) = true
ltb_str (String.◌∷◌ c s) String.[] = false
ltb_str (String.◌∷◌ c s) (String.◌∷◌ d t) =
    ltb (code c) (code d) || (code c == code d && ltb_str s t)

pub ltb_str_irrefl : (s : String) → ltb_str s s ≡ false
unfolding ltb_str
ltb_str_irrefl String.[] = refl
ltb_str_irrefl (String.◌∷◌ c s) = ground (arith, ltb_str_irrefl s)

pub ltb_str_trans : (s t u : String) → ltb_str s t ≡ true → ltb_str t u ≡ true → ltb_str s u ≡ true
unfolding ltb_str
ltb_str_trans String.[] String.[] u p q = cc
ltb_str_trans String.[] (String.◌∷◌ d t) String.[] p q = cc
ltb_str_trans String.[] (String.◌∷◌ d t) (String.◌∷◌ e u) p q = refl
ltb_str_trans (String.◌∷◌ c s) String.[] u p q = cc
ltb_str_trans (String.◌∷◌ c s) (String.◌∷◌ d t) String.[] p q = cc
ltb_str_trans (String.◌∷◌ c s) (String.◌∷◌ d t) (String.◌∷◌ e u) p q =
    ground (arith, ltb_str_trans s t u)

pub ltb_str_total : (s t : String) → ltb_str s t ≡ false → ltb_str t s ≡ false → s ≡ t
unfolding ltb_str
ltb_str_total String.[] String.[] p q = refl
ltb_str_total String.[] (String.◌∷◌ d t) p q = cc
ltb_str_total (String.◌∷◌ c s) String.[] p q = cc
ltb_str_total (String.◌∷◌ c s) (String.◌∷◌ d t) p q =
    ap₂ String.◌∷◌ (Char-path c d (ground arith)) (ltb_str_total s t (ground arith) (ground arith))

-- Trimming leaves no space at either end, so trimming again changes nothing.
abbrev StartsPlain : String → Type 0
StartsPlain String.[] = Unit
StartsPlain (String.◌∷◌ c s) = is_space c ≡ false

trim_left-StartsPlain : (s : String) → StartsPlain (trim_left s)
unfolding trim_left
trim_left-StartsPlain String.[] = tt
trim_left-StartsPlain (String.◌∷◌ c s) = elim (Bool-cases (is_space c)) [
  | inl e ↦ rw e (trim_left-StartsPlain s)
  | inr e ↦ rw e e
]

trim_left_of_StartsPlain : (s : String) → StartsPlain s → trim_left s ≡ s
unfolding trim_left
trim_left_of_StartsPlain String.[] h = refl
trim_left_of_StartsPlain (String.◌∷◌ c s) h = rw h

trim_right-StartsPlain : (s : String) → StartsPlain s → StartsPlain (trim_right s)
unfolding trim_right
trim_right-StartsPlain String.[] h = tt
trim_right-StartsPlain (String.◌∷◌ c s) h = rw h h

trim_right_idem : (s : String) → trim_right (trim_right s) ≡ trim_right s
unfolding trim_right
trim_right_idem String.[] = refl
trim_right_idem (String.◌∷◌ c s) = elim (Bool-cases (is_space c && trim_right s == "")) [
  | inl e ↦ rw e
  | inr e ↦ rw e (rw (trim_right_idem s) (rw e))
]

pub trim_space_idem : (s : String) → trim_space (trim_space s) ≡ trim_space s
unfolding trim_space
trim_space_idem s =
    rw
      (trim_left_of_StartsPlain (trim_right (trim_left s))
        (trim_right-StartsPlain (trim_left s) (trim_left-StartsPlain s)))
      (trim_right_idem (trim_left s))

-- `+` on strings.
abbrev pub str_append : String → String → String
str_append s t = String.◌++◌ s t
