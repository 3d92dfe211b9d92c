-- ===== src/Base/Decimal.antt =====
-- `strconv.FormatInt` and `strconv.ParseInt` in base 10.
use Prim.Native.Nat.{ℕ, zero, suc, ◌+◌, ◌-◌, ◌*◌, ◌/◌, ◌%◌, ◌^◌, ◌<◌}
use Prim.Native.Char.{Char, char, code}
use Prim.Native.String
use Prim.Native.String.{String}
use mathlib.Core.Path.{◌≡◌, refl, ap, ◌∙◌}
use mathlib.Core.Logic.{inl, inr}
use mathlib.Core.Bool.{Bool, true, ◌&&◌, ◌||◌}
use mathlib.Core.Option.{Option, none, some}
use native.Mathlib.Omega.{arith}
use native.Mathlib.Nat.{pow-suc}
use text.Mathlib.TextLemmas.{nil-append, cons-append}
use ai_peer.Base.Tests.{ltb, leb, if◌then◌else◌, ◌==◌, nat_eq, Bool-cases}
use ai_peer.Base.Int.{ℤ, pos, negsuc, neg, leb_ℤ}
use ai_peer.Base.Text.{ascii_IsScalar}
use ai_peer.Base.Word.{Int64}

unfoldable pub digit : ℕ → Char
digit n = char (48 + n % 10) (ascii_IsScalar (48 + n % 10) (omega arith))

push : String → Char → String
push s c = String.◌++◌ s (String.◌∷◌ c "")

-- The digits of a number, with fuel for their count.
format_from : ℕ → ℕ → String
format_from zero n = ""
format_from (suc f) n =
    let more = format_from f (n / 10) in
    if ltb n 10 then String.◌∷◌ (digit n) "" else push more (digit n)

-- An int64 has at most 19 digits.
unfoldable pub format_nat : ℕ → String
unfolding format_from digit push
format_nat n = format_from 20 n

unfoldable pub format_int : ℤ → String
unfolding format_nat
format_int (pos n) = format_nat n
format_int (negsuc n) = String.◌∷◌ "-" (format_nat (suc n))

is_digit : Char → Bool
is_digit c = leb 48 (code c) && leb (code c) 57

parse_from : ℕ → String → Option ℕ
parse_from a String.[] = some a
parse_from a (String.◌∷◌ c s) =
    let rest = parse_from (a * 10 + (code c - 48)) s in if is_digit c then rest else none

-- Digits, at least one of them.
parse_nat : String → Option ℕ
parse_nat String.[] = none
parse_nat (String.◌∷◌ c s) = parse_from 0 (String.◌∷◌ c s)

in_range : ℕ → ℤ → Option ℤ
in_range bound z = if leb_ℤ z (pos bound) && leb_ℤ (neg (pos (bound + 1))) z then some z else none

-- A sign, digits, and the range of an int64.
unfoldable pub parse_int : String → Option ℤ
unfolding parse_from parse_nat is_digit in_range
parse_int String.[] = none
parse_int (String.◌∷◌ c s) =
    elim (if code c == 45 || code c == 43 then parse_nat s else parse_nat (String.◌∷◌ c s)) [
      | none ↦ none
      | some n ↦ in_range (2 ^ 63 - 1) (if code c == 45 then neg (pos n) else pos n)
    ]

parse_from-push :
    (a n : ℕ) (s : String) (c : Char)
    → parse_from a s ≡ some n
    → is_digit c ≡ true
    → parse_from a (push s c) ≡ some (n * 10 + (code c - 48))
unfolding parse_from push
parse_from-push a n String.[] c h d = rw nil-append (rw d (ground arith))
parse_from-push a n (String.◌∷◌ x s) c h d =
    rw cons-append (ground (arith, parse_from-push (a * 10 + (code x - 48)) n s c))

digit-is_digit : (n : ℕ) → is_digit (digit n) ≡ true
unfolding is_digit digit
digit-is_digit n = ground arith

parse_from-digit : (n : ℕ) → parse_from 0 (String.◌∷◌ (digit n) "") ≡ some (n % 10)
unfolding parse_from is_digit digit
parse_from-digit n = ground arith

code-digit : (n : ℕ) → code (digit n) ≡ 48 + n % 10
unfolding digit
code-digit n = refl

parse_from-format_from : (f n : ℕ) → n < 10 ^ suc f → parse_from 0 (format_from (suc f) n) ≡ some n
unfolding format_from
parse_from-format_from zero n h = elim (Bool-cases (ltb n 10)) [
  | inl e ↦ rw e (parse_from-digit n ∙ ap some (ground arith))
  | inr e ↦ absurd (ground arith)
]
parse_from-format_from (suc f) n h = elim (Bool-cases (ltb n 10)) [
  | inl e ↦ rw e (parse_from-digit n ∙ ap some (ground arith))
  | inr e ↦ rw e (
      parse_from-push 0 (n / 10) (format_from (suc f) (n / 10)) (digit n)
        (parse_from-format_from f (n / 10) (omega (arith, pow-suc 10 (suc f)))) (digit-is_digit n)
      ∙ ap some (omega (arith, code-digit n)))
]

-- A number's digits begin with a digit, so they are not empty and carry no sign.
StartsDigit : String → Type 0
StartsDigit String.[] = ⊥
StartsDigit (String.◌∷◌ c s) = (47 < code c) × (code c < 58)

push-StartsDigit : (s : String) (c : Char) → StartsDigit s → StartsDigit (push s c)
unfolding StartsDigit push
push-StartsDigit String.[] c h = absurd h
push-StartsDigit (String.◌∷◌ d s) c h = rw cons-append h

format_from-StartsDigit : (f n : ℕ) → n < 10 ^ suc f → StartsDigit (format_from (suc f) n)
unfolding format_from
format_from-StartsDigit zero n h = elim (Bool-cases (ltb n 10)) [
  | inl e ↦ rw e (unfold StartsDigit digit in ground arith)
  | inr e ↦ absurd (ground arith)
]
format_from-StartsDigit (suc f) n h = elim (Bool-cases (ltb n 10)) [
  | inl e ↦ rw e (unfold StartsDigit digit in ground arith)
  | inr e ↦ rw e (
      push-StartsDigit (format_from (suc f) (n / 10)) (digit n)
        (format_from-StartsDigit f (n / 10) (omega (arith, pow-suc 10 (suc f)))))
]

parse_int_unsigned :
    (s : String) (n : ℕ)
    → StartsDigit s
    → parse_from 0 s ≡ some n
    → n < 2 ^ 63
    → parse_int s ≡ some (pos n)
unfolding parse_int StartsDigit
parse_int_unsigned String.[] n d h b = absurd d
parse_int_unsigned (String.◌∷◌ c s) n d h b = ground arith

parse_int_negative :
    (s : String) (n : ℕ)
    → StartsDigit s
    → parse_from 0 s ≡ some (suc n)
    → n < 2 ^ 63
    → parse_int (String.◌∷◌ "-" s) ≡ some (negsuc n)
unfolding parse_int StartsDigit
parse_int_negative String.[] n d h b = absurd d
parse_int_negative (String.◌∷◌ c s) n d h b = ground arith

-- Reading back a printed int64 gives the number.
pub parse_int-format_int : (z : ℤ) → Int64 z → parse_int (format_int z) ≡ some z
unfolding format_int
parse_int-format_int (pos n) h =
    parse_int_unsigned (format_from 20 n) n (format_from-StartsDigit 19 n (omega arith))
      (parse_from-format_from 19 n (omega arith)) h.0
parse_int-format_int (negsuc n) h =
    parse_int_negative (format_from 20 (suc n)) n (format_from-StartsDigit 19 (suc n) (omega arith))
      (parse_from-format_from 19 (suc n) (omega arith)) (omega arith)

-- Two numbers that print alike are equal.
pub format_int_inj : (a b : ℤ) → Int64 a → Int64 b → format_int a ≡ format_int b → a ≡ b
format_int_inj a b ha hb e = cc (parse_int-format_int a ha, parse_int-format_int b hb)
