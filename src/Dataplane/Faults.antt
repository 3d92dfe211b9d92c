-- ===== src/Dataplane/Faults.antt =====
-- A refused statement changes nothing: a call under faults either fails and leaves the tables as they
-- were, or does what it does when no statement is refused.
use mathlib.Core.Bool.{false≢true}
use ai_peer.Base.{Bool, String, false, true, if◌then◌else◌, ◌≡◌, sym, refl}
use ai_peer.Dataplane.Tables.{
  Tables, Result, ok, err, M, Outcome, failed, done, statement, ◌>>=◌, finish,
}

abbrev pub is_err {ℓ} : {A : Type ℓ} → Result A → Bool
is_err (ok a) = false
is_err (err e) = true

-- No statement is refused.
abbrev pub never : String → Bool
never message = false

-- The first outcome is the second one, or a failure.
pub data Sub {A : Type 0} : Outcome A → Outcome A → Type 0 where
  same : (o : Outcome A) → Sub o o
  raised : (e : String) (o : Outcome A) → Sub (failed e) o

abbrev pub SubM : {A : Type 0} → M A → M A → Type 0
SubM m m' = (t : Tables) → Sub (m t) (m' t)

pub Sub-bind :
    {A B : Type 0} {m m' : M A} {f f' : A → M B}
    → SubM m m'
    → ((a : A) → SubM (f a) (f' a))
    → SubM (m >>= f) (m' >>= f')
unfolding ◌>>=◌
Sub-bind {A} {B} {m} {m'} {f} {f'} h k t = after_first (m t) (m' t) (h t)
  where
    after_first :
        (o o' : Outcome A)
        → Sub o o'
        → Sub
            (elim o [ done a t' ↦ f a t' | failed e ↦ failed e ])
            (elim o' [ done a t' ↦ f' a t' | failed e ↦ failed e ])
    after_first _ _ (same (done a t)) = k a t
    after_first _ _ (same (failed e)) = same (failed e)
    after_first _ _ (raised e o') = raised e _

pub Sub-if :
    {A : Type 0} (b : Bool) (message : String) (o : Outcome A)
    → Sub (if b then failed message else o) o
Sub-if true message o = raised message o
Sub-if false message o = same o

pub Sub-refl : {A : Type 0} (m : M A) → SubM m m
Sub-refl m t = same (m t)

pub Sub-choice :
    {A : Type 0} (b : Bool) {x x' y y' : M A}
    → SubM x x'
    → SubM y y'
    → SubM (if b then x else y) (if b then x' else y')
Sub-choice true h k = h
Sub-choice false h k = k

module _ (fails : String → Bool) where
  pub Sub-statement :
      {A : Type 0} (message : String) (run : M A)
      → SubM (statement fails message run) (statement never message run)
  unfolding statement
  Sub-statement message run t = Sub-if (fails message) message (run t)

-- An error leaves the tables as they were; any other answer is the second one's.
abbrev pub Agrees : {A : Type 0} → Tables → Tables × Result A → Tables × Result A → Type 0
Agrees t x y = ((is_err x.1 ≡ true) → x.0 ≡ t) × ((is_err x.1 ≡ false) → x ≡ y)

pub transaction-Agrees :
    {A : Type 0} (t : Tables) (o o' : Outcome (A × Bool))
    → Sub o o'
    → Agrees t (finish t o) (finish t o')
transaction-Agrees t _ _ (same (done (a, committed) t')) = (λ e. absurd (false≢true e), λ _. refl)
transaction-Agrees t _ _ (same (failed e)) = (λ _. refl, λ _. refl)
transaction-Agrees t _ _ (raised e o) = (λ _. refl, λ h. absurd (false≢true (sym h)))
