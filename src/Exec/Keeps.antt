-- ===== src/Exec/Keeps.antt =====
-- What an action keeps true of the state, whether it returns or raises: a rule for each way to build
-- an action.
use credbroker.Common.{Bool, true, false, if◌then◌else◌, inl, inr, ◌≡◌, refl}
use credbroker.Errors.{Exn}
use credbroker.Exec.{
  Result, ok, err, Exec, pure, raise, lift, gets, raise_if, attempt, proceed, Result-cases, ◌>>=◌,
}

pub record Keeps {ℓ} {W A : Type ℓ} (P : W → Type ℓ) (m : Exec W A) : Type ℓ where
  pub at : (w : W) → P w → P (m w).1

module _ {ℓ} {W A B : Type ℓ} {P : W → Type ℓ} where
  -- The rule for `try`, which sequencing is a case of.
  pub Keeps-attempt :
      (body : Exec W A) (rest : Result A → Exec W B)
      → Keeps P body
      → ((r : Result A) → Keeps P (rest r))
      → Keeps P (attempt body rest)
  unfolding attempt
  Keeps-attempt body rest first then_on = record {
    at = λ w h. (then_on (body w).0).at (body w).1 (first.at w h);
  }

  Keeps-proceed :
      (rest : A → Exec W B)
      → ((a : A) → Keeps P (rest a))
      → (r : Result A) → Keeps P (proceed r rest)
  Keeps-proceed rest then_on (ok a) = then_on a
  Keeps-proceed rest then_on (err e) = record { at = λ w h. h }

  pub Keeps-bind :
      (body : Exec W A) (rest : A → Exec W B)
      → Keeps P body
      → ((a : A) → Keeps P (rest a))
      → Keeps P (body >>= rest)
  unfolding ◌>>=◌
  Keeps-bind body rest first then_on =
      Keeps-attempt body (λ r. proceed r rest) first (Keeps-proceed rest then_on)

module _ {ℓ} {W : Type ℓ} {P : W → Type ℓ} where
  -- Actions that leave the state as it is.
  Keeps-still : {A : Type ℓ} (m : Exec W A) → ((w : W) → (m w).1 ≡ w) → Keeps P m
  Keeps-still m still = record { at = λ w h. rw (still w) h }

  pub Keeps-raise_if : (test : Bool) (e : Exn) → Keeps P (raise_if test e)
  unfolding raise_if
  Keeps-raise_if test e = Keeps-still (raise_if test e) (λ w. refl)

  pub Keeps-gets : {A : Type ℓ} (read : W → A) → Keeps P (gets read)
  unfolding gets
  Keeps-gets read = Keeps-still (gets read) (λ w. refl)

  pub Keeps-lift : {A : Type ℓ} (r : Result A) → Keeps P (lift r)
  unfolding lift
  Keeps-lift r = Keeps-still (lift r) (λ w. refl)

  pub Keeps-raise : {A : Type ℓ} (e : Exn) → Keeps P (raise {A = A} e)
  unfolding raise
  Keeps-raise e = Keeps-still (raise e) (λ w. refl)

  pub Keeps-pure : {A : Type ℓ} (result : A) → Keeps P (pure result)
  unfolding pure
  Keeps-pure result = Keeps-still (pure result) (λ w. refl)

  pub Keeps-if :
      {A : Type ℓ} (test : Bool) (yes_case no_case : Exec W A)
      → Keeps P yes_case
      → Keeps P no_case
      → Keeps P (if test then yes_case else no_case)
  Keeps-if true yes_case no_case y n = y
  Keeps-if false yes_case no_case y n = n

-- At one state, where the rest may use what the first action returned.
pub bind_at {ℓ} :
    {W A B : Type ℓ} (P : W → Type ℓ) (body : Exec W A) (rest : A → Exec W B) (w : W)
    → P (body w).1
    → ((a : A) → (body w).0 ≡ ok a → P (rest a (body w).1).1)
    → P ((body >>= rest) w).1
unfolding ◌>>=◌
bind_at P body rest w h k = elim (Result-cases (body w).0) [
  | inl (a, e) ↦ rw e (k a e)
  | inr (x, e) ↦ rw e h
]

pub ruleset keeps_rules = (
  Keeps-attempt, Keeps-bind, Keeps-if, Keeps-raise_if, Keeps-gets, Keeps-lift, Keeps-raise,
  Keeps-pure,
)
