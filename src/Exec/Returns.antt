-- ===== src/Exec/Returns.antt =====
-- Actions that always return, from every state: a rule for each way to build one.
use credbroker.Common.{Bool, true, false, if◌then◌else◌, ◌≡◌, refl}
use credbroker.Exec.{Result, ok, Exec, pure, gets, modify, attempt, ◌>>=◌}

pub record Returns {ℓ} {W A : Type ℓ} (m : Exec W A) : Type ℓ where
  pub from : (w : W) → (a : A) × ((m w).0 ≡ ok a)

module _ {ℓ} {W A : Type ℓ} where
  pub Returns-pure : (a : A) → Returns {W = W} (pure a)
  unfolding pure
  Returns-pure a = record { from = λ w. (a, refl) }

  pub Returns-gets : (read : W → A) → Returns (gets read)
  unfolding gets
  Returns-gets read = record { from = λ w. (read w, refl) }

  pub Returns-if :
      (test : Bool) (m n : Exec W A) → Returns m → Returns n → Returns (if test then m else n)
  Returns-if true m n rm rn = rm
  Returns-if false m n rm rn = rn

module _ {ℓ} {W : Type ℓ} where
  pub Returns-modify : (change : W → W) → Returns (modify change)
  unfolding modify
  Returns-modify change = record { from = λ w. (tt, refl) }

module _ {ℓ} {W A B : Type ℓ} where
  -- Whatever `try` caught, the rest returns.
  pub Returns-attempt :
      (body : Exec W A) (rest : Result A → Exec W B)
      → ((r : Result A) → Returns (rest r))
      → Returns (attempt body rest)
  unfolding attempt
  Returns-attempt body rest all = record { from = λ w. (all (body w).0).from (body w).1 }

  pub Returns-bind :
      (body : Exec W A) (rest : A → Exec W B)
      → Returns body
      → ((a : A) → Returns (rest a))
      → Returns (body >>= rest)
  unfolding ◌>>=◌
  Returns-bind body rest first all = record {
    from = λ w. let (a, e) = first.from w in let (b, f) = (all a).from (body w).1 in (b, rw e f);
  }

pub ruleset returns_rules = (Returns-pure, Returns-gets, Returns-if, Returns-modify, Returns-bind)
