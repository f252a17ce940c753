-- ===== src/Exec.antt =====
-- Code that mutates shared objects and may raise. What was written before a raise stays written,
-- so the state comes back beside the exception too.
pub mod Keeps
pub mod Returns
use credbroker.Common.{◌≡◌, ◌≢◌, refl, ◌⊎◌, inl, inr, Bool, if◌then◌else◌}
use credbroker.Errors.{Exn}

pub data Result {ℓ} (A : Type ℓ) : Type ℓ where
  ok : A → Result A
  err : Exn → Result A

pub Result-cases {ℓ} :
    {A : Type ℓ} (r : Result A) → ((a : A) × (r ≡ ok a)) ⊎ ((e : Exn) × (r ≡ err e))
Result-cases (ok a) = inl (a, refl)
Result-cases (err e) = inr (e, refl)

pub ok-inj {ℓ} : {A : Type ℓ} {a b : A} → ok a ≡ ok b → a ≡ b
ok-inj h = cc

pub err-ne-ok {ℓ} : {A : Type ℓ} {e : Exn} {a : A} → err e ≢ ok a
err-ne-ok h = cc

abbrev pub Exec {ℓ} : Type ℓ → Type ℓ → Type ℓ
Exec S A = S → Result A × S

module _ {ℓ} {S A : Type ℓ} where
  unfoldable pub pure : A → Exec S A
  pure a s = (ok a, s)

  unfoldable pub raise : Exn → Exec S A
  raise e s = (err e, s)

  unfoldable pub lift : Result A → Exec S A
  lift r s = (r, s)

  unfoldable pub gets : (S → A) → Exec S A
  gets f s = (ok (f s), s)

module _ {ℓ} {S : Type ℓ} where
  unfoldable pub modify : (S → S) → Exec S (Unit {ℓ})
  modify f s = (ok tt, f s)

  unfoldable pub raise_if : Bool → Exn → Exec S (Unit {ℓ})
  raise_if test e s = (if test then err e else ok tt, s)

module _ {ℓ} {S A B : Type ℓ} where
  infixl 10 ◌>>=◌ ◌>>◌
  -- `try` with what follows it: the handlers, and the code after a success
  unfoldable pub attempt : Exec S A → (Result A → Exec S B) → Exec S B
  attempt m k s = k (m s).0 (m s).1

  abbrev pub proceed : Result A → (A → Exec S B) → Exec S B
  proceed (ok a) f s = f a s
  proceed (err e) f s = (err e, s)

  -- Opening this opens the other ways to build an action too.
  unfoldable pub ◌>>=◌ : Exec S A → (A → Exec S B) → Exec S B
  unfolding pure raise lift gets modify raise_if attempt
  ◌>>=◌ m f s = proceed (m s).0 f (m s).1

  abbrev pub ◌>>◌ : Exec S A → Exec S B → Exec S B
  m >> n = m >>= λ _. n

  -- What a sequence that returned went through.
  pub bind-ok :
      (m : Exec S A) (f : A → Exec S B) (s : S) (b : B)
      → ((m >>= f) s).0 ≡ ok b
      → (a : A) × ((m s).0 ≡ ok a) × ((f a (m s).1).0 ≡ ok b) × (((m >>= f) s).1 ≡ (f a (m s).1).1)
  unfolding ◌>>=◌
  bind-ok m f s b = elim (Result-cases (m s).0) [
    | inl (a, e) ↦ rw e (λ h. (a, refl, h, refl))
    | inr (x, e) ↦ rw e (λ h. absurd (err-ne-ok h))
  ]
