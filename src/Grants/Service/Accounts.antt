-- ===== src/Grants/Service/Accounts.antt =====
-- What the queries of a grant request find: the agent, the tool among the allowed ones, and the account.
use mathlib.Core.Bool.{Bool-set}
use mathlib.Core.Logic.Or
use mathlib.Core.List.{Mem, mem-cons, not-mem-nil, mem-cons_self, mem-cons_of_mem}
use native.Mathlib.Bridge.{le_prop}
use mathlib.Core.Path.{subst}
use credbroker.Common.{
  ℕ, ◌≤◌, ◌≡◌, ap, inl, inr, refl, Text, Bool, Bool-cases, Option, none, some, true, false, List,
  [], ◌∷◌, ◌==◌, ◌&&◌, ltb, text_eq, text_eq→eq, text_eq_refl, ==_iff, arith,
}
use credbroker.Grants.Service.{contains, latest_account, newer}
use credbroker.Models.{ConnectedAccount, find}

pub find-Mem {ℓ} :
    {A : Type ℓ} (p : A → Bool) (l : List A) (a : A) → find p l ≡ some a → Mem a l × (p a ≡ true)
unfolding find
find-Mem p [] a e = absurd (ground arith)
find-Mem p (x ∷ l) a e = elim (Bool-cases (p x)) [
  | inl is ↦
      let same : x ≡ a = ground arith in
      subst (λ y. Mem y (x ∷ l) × (p y ≡ true)) same (mem-cons_self, is)
  | inr fails ↦ let (later, is) = find-Mem p l a (ground arith) in (mem-cons_of_mem x later, is)
]

pub contains-Mem : (t : Text) (l : List Text) → contains t l ≡ true → Mem t l
unfolding contains
contains-Mem t [] e = absurd (ground arith)
contains-Mem t (x ∷ l) e = elim (Bool-cases (text_eq x t)) [
  | inl is ↦ subst (λ y. Mem y (x ∷ l)) (text_eq→eq x t is) mem-cons_self
  | inr fails ↦ mem-cons_of_mem x (contains-Mem t l (ground arith))
]

-- A stored account of the user with the provider, and none of those is newer.
pub record Latest (user : ℕ) (provider : Text) (accounts : List ConnectedAccount)
    (a : ConnectedAccount) : Type 0 where
  pub listed : Mem a accounts
  pub owner : a.user_id ≡ user
  pub from : a.provider ≡ provider
  pub newest :
      (b : ConnectedAccount)
      → Mem b accounts
      → b.user_id ≡ user
      → b.provider ≡ provider
      → b.created_at ≤ a.created_at

module _ (user : ℕ) (provider : Text) where
  abbrev matches : ConnectedAccount → Bool
  matches a = a.user_id == user && text_eq a.provider provider

  matches-own : (a : ConnectedAccount) → a.user_id ≡ user → a.provider ≡ provider → matches a ≡ true
  matches-own a u p =
      let same : (a.user_id == user) ≡ true = (==_iff _ _).1 u in
      rw (same, p, text_eq_refl provider) refl

  own-matches :
      (a : ConnectedAccount) → matches a ≡ true → (a.user_id ≡ user) × (a.provider ≡ provider)
  own-matches a e = elim (Bool-cases (text_eq a.provider provider)) [
    | inl is ↦ (ground arith, text_eq→eq _ _ is)
    | inr fails ↦ absurd (ground arith)
  ]

  -- A row that matches is at most as new as what is found; where nothing is found, it does not match.
  abbrev AtMost : Option ConnectedAccount → ConnectedAccount → Type 0
  AtMost none b = matches b ≡ false
  AtMost (some a) b = matches b ≡ true → b.created_at ≤ a.created_at

  abbrev Finds : List ConnectedAccount → Option ConnectedAccount → Type 0
  Finds l none = Unit
  Finds l (some a) = Mem a l × (matches a ≡ true)

  abbrev Scans : List ConnectedAccount → Option ConnectedAccount → Type 0
  Scans l r = Finds l r × ((b : ConnectedAccount) → Mem b l → AtMost r b)

  either :
      (b x : ConnectedAccount) (l : List ConnectedAccount) (k : ℕ)
      → Mem b (x ∷ l)
      → (b ≡ x → b.created_at ≤ k)
      → (Mem b l → b.created_at ≤ k)
      → b.created_at ≤ k
  either b x l k m first later = Or.elim le_prop (mem-cons.0 m) first later

  Scans-own :
      (x : ConnectedAccount) (l : List ConnectedAccount) (others : Option ConnectedAccount)
      → matches x ≡ true
      → Scans l others
      → Scans (x ∷ l) (some (newer x others))
  unfolding newer
  Scans-own x l none m (f, all) = (
    (mem-cons_self, m),
    λ b mem is.
        either b x l x.created_at mem (λ e. rw e (omega arith))
          (λ later. absurd (ground (arith, all b later))),
  )
  Scans-own x l (some a) m ((listed, is), all) = elim (Bool-cases (ltb x.created_at a.created_at)) [
    | inl older ↦ rw older (
      (mem-cons_of_mem x listed, is),
      λ b mem own.
          either b x l a.created_at mem (λ e. rw e (ground arith)) (λ later. all b later own),
    )
    | inr newest ↦ rw newest (
      (mem-cons_self, m),
      λ b mem own.
          either b x l x.created_at mem (λ e. rw e (omega arith))
            (λ later. ground (arith, all b later own)),
    )
  ]

  Scans-other :
      (x : ConnectedAccount) (l : List ConnectedAccount) (others : Option ConnectedAccount)
      → matches x ≡ false
      → Scans l others
      → Scans (x ∷ l) others
  Scans-other x l none m (f, all) =
      let is_prop = λ (b : ConnectedAccount). Bool-set (matches b) false in
      (tt, λ b mem. Or.elim (is_prop b) (mem-cons.0 mem) (λ e. rw e m) (all b))
  Scans-other x l (some a) m ((listed, is), all) = (
    (mem-cons_of_mem x listed, is),
    λ b mem own.
        either b x l a.created_at mem
          (λ e. let same : matches b ≡ matches x = ap matches e in absurd (ground arith))
          (λ later. all b later own),
  )

  latest_account-Scans : (l : List ConnectedAccount) → Scans l (latest_account user provider l)
  unfolding latest_account
  latest_account-Scans [] = (tt, λ b mem. absurd (not-mem-nil mem))
  latest_account-Scans (x ∷ l) =
      let rest = latest_account-Scans l in
      elim (Bool-cases (matches x)) [
        | inl m ↦ rw m (Scans-own x l (latest_account user provider l) m rest)
        | inr m ↦ rw m (Scans-other x l (latest_account user provider l) m rest)
      ]

  pub latest_account-Latest :
      (l : List ConnectedAccount) (a : ConnectedAccount)
      → latest_account user provider l ≡ some a
      → Latest user provider l a
  latest_account-Latest l a e =
      let ((listed, is), all) : Scans l (some a) = subst (Scans l) e (latest_account-Scans l) in
      let (own, same) = own-matches a is in
      record {
        listed = listed;
        owner = own;
        from = same;
        newest = λ b mem u p. all b mem (matches-own b u p);
      }
