-- ===== src/Grants/Service/Counts.antt =====
-- How the number of active grants changes with time, an insertion and a revocation.
use credbroker.Common.{
  ℕ, ◌≤◌, ◌<◌, ◌≡◌, Text, true, false, some, List, [], ◌∷◌, ◌==◌, text_eq→eq, Bool-cases, inl, inr,
  arith,
}
use credbroker.Grants.Service.{is_active, count_active}
use credbroker.Models.{Grant, update_where}

module _ (agent : ℕ) (tool scope : Text) where
  -- Grants only expire as time passes.
  is_active-later :
      (g : Grant) (now later : ℕ)
      → now ≤ later
      → is_active agent tool scope later g ≡ true
      → is_active agent tool scope now g ≡ true
  unfolding is_active
  is_active-later g now later h e = ground arith

  pub count_active-later :
      (gs : List Grant) (now later : ℕ)
      → now ≤ later
      → count_active agent tool scope later gs ≤ count_active agent tool scope now gs
  unfolding count_active
  count_active-later [] now later h = omega arith
  count_active-later (g ∷ gs) now later h =
      ground (arith, count_active-later gs now later h, is_active-later g now later h)

  -- A revoked grant is not active.
  revoked_inactive :
      (t now : ℕ) (g : Grant)
      → is_active agent tool scope now (record g { revoked_at = some t }) ≡ false
  unfolding is_active
  revoked_inactive t now g = ground arith

  pub count_active-revoked :
      (id t : ℕ) (gs : List Grant) (now : ℕ)
      → count_active agent tool scope now
          (update_where (λ (g : Grant). g.id == id) (λ g. record g { revoked_at = some t }) gs)
        ≤ count_active agent tool scope now gs
  unfolding count_active update_where
  count_active-revoked id t [] now = omega arith
  count_active-revoked id t (g ∷ gs) now =
      let rest = count_active-revoked id t gs now in
      elim (Bool-cases (g.id == id)) [
        | inl this ↦ rw (this, revoked_inactive) (ground (arith, rest))
        | inr other ↦ rw other (ground (arith, rest))
      ]

  is_active-same :
      (g : Grant) (now : ℕ)
      → is_active agent tool scope now g ≡ true
      → (g.agent_id ≡ agent) × (g.tool_name ≡ tool) × (g.scope ≡ scope)
  unfolding is_active
  is_active-same g now e = ground (arith, text_eq→eq g.tool_name tool, text_eq→eq g.scope scope)

-- An insertion where the count is below a bound.
pub count_active-insert :
    (g : Grant) (gs : List Grant) (max now : ℕ)
    → count_active g.agent_id g.tool_name g.scope now gs < max
    → (agent : ℕ) (tool scope : Text) → count_active agent tool scope now gs ≤ max
    → count_active agent tool scope now (g ∷ gs) ≤ max
unfolding count_active
count_active-insert g gs max now below agent tool scope h =
    elim (Bool-cases (is_active agent tool scope now g)) [
      | inl active ↦ let same = is_active-same agent tool scope g now active in ground (arith, same)
      | inr not_active ↦ rw not_active h
    ]
