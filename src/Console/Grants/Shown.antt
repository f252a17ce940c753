-- ===== src/Console/Grants/Shown.antt =====
-- The grants that the console lists.
use credbroker.Common.{
  ℕ, ◌≤◌, ◌≡◌, refl, ap, sym, ◌∙◌, inl, inr, Text, Bool, true, false, ◌&&◌, some, List, [], ◌∷◌,
  ◌++◌, map, take, drop, length, ◌⊎◌, ◌==◌, text_eq, text_eq_refl, text_eq→eq, Bool-cases, arith,
}
use credbroker.Console.Api.{grant_dict, recent_grants}
use credbroker.Console.State.{AppState}
use credbroker.Console.Views.{GrantStatus, GrantDict, grant_status}
use credbroker.Console.Order.{order_by_desc}
use credbroker.Console.Order.Laws.{
  take-drop, count_if, count_if-take, Descending, Newest, take-Newest, take-full, take-Descending,
  order_by_desc-Descending, order_by_desc-perm, count_if-order_by_desc,
}
use credbroker.Exec.{ok, ok-inj, ◌>>=◌, attempt}
use credbroker.Grants.Service.{is_active, count_active}
use credbroker.Grants.Service.Bound.{Bounded}
use credbroker.Http.{answered, answered-inj}
use credbroker.Models.{Grant}
use credbroker.OAuth.Router.Flow.{UuidLaws}
use credbroker.World.{World, Outside, in_session, query, utcnow}
use credbroker.World.Alone.{Alone, await_alone}
use mathlib.Core.List.{Perm}

abbrev issued : Grant → ℕ
issued g = g.issued_at

module _ (o : Outside) (alone : Alone o) (state : AppState) where
  open o.redis use {Store}

  recent_grants-run :
      (limit : ℕ) (w : World Store)
      → (recent_grants o state limit w).0
        ≡ ok (answered (map (grant_dict o w.now) (take limit (order_by_desc issued w.db.grants))))
  unfolding recent_grants in_session attempt ◌>>=◌ query utcnow
  recent_grants-run limit w = simp (await_alone o alone)

  -- Where nothing disturbs it, the list of grants for a limit is made, with each status as of now, from
  -- stored grants, each as often as it is stored, newest first; what is left out is no newer
  -- than anything shown, and nothing is left out unless the limit is reached.
  pub recent_grants-Newest :
      (limit : ℕ) (w : World Store)
      → (shown : List Grant) × (hidden : List Grant) × ((recent_grants o state limit w).0
          ≡ ok (answered (map (grant_dict o w.now) shown)))
        × Perm (shown ++ hidden) w.db.grants
        × Descending issued shown
        × Newest issued shown hidden
        × ((length shown ≡ limit) ⊎ ((length shown ≤ limit) × (hidden ≡ [])))
  recent_grants-Newest limit w =
      let sorted = order_by_desc issued w.db.grants in
      let down = order_by_desc-Descending issued w.db.grants in
      let perm = order_by_desc-perm issued w.db.grants in
      (
        take limit sorted,
        drop limit sorted,
        recent_grants-run limit w,
        rw take-drop perm,
        take-Descending issued limit sorted down,
        take-Newest issued limit sorted down,
        take-full limit sorted,
      )

abbrev is_active_status : GrantStatus → Bool
is_active_status GrantStatus.active = true
is_active_status _ = false

-- An entry of the list that shows an active grant of an agent for a tool and scope.
abbrev pub shows_active : Text → Text → Text → GrantDict → Bool
shows_active agent tool scope d =
    text_eq d.agent_id agent
    && text_eq d.tool_name tool
    && text_eq d.scope scope
    && is_active_status d.status

module _ (o : Outside) (ids : UuidLaws o) where
  uuid_eq : (a b : ℕ) → text_eq (o.uuid_str a) (o.uuid_str b) ≡ (a == b)
  uuid_eq a b = elim (Bool-cases (a == b)) [
    | inl same ↦
        let e : a ≡ b = ground arith in
        ap (λ n. text_eq (o.uuid_str a) (o.uuid_str n)) (sym e)
        ∙ text_eq_refl (o.uuid_str a)
        ∙ sym same
    | inr differs ↦ elim (Bool-cases (text_eq (o.uuid_str a) (o.uuid_str b))) [
      | inr e ↦ e ∙ sym differs
      | inl e ↦
          let texts = text_eq→eq _ _ e in
          let e : some a ≡ some b =
            sym (ids.parse_lem a) ∙ ap o.uuid_parse texts ∙ ids.parse_lem b in
          absurd (ground arith)
    ]
  ]

  module _ (agent : ℕ) (tool scope : Text) (now : ℕ) where
    -- The console shows a grant as active exactly where the grant service counts it.
    shown-is_active :
        (g : Grant)
        → shows_active (o.uuid_str agent) tool scope (grant_dict o now g)
          ≡ is_active agent tool scope now g
    unfolding grant_dict grant_status is_active
    shown-is_active g = rw uuid_eq (ground arith)

    count_shown :
        (gs : List Grant)
        → count_if (shows_active (o.uuid_str agent) tool scope) (map (grant_dict o now) gs)
          ≡ count_if (is_active agent tool scope now) gs
    unfolding count_if
    count_shown [] = refl
    count_shown (g ∷ gs) = rw shown-is_active (ground (arith, count_shown gs))

    count_if-count_active :
        (gs : List Grant)
        → count_if (is_active agent tool scope now) gs ≡ count_active agent tool scope now gs
    unfolding count_if count_active
    count_if-count_active [] = refl
    count_if-count_active (g ∷ gs) = ground (arith, count_if-count_active gs)

module _ (o : Outside) (alone : Alone o) (ids : UuidLaws o) (state : AppState) where
  open o.redis use {Store}

  -- In a world in which the grant service keeps its bound, the console never lists more active
  -- grants of an agent for a tool and scope than the bound, whatever the limit of the list.
  pub recent_grants-Bounded :
      (max limit agent : ℕ) (tool scope : Text) (shown : List GrantDict) (w : World Store)
      → Bounded max w
      → (recent_grants o state limit w).0 ≡ ok (answered shown)
      → count_if (shows_active (o.uuid_str agent) tool scope) shown ≤ max
  recent_grants-Bounded max limit agent tool scope shown w bounded e =
      let p = is_active agent tool scope w.now in
      let sorted = order_by_desc issued w.db.grants in
      let entries : map (grant_dict o w.now) (take limit sorted) ≡ shown =
        answered-inj (ok-inj (sym (recent_grants-run o alone state limit w) ∙ e)) in
      rw (← entries, count_shown o ids agent tool scope w.now)
        (omega (
          arith,
          count_if-take p limit sorted,
          count_if-order_by_desc issued p w.db.grants,
          count_if-count_active o ids agent tool scope w.now w.db.grants,
          bounded.within agent tool scope,
        ))
