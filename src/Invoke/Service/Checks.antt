-- ===== src/Invoke/Service/Checks.antt =====
-- An invocation succeeds only behind every check of the source's steps 2 to 5.
use credbroker.Common.{
  ℕ, ◌+◌, ◌<◌, ◌≡◌, refl, inl, inr, Text, Bool, true, false, ◌&&◌, Option, none, some, text_eq,
  text_eq→eq, Bool-cases, Option-cases,
}
use credbroker.Errors.{broker, grant_expired, grant_token_invalid}
use credbroker.Exec.{Result, ok, err, pure, raise, ◌>>=◌}
use credbroker.Cache.GrantCache.{revoked_key, is_revoked}
use credbroker.Grants.Tokens.{GrantClaims, hash_token, verify_grant_token}
use credbroker.Invoke.Outcome.{InvokeOutcome, InvokeService}
use credbroker.Invoke.Service.{fast_check, looked_up, verified, invoke}
use credbroker.Json.{Fields}
use credbroker.Models.{Status, Grant, find}
use credbroker.Tools.{ToolAdapter, get_tool}
use credbroker.World.{World, Outside}
use credbroker.World.Alone.{Alone, query_alone, redis_read_alone, stepped}
use credbroker.Invoke.Service.Succeeds.{Succeeds, audited_call-Checked, denied-fails, err-fails}

module _ (o : Outside) where
  open o.redis use {Store}

  -- What a success proves of the world that it started in.
  pub record Checked (service : InvokeService) (token tool_name : Text) (w : World Store)
      : Type 0 where
    pub claims : GrantClaims
    pub grant : Grant
    pub tool : ToolAdapter
    pub genuine : verify_grant_token o token service.settings w.now ≡ ok claims
    pub same_tool : tool_name ≡ claims.tool_name
    pub stored :
        find (λ (g : Grant). text_eq g.grant_token_hash (hash_token o token)) w.db.grants
        ≡ some grant
    pub active : grant.revoked_at ≡ none
    pub alive : w.now < grant.expires_at
    pub registered : get_tool service.settings tool_name ≡ ok tool
    pub in_scope : grant.scope ≡ tool.scope
    pub unmarked :
        (service.grant_cache && o.redis.has w.now (revoked_key (hash_token o token)) w.store)
        ≡ false

  module _ (alone : Alone o) (service : InvokeService) (token tool_name : Text) (arguments : Fields)
      (start : ℕ) where
    abbrev h : Text
    h = hash_token o token

    -- The cache's answer, and that only an await has passed.
    fast_check_alone :
        (b : Bool) (w : World Store)
        → (n : ℕ) × (fast_check o service b h w
            ≡ (ok (b && o.redis.has w.now (revoked_key h) w.store), record w { steps = n }))
    unfolding fast_check is_revoked pure
    fast_check_alone false w = (w.steps, refl)
    fast_check_alone true w = (w.steps + 1, redis_read_alone o alone _ w)

    looked_up-Checked :
        (key : Option Text) (claims : GrantClaims) (w : World Store)
        → verify_grant_token o token service.settings w.now ≡ ok claims
        → tool_name ≡ claims.tool_name
        → Succeeds o (looked_up o service token tool_name arguments key start w)
        → Checked service token tool_name w
    unfolding looked_up ◌>>=◌
    looked_up-Checked key claims w g t =
        let (n, fast) = fast_check_alone service.grant_cache (record w { pending = λ db. db }) in
        rw (fast, query_alone o alone)
          (elim (Option-cases (find (λ (g : Grant). text_eq g.grant_token_hash h) w.db.grants)) [
            | inl e ↦ rw e (λ s.
                absurd (
                  denied-fails o _ _ start (stepped (record w { steps = n; pending = λ db. db }))
                    s))
            | inr (grant, e) ↦ rw e (λ s.
                let (unmarked, active, alive, (tool, registered, in_scope)) =
                  audited_call-Checked o service grant h tool_name arguments start key
                    (service.grant_cache && o.redis.has w.now (revoked_key h) w.store)
                    (stepped (record w { steps = n; pending = λ db. db })) s in
                record {
                  claims = claims;
                  grant = grant;
                  tool = tool;
                  genuine = g;
                  same_tool = t;
                  stored = e;
                  active = active;
                  alive = alive;
                  registered = registered;
                  in_scope = in_scope;
                  unmarked = unmarked;
                })
          ])

    verified-Checked :
        (key : Option Text) (r : Result GrantClaims) (w : World Store)
        → verify_grant_token o token service.settings w.now ≡ r
        → Succeeds o (verified o service token tool_name arguments key start r w)
        → Checked service token tool_name w
    unfolding verified raise
    verified-Checked key (err (broker grant_expired m)) w g =
        λ s. absurd (denied-fails o _ _ start w s)
    verified-Checked key (err (broker grant_token_invalid m)) w g =
        λ s. absurd (denied-fails o _ _ start w s)
    verified-Checked key (ok claims) w g = elim (Bool-cases (text_eq tool_name claims.tool_name)) [
      | inl same ↦
          rw same (looked_up-Checked key claims w g (text_eq→eq tool_name claims.tool_name same))
      | inr differs ↦ rw differs (λ s. absurd (denied-fails o _ _ start w s))
    ]
    verified-Checked key (err e) w g = λ s. absurd (err-fails o e w s)

  -- An invocation that nothing disturbs succeeds only if, in the world in which it starts, the token
  -- verifies for this very tool, the tables hold a grant with the token's hash that is neither revoked
  -- nor expired and has the scope of the registered tool, and the cache has no revocation mark for it.
  pub invoke-Checked :
      (alone : Alone o) (service : InvokeService) (token tool_name : Text) (arguments : Fields)
      (key : Option Text) (w : World Store) (outcome : InvokeOutcome)
      → (invoke o service token tool_name arguments key w).0 ≡ ok outcome
      → outcome.status ≡ Status.success
      → Checked service token tool_name w
  unfolding invoke ◌>>=◌
  invoke-Checked alone service token tool_name arguments key w outcome e s =
      verified-Checked alone service token tool_name arguments w.monotonic key
        (verify_grant_token o token service.settings w.now) w refl (outcome, e, s)
