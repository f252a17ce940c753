-- ===== src/Invoke/Service/Succeeds.antt =====
-- What an invocation with a resolved grant succeeds behind.
use credbroker.Common.{
  ℕ, ◌<◌, ◌≡◌, refl, inl, inr, Text, Bool, true, false, Option, none, [], ◌∷◌, codes, leb, is_some,
  is_some-none, text_eq, text_eq→eq, if◌then◌else◌, Bool-cases, arith,
}
use credbroker.Errors.{Exn}
use credbroker.Exec.{Result, ok, err, pure, gets, attempt, proceed, Result-cases, ◌>>=◌, ◌>>◌}
use credbroker.Invoke.Audit.{record_call}
use credbroker.Invoke.Outcome.{InvokeOutcome, InvokeService, Reason, denied, failed}
use credbroker.Invoke.Service.{with_tool, rate_allowed, invoke_resolved, backstop, audited_call}
use credbroker.Json.{Fields}
use credbroker.Models.{Status, Grant}
use credbroker.Tools.{ToolAdapter, get_tool}
use credbroker.World.{World, Outside, emit, utcnow, rollback, counted}

module _ (o : Outside) where
  open o.redis use {Store}

  -- A success that an action returns.
  abbrev pub Succeeds : Result InvokeOutcome × World Store → Type 0
  Succeeds (r, w) = (outcome : InvokeOutcome) × (r ≡ ok outcome) × (outcome.status ≡ Status.success)

  pub denied-fails :
      (error : Text) (reason : Reason) (start : ℕ) (w : World Store)
      → Succeeds (denied o error reason start w)
      → ⊥
  unfolding denied gets
  denied-fails error reason start w (outcome, e, s) = ground arith

  failed-fails :
      (error : Text) (start : ℕ) (w : World Store) → Succeeds (failed o error start w) → ⊥
  unfolding failed gets
  failed-fails error start w (outcome, e, s) = ground arith

  pub err-fails : (x : Exn) (w : World Store) → Succeeds (err x, w) → ⊥
  err-fails x w (outcome, e, s) = cc

  module _ (service : InvokeService) (grant : Grant) (token_hash tool_name : Text)
      (arguments : Fields) (start : ℕ) where
    -- The tool is registered, and under the grant's scope.
    abbrev pub InScope : Type 0
    InScope =
        (tool : ToolAdapter) × (get_tool service.settings tool_name ≡ ok tool)
        × (grant.scope ≡ tool.scope)

    with_tool-InScope :
        (key : Option Text) (r : Result ToolAdapter) (w : World Store)
        → r ≡ get_tool service.settings tool_name
        → Succeeds (with_tool o service grant token_hash tool_name arguments start key r w)
        → InScope
    unfolding with_tool
    with_tool-InScope key (err e) w same = λ s. absurd (denied-fails _ _ start w s)
    with_tool-InScope key (ok tool) w same = elim (Bool-cases (text_eq grant.scope tool.scope)) [
      | inl fits ↦ λ s. (tool, ground arith, text_eq→eq grant.scope tool.scope fits)
      | inr differs ↦ rw differs (λ s. absurd (denied-fails _ _ start w s))
    ]

    rated-InScope :
        (key : Option Text) (w : World Store)
        → Succeeds (
            (rate_allowed o service grant token_hash tool_name arguments start service.rate_limiter
                >>= λ allowed.
                    if allowed
                    then with_tool o service grant token_hash tool_name arguments start key
                        (get_tool service.settings tool_name)
                    else (do
                      emit o (counted (codes "rate_limited") (codes "invoke_tool" ∷ []))
                      denied o (codes "invoke rate limit exceeded") Reason.rate_limited start))
              w)
        → InScope
    unfolding ◌>>=◌ emit denied
    rated-InScope key w =
        elim (Result-cases
          (rate_allowed o service grant token_hash tool_name arguments start service.rate_limiter
            w).0) [
              | inl (true, e) ↦
                  rw e (with_tool-InScope key (get_tool service.settings tool_name) _ refl)
              | inl (false, e) ↦ rw e (λ s. absurd (
                  denied-fails _ _ start
                    (rate_allowed o service grant token_hash tool_name arguments start
                      service.rate_limiter w).1
                    s))
              | inr (x, e) ↦ rw e (λ s. absurd (err-fails x w s))
            ]

    invoke_resolved-Checked :
        (key : Option Text) (fast : Bool) (w : World Store)
        → Succeeds (invoke_resolved o service grant token_hash tool_name arguments start key fast w)
        → (fast ≡ false) × (grant.revoked_at ≡ none) × (w.now < grant.expires_at) × InScope
    unfolding invoke_resolved ◌>>=◌ utcnow
    invoke_resolved-Checked key true w = λ s. absurd (denied-fails _ _ start w s)
    invoke_resolved-Checked key false w = elim (Bool-cases (is_some grant.revoked_at)) [
      | inl revoked ↦ rw revoked (λ s. absurd (denied-fails _ _ start w s))
      | inr active ↦ rw active (elim (Bool-cases (leb grant.expires_at w.now)) [
        | inl late ↦ rw late (λ s. absurd (denied-fails _ _ start w s))
        | inr early ↦
            rw early (λ s.
              (refl, is_some-none grant.revoked_at active, ground arith, rated-InScope key w s))
      ])
    ]

    -- The audit row changes nothing of the outcome.
    returned :
        (id : ℕ) (r : Result InvokeOutcome) (w : World Store) (outcome : InvokeOutcome)
        → (proceed r
            (λ out. record_call o id tool_name arguments out.status out.latency_ms >> pure out)
            w).0
          ≡ ok outcome
        → r ≡ ok outcome
    unfolding ◌>>=◌
    returned id (err e) w outcome = λ h. cc
    returned id (ok out) w outcome =
        elim (Result-cases (record_call o id tool_name arguments out.status out.latency_ms w).0) [
          | inl (row, e) ↦ rw e (λ h. h)
          | inr (x, e) ↦ rw e (λ h. cc)
        ]

    backstop-fails : (x : Exn) (w : World Store) → Succeeds (backstop o service start (err x) w) → ⊥
    unfolding backstop failed ◌>>=◌
    backstop-fails x w = elim (Result-cases (rollback o w).0) [
      | inl (u, e) ↦ rw e (λ s. failed-fails _ start (rollback o w).1 s)
      | inr (y, e) ↦ rw e (λ s. err-fails y w s)
    ]

    after_backstop :
        (r : Result InvokeOutcome) (w u : World Store)
        → Succeeds (backstop o service start r w)
        → Succeeds (r, u)
    unfolding backstop pure
    after_backstop (ok outcome) w u s = s
    after_backstop (err x) w u s = absurd (backstop-fails x w s)

    pub audited_call-Checked :
        (key : Option Text) (fast : Bool) (w : World Store)
        → Succeeds (audited_call o service grant token_hash tool_name arguments key fast start w)
        → (fast ≡ false) × (grant.revoked_at ≡ none) × (w.now < grant.expires_at) × InScope
    unfolding audited_call ◌>>=◌
    audited_call-Checked key fast w (outcome, e, s) =
        let call =
          attempt (invoke_resolved o service grant token_hash tool_name arguments start key fast)
            (backstop o service start) in
        let same = returned grant.id (call w).0 (call w).1 outcome e in
        invoke_resolved-Checked key fast w (
          after_backstop
            (invoke_resolved o service grant token_hash tool_name arguments start key fast w).0 _ w
            (outcome, same, s))
