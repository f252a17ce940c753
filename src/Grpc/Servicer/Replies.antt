-- ===== src/Grpc/Servicer/Replies.antt =====
-- What the RPCs answer, where no await fails: the replies that the results of the services stand for.
use credbroker.Common.{
  ℕ, zero, suc, true, false, [], ◌∷◌, ◌≡◌, refl, ap, ◌∙◌, Text, Option, none, some, codes,
}
use credbroker.Errors.{
  broker, BrokerError, grant_not_found, unknown_agent, unknown_tool, policy_denied,
  grant_scope_mismatch, no_connected_account, concurrency_limit, rate_limited,
}
use credbroker.Exec.{Result, ok, err, pure, modify, lift, attempt, ◌>>=◌}
use credbroker.Grants.Service.{IssuedGrant, request_grant, revoke_grant}
use credbroker.Grpc.Servicer.{
  CredBrokerServicer, abort, internal_error, unhandled, rpc_error_guard, with_uuid, parse_uuid,
  grant_denied, grant_reply, rpc_request_grant, denied_code, invoke_reply, rpc_invoke_tool,
  revoke_reply, rpc_revoke_grant,
}
use credbroker.Grpc.Messages.{
  StatusCode, Reply, response, aborted, GrantRequest, InvokeRequest, RevokeRequest, InvokeResponse,
  error_or, grant_error_code, or_none, parse_result, status_text,
}
use credbroker.Invoke.Outcome.{InvokeOutcome, Reason}
use credbroker.Invoke.Service.{invoke}
use credbroker.Invoke.Service.Returns.{invoke-Returns}
use credbroker.Json.{Json, null, bool, num, str, arr, obj, nil, cons, end, field}
use credbroker.Models.{Grant, Status}
use credbroker.World.Returns.{opened, await-ok, in_session-result}
use credbroker.World.{World, Outside, M, emit, in_session}
use credbroker.Grpc.Servicer.Expected.{
  expect_code, expect_denied, expect_grant, expect_outcome, expect_error, expect_result,
  expect_revoked, expected_code, expect_status, expect_uuid, hidden,
}

grant_error_code-expected : (e : BrokerError) → grant_error_code e ≡ expected_code e
unfolding grant_error_code
grant_error_code-expected unknown_agent = refl
grant_error_code-expected unknown_tool = refl
grant_error_code-expected policy_denied = refl
grant_error_code-expected grant_scope_mismatch = refl
grant_error_code-expected no_connected_account = refl
grant_error_code-expected concurrency_limit = refl
grant_error_code-expected rate_limited = refl
grant_error_code-expected e = refl

error_or-expected :
    (error : Option Text) (default : Text) → error_or error default ≡ expect_error error default
error_or-expected none default = refl
error_or-expected (some []) default = refl
error_or-expected (some (c ∷ t)) default = refl

module _ (o : Outside) (no_fault : (n : ℕ) → o.fault n ≡ none) where
  open o.redis use {Store}

  pub abort-ok :
      {A : Type 0} (code : StatusCode) (details : Text) (w : World Store)
      → (abort o {A = A} code details w).0 ≡ ok (aborted code details)
  unfolding abort ◌>>=◌
  abort-ok code details w = rw (await-ok o no_fault w) refl

  -- The guard turns what is unhandled into the constant.
  abbrev settled : {A : Type 0} → Result (Reply A) → Reply A
  settled (ok reply) = reply
  settled (err x) = hidden o

  unhandled-settled :
      {A : Type 0} (r : Result (Reply A)) (w : World Store) → (unhandled o r w).0 ≡ ok (settled r)
  unfolding unhandled ◌>>=◌
  unhandled-settled (ok reply) w = refl
  unhandled-settled (err x) w = abort-ok StatusCode.internal (internal_error o) w

  guard-settled :
      {A : Type 0} (method : M o (Reply A)) (w : World Store)
      → (rpc_error_guard o method w).0 ≡ ok (settled (method w).0)
  unfolding rpc_error_guard attempt
  guard-settled method w = unhandled-settled (method w).0 (method w).1

  with_uuid-settled :
      {A : Type 0} (name : Text) (rest : ℕ → M o (Reply A)) (expected : ℕ → Reply A)
      (w : World Store) (id : Option ℕ)
      → ((n : ℕ) → settled (rest n w).0 ≡ expected n)
      → settled (with_uuid o name rest id w).0 ≡ expect_uuid o name expected id
  unfolding with_uuid
  with_uuid-settled name rest expected w none all = ap settled (abort-ok _ _ w)
  with_uuid-settled name rest expected w (some id) all = all id

  module _ (servicer : CredBrokerServicer) where
    grant_denied-settled :
        (e : BrokerError) (m : Text) (code : Option StatusCode) (w : World Store)
        → settled (grant_denied o servicer e m code w).0 ≡ expect_code o m code
    unfolding grant_denied ◌>>=◌ emit
    grant_denied-settled e m none w = refl
    grant_denied-settled e m (some code) w = ap settled (abort-ok code m _)

    grant_reply-settled :
        (r : Result IssuedGrant) (w : World Store)
        → settled (grant_reply o servicer r w).0 ≡ expect_grant o r
    unfolding grant_reply ◌>>=◌ emit
    grant_reply-settled (ok issued) w = refl
    grant_reply-settled (err (broker e m)) w =
        grant_denied-settled e m (grant_error_code e) w
        ∙ ap (expect_code o m) (grant_error_code-expected e)
    grant_reply-settled (err x) w = refl

    grant_rest-settled :
        (tool_name scope : Text) (agent_id : ℕ) (w : World Store)
        → let service =
            request_grant o servicer.settings servicer.grant_cache servicer.rate_limiter agent_id
              tool_name scope in
          settled (attempt (in_session o service) (grant_reply o servicer) w).0
          ≡ expect_grant o (service (opened w)).0
    unfolding attempt
    grant_rest-settled tool_name scope agent_id w =
        let service =
          request_grant o servicer.settings servicer.grant_cache servicer.rate_limiter agent_id
            tool_name scope in
        grant_reply-settled _ _ ∙ ap (expect_grant o) (in_session-result o no_fault service w)

    -- `RequestGrant` always answers, and its answer is what the grant service did in a new session:
    -- the token with its id and expiry; a denial's message, under the code that the table `expected_code` has for its class; for any
    -- other exception the constant text; and for an id that is no UUID, INVALID_ARGUMENT.
    pub rpc_request_grant-Answers :
        (request : GrantRequest) (w : World Store)
        → (rpc_request_grant o servicer request w).0
          ≡ ok (
              expect_uuid o
                (codes "agent_id")
                (λ agent_id.
                  expect_grant o
                    (request_grant o servicer.settings servicer.grant_cache servicer.rate_limiter
                      agent_id request.tool_name request.requested_scope
                      (opened w)).0)
                (o.uuid_parse request.agent_id))
    unfolding rpc_request_grant parse_uuid
    rpc_request_grant-Answers request w =
        guard-settled _ w
        ∙ ap ok (
            with_uuid-settled (codes "agent_id") _ _ w (o.uuid_parse request.agent_id)
              (λ id. grant_rest-settled request.tool_name request.requested_scope id w))

    denied_code-expected :
        (reason : Option Reason) (details : Text)
        → aborted (denied_code o servicer reason) details ≡ expect_denied o reason details
    unfolding denied_code
    denied_code-expected (some Reason.rate_limited) details = refl
    denied_code-expected reason details = refl

    -- What is sent for the result of a success.
    sent : InvokeOutcome → Option Json → M o (Reply InvokeResponse)
    sent outcome value = lift (parse_result value) >>= λ fields.
        pure (response (record { result = fields; status = status_text outcome.status }))

    sent-settled :
        (outcome : InvokeOutcome) (value : Option Json) (w : World Store)
        → outcome.status ≡ Status.success
        → settled (sent outcome value w).0 ≡ expect_result o value
    unfolding sent ◌>>=◌
    sent-settled outcome none w e = rw e refl
    sent-settled outcome (some (obj end)) w e = rw e refl
    sent-settled outcome (some (obj (field k v fs))) w e = rw e refl
    sent-settled outcome (some null) w e = rw e refl
    sent-settled outcome (some (bool false)) w e = rw e refl
    sent-settled outcome (some (bool true)) w e = refl
    sent-settled outcome (some (num zero)) w e = rw e refl
    sent-settled outcome (some (num (suc n))) w e = refl
    sent-settled outcome (some (str [])) w e = rw e refl
    sent-settled outcome (some (str (c ∷ t))) w e = refl
    sent-settled outcome (some (arr nil)) w e = rw e refl
    sent-settled outcome (some (arr (cons v vs))) w e = refl

    invoke_reply-settled :
        (label : Text) (outcome : InvokeOutcome) (w : World Store) (status : Status)
        → outcome.status ≡ status
        → settled (invoke_reply o servicer label outcome status w).0
          ≡ expect_status o outcome status
    unfolding invoke_reply ◌>>=◌ emit modify sent
    invoke_reply-settled label outcome w Status.denied e =
        ap settled (abort-ok _ _ w)
        ∙ denied_code-expected outcome.denied_reason _
        ∙ ap (expect_denied o outcome.denied_reason) (error_or-expected outcome.error _)
    invoke_reply-settled label outcome w Status.failed e =
        ap settled (abort-ok _ _ w)
        ∙ ap (aborted StatusCode.unavailable) (error_or-expected outcome.error _)
    invoke_reply-settled label outcome w Status.success e = sent-settled outcome outcome.result _ e

    -- `InvokeTool` always answers, with what the outcome of the invocation stands for: the result
    -- of a success, if it is an object, or no fields where it is missing or counts as empty (null,
    -- false, 0, an empty text or list), with the status "success"; the error text of a failure as
    -- UNAVAILABLE; the error text of a denial as RESOURCE_EXHAUSTED for the rate limit, and as
    -- PERMISSION_DENIED for any other reason, where a missing or empty text is replaced by the
    -- default for the status; and for a result of any other kind, the constant text.
    pub rpc_invoke_tool-Answers :
        (request : InvokeRequest) (w : World Store)
        → (outcome : InvokeOutcome) × ((invoke o servicer.invoke_service request.grant_token
              request.tool_name request.arguments
              (or_none request.idempotency_key)
              w).0
            ≡ ok outcome)
          × ((rpc_invoke_tool o servicer request w).0 ≡ ok (expect_outcome o outcome))
    unfolding rpc_invoke_tool ◌>>=◌ emit
    rpc_invoke_tool-Answers request w =
        let (outcome, e) =
          invoke-Returns o servicer.invoke_service no_fault request.grant_token request.tool_name
            request.arguments (or_none request.idempotency_key) w in
        (
          outcome,
          e,
          guard-settled _ w ∙ ap ok (rw e (invoke_reply-settled _ outcome _ outcome.status refl)),
        )

    revoke_reply-settled :
        (r : Result Grant) (w : World Store)
        → settled (revoke_reply o servicer r w).0 ≡ expect_revoked o r
    unfolding revoke_reply ◌>>=◌ emit
    revoke_reply-settled (ok grant) w = refl
    revoke_reply-settled (err (broker grant_not_found m)) w = ap settled (abort-ok _ m w)
    revoke_reply-settled (err x) w = refl

    revoke_rest-settled :
        (grant_id : ℕ) (w : World Store)
        → settled
            (attempt
              (in_session o (revoke_grant o servicer.grant_cache grant_id))
              (revoke_reply o servicer)
              w).0
          ≡ expect_revoked o (revoke_grant o servicer.grant_cache grant_id (opened w)).0
    unfolding attempt
    revoke_rest-settled grant_id w =
        revoke_reply-settled _ _
        ∙ ap (expect_revoked o)
            (in_session-result o no_fault (revoke_grant o servicer.grant_cache grant_id) w)

    -- `RevokeGrant` always answers: that the grant is revoked exactly where the grant service returned
    -- it, in a new session; NOT_FOUND with the message where there is no such grant; INVALID_ARGUMENT
    -- for an id that is no UUID; and the constant text for any other exception.
    pub rpc_revoke_grant-Answers :
        (request : RevokeRequest) (w : World Store)
        → (rpc_revoke_grant o servicer request w).0
          ≡ ok (
              expect_uuid o
                (codes "grant_id")
                (λ grant_id.
                  expect_revoked o (revoke_grant o servicer.grant_cache grant_id (opened w)).0)
                (o.uuid_parse request.grant_id))
    unfolding rpc_revoke_grant parse_uuid
    rpc_revoke_grant-Answers request w =
        guard-settled _ w
        ∙ ap ok (
            with_uuid-settled (codes "grant_id") _ _ w (o.uuid_parse request.grant_id)
              (λ id. revoke_rest-settled id w))
