-- ===== src/Grpc/Servicer/Revocation.antt =====
-- `RevokeGrant`, and then `InvokeTool` with the token of the grant.
use credbroker.Common.{ℕ, ◌≡◌, refl, ap, ◌∙◌, Text, Option, none, some, ◌≢◌}
use credbroker.Errors.{broker, grant_not_found}
use credbroker.Exec.{Result, ok, err, attempt, ◌>>=◌}
use credbroker.Grants.Service.{revoke_grant}
use credbroker.Grants.Service.Revoke.{by_hash, by_id}
use credbroker.Grants.Tokens.{hash_token}
use credbroker.Grpc.Servicer.{
  CredBrokerServicer, abort, unhandled, rpc_error_guard, parse_uuid, with_uuid, rpc_invoke_tool,
  revoke_reply, rpc_revoke_grant,
}
use credbroker.Grpc.Messages.{
  StatusCode, Reply, aborted, InvokeRequest, InvokeResponse, RevokeRequest, or_none,
}
use credbroker.Grpc.Servicer.Replies.{rpc_invoke_tool-Answers}
use credbroker.Grpc.Servicer.Expected.{expect_denied, expect_status}
use credbroker.Invoke.Outcome.{InvokeOutcome, Reason}
use credbroker.Invoke.Revocation.{revoke_grant-Denies}
use credbroker.Models.{Grant, Status, find}
use credbroker.World.{World, Outside, emit}
use credbroker.World.Returns.{opened}
use credbroker.World.Alone.{in_session-db, Alone, await_alone}

module _ (o : Outside) (alone : Alone o) where
  open o.redis use {Store}

  abort-db :
      (A : Type 0) (code : StatusCode) (details : Text) (w : World Store)
      → (abort o {A = A} code details w).1.db ≡ w.db
  unfolding abort ◌>>=◌
  abort-db A code details w = rw (await_alone o alone) refl

  unhandled-db :
      {A : Type 0} (r : Result (Reply A)) (w : World Store) → (unhandled o r w).1.db ≡ w.db
  unfolding unhandled ◌>>=◌
  unhandled-db (ok reply) w = refl
  unhandled-db (err x) w = abort-db _ _ _ w

  module _ (servicer : CredBrokerServicer) where
    revoke_reply-db :
        (r : Result Grant) (w : World Store) → (revoke_reply o servicer r w).1.db ≡ w.db
    unfolding revoke_reply ◌>>=◌ emit
    revoke_reply-db (ok grant) w = refl
    revoke_reply-db (err (broker grant_not_found m)) w = abort-db _ _ m w
    revoke_reply-db (err x) w = refl

    rpc_revoke_grant-db :
        (request : RevokeRequest) (id : ℕ) (w : World Store)
        → o.uuid_parse request.grant_id ≡ some id
        → (rpc_revoke_grant o servicer request w).1.db
          ≡ (revoke_grant o servicer.grant_cache id (opened w)).1.db
    unfolding rpc_revoke_grant rpc_error_guard attempt parse_uuid with_uuid
    rpc_revoke_grant-db request id w e = rw e (
        unhandled-db _ _
        ∙ revoke_reply-db _ _
        ∙ in_session-db o alone (revoke_grant o servicer.grant_cache id) w)

    -- What is answered to an outcome that is no success.
    abbrev Refused : Reply InvokeResponse → Type 0
    Refused reply = (code : StatusCode) × (details : Text) × (reply ≡ aborted code details)

    expect_denied-Refused :
        (reason : Option Reason) (details : Text) → Refused (expect_denied o reason details)
    expect_denied-Refused (some Reason.rate_limited) details =
        (StatusCode.resource_exhausted, details, refl)
    expect_denied-Refused reason details = (StatusCode.permission_denied, details, refl)

    expect_status-Refused :
        (outcome : InvokeOutcome) (status : Status)
        → status ≢ Status.success
        → Refused (expect_status o outcome status)
    expect_status-Refused outcome Status.success n = absurd (n refl)
    expect_status-Refused outcome Status.failed n = (StatusCode.unavailable, _, refl)
    expect_status-Refused outcome Status.denied n = expect_denied-Refused outcome.denied_reason _

    -- Where nothing disturbs the two calls: after `RevokeGrant` for the grant of a token, `InvokeTool`
    -- with the token is aborted, whatever tool and arguments it names, at any later time and whatever
    -- has become of Redis - all that must remain of the revocation is the tables that it left.
    pub rpc_revoke_grant-Refuses :
        (revocation : RevokeRequest) (request : InvokeRequest) (g : Grant) (w u : World Store)
        → o.uuid_parse revocation.grant_id ≡ some g.id
        → find (by_id g.id) w.db.grants ≡ some g
        → find (by_hash (hash_token o request.grant_token)) w.db.grants ≡ some g
        → g.revoked_at ≡ none
        → u.db ≡ (rpc_revoke_grant o servicer revocation w).1.db
        → (code : StatusCode) × (details : Text) × ((rpc_invoke_tool o servicer request u).0
            ≡ ok (aborted code details))
    rpc_revoke_grant-Refuses revocation request g w u parsed by_key by_token active same =
        let (outcome, e, answer) = rpc_invoke_tool-Answers o alone.no_fault servicer request u in
        let denies =
          revoke_grant-Denies o alone servicer.invoke_service servicer.grant_cache
            request.grant_token request.tool_name request.arguments
            (or_none request.idempotency_key) g (opened w) u outcome (λ db. refl) by_key by_token
            active (same ∙ rpc_revoke_grant-db revocation g.id w parsed) e in
        let (code, details, refused) = expect_status-Refused outcome outcome.status denies in
        (code, details, answer ∙ ap ok refused)
