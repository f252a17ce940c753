-- ===== src/Invoke/Service/Returns.antt =====
-- `invoke` raises nothing of its own: where no await fails, it returns an outcome.
use credbroker.Common.{ℕ, Text, Bool, true, false, Option, none, some, ◌≡◌}
use credbroker.Cache.GrantCache.{is_revoked}
use credbroker.Exec.{Result, ok, err, ◌>>=◌}
use credbroker.Exec.Returns.{Returns, Returns-attempt}
use credbroker.Grants.Tokens.{verify_grant_token, decoded_claims, read_claims}
use credbroker.Invoke.Audit.{record_call}
use credbroker.Invoke.Outcome.{InvokeOutcome, InvokeService, Reason, denied, failed}
use credbroker.Invoke.Service.{
  backstop, fast_check, audited_call, resolved, looked_up, verified, invoke,
}
use credbroker.Json.{Fields}
use credbroker.Models.{Status, Grant}
use credbroker.World.{World, Outside, Decoded, expired_signature, rejected, accepted}
use credbroker.World.Returns.{returning}

module _ (o : Outside) (service : InvokeService) (no_fault : (n : ℕ) → o.fault n ≡ none) where
  open o.redis use {Store}

  Returns-denied :
      (error : Text) (reason : Reason) (start : ℕ) → Returns (denied o error reason start)
  unfolding denied
  Returns-denied error reason start = search returning

  Returns-failed : (error : Text) (start : ℕ) → Returns (failed o error start)
  unfolding failed
  Returns-failed error start = search returning

  Returns-backstop : (start : ℕ) (r : Result InvokeOutcome) → Returns (backstop o service start r)
  unfolding backstop
  Returns-backstop start (ok outcome) = search returning
  Returns-backstop start (err e) = search (returning, Returns-failed)

  Returns-fast_check : (b : Bool) (h : Text) → Returns (fast_check o service b h)
  unfolding fast_check is_revoked
  Returns-fast_check false h = search returning
  Returns-fast_check true h = search returning

  Returns-record_call :
      (id : ℕ) (tool_name : Text) (arguments : Fields) (status : Status) (ms : ℕ)
      → Returns (record_call o id tool_name arguments status ms)
  unfolding record_call
  Returns-record_call id tool_name arguments status ms = search returning depth 10

  Returns-audited_call :
      (g : Grant) (h tool_name : Text) (arguments : Fields) (key : Option Text) (fast : Bool)
      (start : ℕ)
      → Returns (audited_call o service g h tool_name arguments key fast start)
  unfolding audited_call
  Returns-audited_call g h tool_name arguments key fast start =
      search (returning, Returns-attempt, Returns-backstop, Returns-record_call) depth 8

  Returns-resolved :
      (h tool_name : Text) (arguments : Fields) (key : Option Text) (fast : Bool) (start : ℕ)
      (g : Option Grant)
      → Returns (resolved o service h tool_name arguments key fast start g)
  unfolding resolved
  Returns-resolved h tool_name arguments key fast start none = search Returns-denied
  Returns-resolved h tool_name arguments key fast start (some g) = search Returns-audited_call

  Returns-looked_up :
      (token tool_name : Text) (arguments : Fields) (key : Option Text) (start : ℕ)
      → Returns (looked_up o service token tool_name arguments key start)
  unfolding looked_up
  Returns-looked_up token tool_name arguments key start =
      search (returning, Returns-fast_check, Returns-resolved) depth 10

  -- The two ways in which verification fails are both handled.
  Returns-claims :
      (token tool_name : Text) (arguments : Fields) (key : Option Text) (start : ℕ) (g a : Option ℕ)
      (t s : Option Text)
      → Returns (verified o service token tool_name arguments key start (read_claims o g a t s))
  unfolding verified read_claims
  Returns-claims token tool_name arguments key start (some g) (some a) (some t) (some s) =
      search (returning, Returns-denied, Returns-looked_up)
  Returns-claims token tool_name arguments key start _ _ _ _ = search Returns-denied

  Returns-verified :
      (token tool_name : Text) (arguments : Fields) (key : Option Text) (start : ℕ) (d : Decoded)
      → Returns (verified o service token tool_name arguments key start (decoded_claims o d))
  unfolding verified decoded_claims
  Returns-verified token tool_name arguments key start expired_signature = search Returns-denied
  Returns-verified token tool_name arguments key start rejected = search Returns-denied
  Returns-verified token tool_name arguments key start (accepted p) = search Returns-claims

  -- Where no await fails - whatever other tasks do, whatever providers answer, and whatever the token,
  -- the tool, the arguments and the stored data are - an invocation returns an outcome.
  pub invoke-Returns :
      (token tool_name : Text) (arguments : Fields) (key : Option Text) (w : World Store)
      → (outcome : InvokeOutcome) × ((invoke o service token tool_name arguments key w).0
          ≡ ok outcome)
  unfolding invoke verify_grant_token ◌>>=◌
  invoke-Returns token tool_name arguments key w =
      (Returns-verified token tool_name arguments key w.monotonic (
          o.jwt_decode token service.settings.jwt_public_key_pem service.settings.jwt_issuer
            w.now)).from
        w
