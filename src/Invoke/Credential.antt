-- ===== src/Invoke/Credential.antt =====
-- `_refresh_credential`, `_refresh_or_outcome`, `_can_refresh` and `_is_revoked_now` of
-- credbroker/invoke/service.py.
pub mod Trace
use credbroker.Common.{
  ℕ, ◌+◌, ◌*◌, Text, Bool, true, false, ◌&&◌, Option, none, some, ◌++◌, codes, ◌==◌, is_some,
  text_eq, if◌then◌else◌,
}
use mathlib.Core.Option
use credbroker.Cache.GrantCache.{is_revoked}
use credbroker.Config.{Settings}
use credbroker.Crypto.{decrypt, to_thread, encrypt_now}
use credbroker.Errors.{
  Exn, broker, timeout, transport, http_error, client_error, value_error, other, oauth_flow,
  message,
}
use credbroker.Exec.{Result, ok, err, pure, raise, gets, modify, attempt, ◌>>=◌, ◌>>◌}
use credbroker.Invoke.Outcome.{InvokeOutcome, InvokeService, failed}
use credbroker.Models.{ConnectedAccount, Grant, Database, find, update_where}
use credbroker.OAuth.Google.{TokenResponse, refresh_access_token}
use credbroker.Redis.{second}
use credbroker.World.{
  Outside, M, await, emit, draw, utcnow, query, assign, commit, decrypted, rechecked,
}

-- `_can_refresh`
unfoldable pub can_refresh : ConnectedAccount → Bool
can_refresh account =
    is_some account.encrypted_refresh_token && text_eq account.provider (codes "google")

-- What `_refresh_or_outcome` returns: a new access token, or the outcome of the whole call.
pub data Refresh : Type 0 where
  token : Text → Refresh
  ended : InvokeOutcome → Refresh

module _ (o : Outside) where
  -- An assignment to a field of the loaded account, which the next commit writes to its row.
  change_account : ℕ → (ConnectedAccount → ConnectedAccount) → M o (Unit {0})
  change_account id f = assign o λ db. record db {
    accounts = update_where (λ (a : ConnectedAccount). a.id == id) f db.accounts;
  }

  unfoldable pub decrypt_now : Text → M o Text
  decrypt_now blob = do emit o decrypted; to_thread o (decrypt o o.key_manager blob)

  -- The refresh token is only decrypted where `can_refresh` holds, so it is there.
  stored_refresh_token : Option Text → M o Text
  stored_refresh_token none = raise (other (codes "NoneType has no len()"))
  stored_refresh_token (some blob) = decrypt_now blob

  rotate_refresh_token : ℕ → Option Text → M o (Unit {0})
  unfolding change_account
  rotate_refresh_token id none = pure tt
  rotate_refresh_token id (some rotated) = do
    blob ← encrypt_now o rotated
    change_account id λ a. record a { encrypted_refresh_token = some blob }

  -- `_refresh_credential`
  unfoldable pub refresh_credential : Settings → ConnectedAccount → M o Text
  unfolding stored_refresh_token rotate_refresh_token change_account decrypt_now
  refresh_credential settings account = do
    refresh_token ← stored_refresh_token account.encrypted_refresh_token
    answer ← refresh_access_token o settings refresh_token
    access ← encrypt_now o answer.access_token
    change_account account.id λ a. record a { encrypted_access_token = access }
    rotate_refresh_token account.id answer.refresh_token
    now ← utcnow o
    change_account account.id λ a. record a {
      expires_at = Option.map (λ lifetime. now + lifetime * second) answer.expires_in;
    }
    commit o
    pure answer.access_token

  end_with : Text → ℕ → M o Refresh
  end_with error start = do outcome ← failed o error start; pure (ended outcome)

  -- The `except` clauses; `httpx.HTTPError` is the base of the timeouts and transport errors.
  refresh_or_ended : ℕ → Result Text → M o Refresh
  unfolding end_with
  refresh_or_ended start (ok access) = pure (token access)
  refresh_or_ended start (err (broker oauth_flow m)) =
      end_with (codes "credential refresh failed: " ++ m) start
  refresh_or_ended start (err (timeout m)) =
      end_with (codes "credential refresh failed: could not reach the token endpoint") start
  refresh_or_ended start (err (transport m)) =
      end_with (codes "credential refresh failed: could not reach the token endpoint") start
  refresh_or_ended start (err (http_error m)) =
      end_with (codes "credential refresh failed: could not reach the token endpoint") start
  refresh_or_ended start (err (client_error m)) =
      end_with (codes "stored credential could not be decrypted") start
  refresh_or_ended start (err (value_error m)) =
      end_with (codes "stored credential could not be decrypted") start
  refresh_or_ended start (err e) = raise e

  -- `_refresh_or_outcome`
  unfoldable pub refresh_or_outcome : Settings → ConnectedAccount → ℕ → M o Refresh
  unfolding refresh_or_ended
  refresh_or_outcome settings account start =
      attempt (refresh_credential settings account) (refresh_or_ended start)

  -- The live column; a row that is gone counts as revoked.
  row_revoked : ℕ → M o Bool
  row_revoked grant_id = do
    row ← query o λ db. find (λ (g : Grant). g.id == grant_id) db.grants
    pure (elim row [ none ↦ true | some g ↦ is_some g.revoked_at ])

  cache_revoked : Bool → Text → M o Bool
  cache_revoked false token_hash = pure false
  cache_revoked true token_hash = is_revoked o token_hash

  -- The check itself, which the cache answers first.
  ask_revoked : InvokeService → Grant → Text → M o Bool
  ask_revoked service grant token_hash = do
    hit ← cache_revoked service.grant_cache token_hash
    if hit then pure true else row_revoked grant.id

  -- The answer is an event.
  announce : M o Bool → M o Bool
  announce check = do answer ← check; emit o (rechecked answer); pure answer

  -- `_is_revoked_now`
  unfoldable pub is_revoked_now : InvokeService → Grant → Text → M o Bool
  unfolding row_revoked cache_revoked ask_revoked announce
  is_revoked_now service grant token_hash = announce (ask_revoked service grant token_hash)
