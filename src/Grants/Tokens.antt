-- ===== src/Grants/Tokens.antt =====
-- credbroker/grants/tokens.py. Signing and verifying are PyJWT's.
pub mod RoundTrip
use credbroker.Common.{ℕ, ◌/◌, Text, Option, none, some, codes}
use credbroker.Config.{Settings}
use credbroker.Errors.{Exn, broker, grant_expired, grant_token_invalid}
use credbroker.Exec.{Result, ok, err}
use credbroker.Redis.{second}
use credbroker.World.{Outside, Payload, Decoded, expired_signature, rejected, accepted}
use mathlib.Core.Option

pub record GrantClaims : Type 0 where
  pub grant_id : ℕ
  pub agent_id : ℕ
  pub tool_name : Text
  pub scope : Text

abbrev pub invalid_token : Exn
invalid_token = broker grant_token_invalid (codes "grant token is invalid")

abbrev pub malformed_claims : Exn
malformed_claims = broker grant_token_invalid (codes "grant token claims are malformed")

abbrev pub expired_token : Exn
expired_token = broker grant_expired (codes "grant token has expired")

module _ (o : Outside) where
  -- `hash_token`
  abbrev pub hash_token : Text → Text
  hash_token = o.sha256

  abbrev pub grant_payload : Settings → ℕ → ℕ → Text → Text → ℕ → ℕ → Payload
  grant_payload settings grant_id agent_id tool_name scope issued_at expires_at = record {
    iss = some settings.jwt_issuer;
    sub = some (o.uuid_str agent_id);
    jti = some (o.uuid_str grant_id);
    tool = some tool_name;
    scope = some scope;
    iat = some (issued_at / second);
    exp = some (expires_at / second);
  }

  -- `sign_grant_token`
  unfoldable pub sign_grant_token : Settings → ℕ → ℕ → Text → Text → ℕ → ℕ → Text
  sign_grant_token settings grant_id agent_id tool_name scope issued_at expires_at =
      o.jwt_encode (grant_payload settings grant_id agent_id tool_name scope issued_at expires_at)
        settings.jwt_private_key_pem

  -- The claims of a payload; a missing claim is a `KeyError`, a bad UUID a `ValueError`.
  unfoldable pub read_claims : Option ℕ → Option ℕ → Option Text → Option Text → Result GrantClaims
  read_claims (some g) (some a) (some t) (some s) =
      ok (record { grant_id = g; agent_id = a; tool_name = t; scope = s })
  read_claims _ _ _ _ = err malformed_claims

  unfoldable pub decoded_claims : Decoded → Result GrantClaims
  unfolding read_claims
  decoded_claims expired_signature = err expired_token
  decoded_claims rejected = err invalid_token
  decoded_claims (accepted p) =
      read_claims (Option.bind p.jti o.uuid_parse) (Option.bind p.sub o.uuid_parse) p.tool p.scope

  -- `verify_grant_token`, at a time
  unfoldable pub verify_grant_token : Text → Settings → ℕ → Result GrantClaims
  unfolding decoded_claims
  verify_grant_token token settings now =
      decoded_claims (o.jwt_decode token settings.jwt_public_key_pem settings.jwt_issuer now)
