-- ===== src/Grants/Tokens/RoundTrip.antt =====
-- Verifying a signed grant token gives back what was signed.
use credbroker.Common.{
  ℕ, ◌/◌, ◌<◌, ◌≡◌, refl, Text, some, ltb, if◌then◌else◌, Bool-cases, inl, inr, ◌≤◌, arith,
}
use credbroker.Config.{Settings}
use credbroker.Exec.{ok, err}
use credbroker.Grants.Tokens.{
  grant_payload, sign_grant_token, verify_grant_token, expired_token, invalid_token,
}
use credbroker.Redis.{second}
use mathlib.Core.Option.{bind}
use credbroker.World.{Outside, Payload, expired_signature, rejected, accepted}

-- A payload with every claim that the verification requires, from the issuer of the settings.
abbrev pub Complete : Settings → Payload → Text → Text → ℕ → ℕ → Type 0
Complete settings p sub jti iat exp =
    (p.iss ≡ some settings.jwt_issuer)
    × (p.sub ≡ some sub)
    × (p.jti ≡ some jti)
    × (p.iat ≡ some iat)
    × (p.exp ≡ some exp)

-- What PyJWT and `uuid` are documented to do, for a token signed for an issuer with all the required
-- claims: it is rejected as immature before the second in which it was issued, accepted with its
-- claims from then until it expires, and rejected as expired from then on; a UUID's text denotes it.
pub record TokenLaws (o : Outside) (settings : Settings) : Type 0 where
  pub accepted_lem :
      (p : Payload) (sub jti : Text) (iat exp now : ℕ)
      → Complete settings p sub jti iat exp
      → iat ≤ now / second
      → now / second < exp
      → o.jwt_decode
          (o.jwt_encode p settings.jwt_private_key_pem)
          settings.jwt_public_key_pem
          settings.jwt_issuer
          now
        ≡ accepted p
  pub expired_lem :
      (p : Payload) (sub jti : Text) (iat exp now : ℕ)
      → Complete settings p sub jti iat exp
      → iat ≤ now / second
      → exp ≤ now / second
      → o.jwt_decode
          (o.jwt_encode p settings.jwt_private_key_pem)
          settings.jwt_public_key_pem
          settings.jwt_issuer
          now
        ≡ expired_signature
  pub immature_lem :
      (p : Payload) (sub jti : Text) (iat exp now : ℕ)
      → Complete settings p sub jti iat exp
      → now / second < iat
      → o.jwt_decode
          (o.jwt_encode p settings.jwt_private_key_pem)
          settings.jwt_public_key_pem
          settings.jwt_issuer
          now
        ≡ rejected
  pub uuid_lem : (n : ℕ) → o.uuid_parse (o.uuid_str n) ≡ some n

-- A grant token verifies, from the second in which it was issued until the second in which the grant
-- expires, as the claims that it was signed with; before, it is refused as invalid, and from the
-- second of the expiry on, as expired.
pub verify-sign :
    (o : Outside) (settings : Settings) (grant_id agent_id : ℕ) (tool_name scope : Text)
    (issued_at expires_at now : ℕ)
    → TokenLaws o settings
    → verify_grant_token o
        (sign_grant_token o settings grant_id agent_id tool_name scope issued_at expires_at)
        settings
        now
      ≡ (if ltb (now / second) (issued_at / second)
          then err invalid_token
          else if ltb (now / second) (expires_at / second)
          then ok (record {
            grant_id = grant_id;
            agent_id = agent_id;
            tool_name = tool_name;
            scope = scope;
          })
          else err expired_token)
unfolding verify_grant_token sign_grant_token bind
verify-sign o settings grant_id agent_id tool_name scope issued_at expires_at now laws =
    let p = grant_payload o settings grant_id agent_id tool_name scope issued_at expires_at in
    let sub = o.uuid_str agent_id in
    let jti = o.uuid_str grant_id in
    let iat = issued_at / second in
    let exp = expires_at / second in
    let all : Complete settings p sub jti iat exp = (refl, refl, refl, refl, refl) in
    elim (Bool-cases (ltb (now / second) iat)) [
      | inl early ↦ rw (laws.immature_lem p sub jti iat exp now all (ground arith), early) refl
      | inr begun ↦ elim (Bool-cases (ltb (now / second) exp)) [
        | inl alive ↦
            rw
              (
                laws.accepted_lem p sub jti iat exp now all (ground arith) (ground arith),
                laws.uuid_lem grant_id,
                laws.uuid_lem agent_id,
                begun,
                alive,
              )
              refl
        | inr over ↦
            rw
              (
                laws.expired_lem p sub jti iat exp now all (ground arith) (ground arith),
                begun,
                over,
              )
              refl
      ]
    ]
