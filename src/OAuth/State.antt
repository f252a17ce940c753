-- ===== src/OAuth/State.antt =====
-- credbroker/oauth/state.py: the signed state parameter of the connect flow.
pub mod RoundTrip
use credbroker.Common.{
  ℕ, ◌+◌, ◌*◌, ◌/◌, Text, Bool, true, not, Option, none, some, List, [], ◌∷◌, ◌++◌, codes, decimal,
  decimal_value, is_negative, ◌||◌, has, split, text_eq, ltb, if◌then◌else◌,
}
use credbroker.Config.{Settings}
use credbroker.Errors.{Exn, broker, value_error, oauth_flow}
use credbroker.Exec.{Result, ok, err, pure, lift, raise_if, ◌>>=◌, ◌>>◌}
use credbroker.Redis.{second}
use credbroker.World.{Outside, M, draw, utcnow}

-- the character "|"
abbrev pub bar : ℕ
bar = 124

abbrev pub malformed : Exn
malformed = broker oauth_flow (codes "malformed oauth state")

abbrev pub mismatched : Exn
mismatched = broker oauth_flow (codes "oauth state signature mismatch")

abbrev pub expired_state : Exn
expired_state = broker oauth_flow (codes "oauth state expired")

module _ (o : Outside) where
  -- `_sign`
  abbrev pub sign : Text → Text → Text
  sign = o.hmac_sha256

  -- `f"{user_id}|{expiry}|{nonce}"`
  abbrev pub state_payload : Text → Text → Text → Text
  state_payload user_id expiry nonce = user_id ++ bar ∷ (expiry ++ bar ∷ nonce)

  -- The text that is encoded, its signature last.
  abbrev pub signed_state : Settings → Text → Text → Text → Text
  signed_state settings user_id expiry nonce =
      user_id
      ++ bar
        ∷ (expiry
            ++ bar
              ∷ (nonce
                  ++ bar ∷ sign settings.oauth_state_secret (state_payload user_id expiry nonce)))

  -- `make_state`
  unfoldable pub make_state : Settings → Text → M o Text
  make_state settings user_id = do
    raise_if (has bar user_id) (value_error (codes "user_id must not contain '|'"))
    now ← utcnow o
    r ← draw o
    let expiry = decimal (now / second + settings.oauth_state_ttl_seconds)
    pure (o.base64_encode (signed_state settings user_id expiry (o.token_hex r)))

  -- From the expiry on: `int` of it, and the clock, which is past any negative number.
  check_expiry : ℕ → Text → Option Text → Result Text
  check_expiry now user_id none = err malformed
  check_expiry now user_id (some digits) =
      if is_negative digits || ltb (decimal_value digits * second) now
      then err expired_state
      else ok user_id

  -- The four parts; any other number of them is malformed.
  check_parts : Settings → ℕ → List Text → Result Text
  unfolding check_expiry
  check_parts settings now (user_id ∷ expiry ∷ nonce ∷ signature ∷ []) =
      if not
        (text_eq signature (sign settings.oauth_state_secret (state_payload user_id expiry nonce)))
      then err mismatched
      else check_expiry now user_id (o.int_text expiry)
  check_parts settings now _ = err malformed

  check_decoded : Settings → ℕ → Option Text → Result Text
  unfolding check_parts
  check_decoded settings now none = err malformed
  check_decoded settings now (some text) = check_parts settings now (split bar text)

  -- `verify_state`, at a time
  unfoldable pub verify_state : Settings → ℕ → Text → Result Text
  unfolding check_decoded
  verify_state settings now state = check_decoded settings now (o.base64_decode state)
