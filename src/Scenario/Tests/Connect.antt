-- ===== src/Scenario/Tests/Connect.antt =====
-- The theorems at concrete inputs: connecting an account.
use credbroker.Common.{
  ◌∙◌, ◌≡◌, refl, Text, none, some, [], codes, decimal, text_eq, has, ap, arith,
}
use credbroker.Crypto.{encrypt}
use credbroker.Crypto.RoundTrip.{CipherLaws}
use credbroker.Exec.{ok, ◌>>=◌, attempt, lift, pure, raise_if}
use credbroker.Json.{str, obj, end, field, lookup}
use credbroker.OAuth.State.{signed_state, make_state, verify_state}
use credbroker.OAuth.State.RoundTrip.{StateLaws, verify_state-make_state}
use credbroker.Tools.{send}
use credbroker.Crypto.{on_registry, to_thread, encrypt_now}
use credbroker.Logging.{register, register_secret}
use credbroker.World.{await, draw, utcnow, in_session, assign, commit, emit}
use credbroker.Http.{answered, http_exception}
use credbroker.OAuth.Google.{TokenResponse, parse_token_response, exchange_code}
use credbroker.OAuth.Router.{
  store_account, encrypt_refresh, finish_account, Connected, google_provider, authorize, callback,
}
use credbroker.OAuth.Router.Callback.{Stored, callback-Stored, callback-Refused}
use credbroker.OAuth.Router.Flow.{
  UuidLaws, UrlLaws, Redirects, Supplies, Completed, callback_stores, authorize-callback,
}
use credbroker.Scenario.{calm, test_settings, fixed_keys, start_world, replicate, length-replicate}
use credbroker.Scenario.Codec.{read_query, read_query-write_query}
use credbroker.Scenario.MapRedis.{Keys}
use credbroker.Scenario.Tests.{calm-Alone}
use credbroker.Scenario.Tests.Parts.{calm-CipherLaws, fixed_keys-WrapLaws, calm-StateLaws}
use credbroker.Scenario.Tests.Operator.{calm-UuidLaws}
use credbroker.World.{Outside, World}
use credbroker.World.Alone.{Alone}

-- The broker, with a Google that hands out a token for any code.
abbrev connecting : Outside
connecting = record calm {
  http = λ n request. ok (record {
    status_code = 200;
    json = some (obj (field (codes "access_token") (str (codes "google-token")) end));
  });
}

connecting-Alone : Alone connecting
connecting-Alone = record { no_others = calm-Alone.no_others; no_fault = calm-Alone.no_fault }

connecting-CipherLaws : CipherLaws connecting
connecting-CipherLaws = record {
  open_lem = calm-CipherLaws.open_lem;
  length_lem = calm-CipherLaws.length_lem;
  urandom_lem = calm-CipherLaws.urandom_lem;
  utf8_lem = calm-CipherLaws.utf8_lem;
}

connecting-StateLaws : StateLaws connecting
connecting-StateLaws = record {
  base64_lem = calm-StateLaws.base64_lem;
  int_lem = calm-StateLaws.int_lem;
  nonce_lem = calm-StateLaws.nonce_lem;
  digest_lem = calm-StateLaws.digest_lem;
}

connecting-UuidLaws : UuidLaws connecting
connecting-UuidLaws = record {
  parse_lem = calm-UuidLaws.parse_lem;
  plain_lem = calm-UuidLaws.plain_lem;
}

fixed_keys-Supplies : Supplies fixed_keys
fixed_keys-Supplies = record {
  data_key = replicate 32;
  wrapped = replicate 32;
  generate_lem = λ r. refl;
  fits = λ r. omega (arith, length-replicate 32 r);
}

abbrev google_token : TokenResponse
google_token = record {
  access_token = codes "google-token";
  refresh_token = none;
  expires_in = none;
  scopes = [];
}

-- The world when the user comes back, after a hundred seconds.
abbrev returning_world : World Keys
returning_world = record start_world { shared = record start_world.shared { now = 1_100_000_000 } }

redeems :
    (exchange_code connecting test_settings (codes "code") returning_world).0 ≡ ok google_token
unfolding exchange_code ◌>>=◌ send raise_if lift lookup await parse_token_response text_eq
    register_secret
redeems = refl

connecting-UrlLaws : UrlLaws connecting
connecting-UrlLaws = record { parse_qsl = read_query; parse_lem = read_query-write_query }

authorize-callback_example :
    (state : Text) × (url : Text) × ((authorize connecting test_settings google_provider 7
        start_world).0
      ≡ ok (answered url))
    × Redirects connecting connecting-Alone fixed_keys-Supplies connecting-StateLaws
        connecting-UuidLaws test_settings connecting-UrlLaws url state
    × Completed connecting connecting-Alone fixed_keys-Supplies connecting-StateLaws
        connecting-UuidLaws test_settings 7
        (codes "code")
        state
        google_token
        returning_world
authorize-callback_example =
    authorize-callback connecting connecting-Alone fixed_keys-Supplies connecting-StateLaws
      connecting-UuidLaws test_settings connecting-UrlLaws 7 (codes "code") google_token start_world
      returning_world (omega arith) redeems

abbrev signed : Text
signed = signed_state connecting test_settings (decimal 7) (decimal 1600) (decimal 1000)

abbrev connected_account : Connected
connected_account = record {
  connected_account_id = decimal 1002;
  provider = google_provider;
  scopes = [];
}

mints : (make_state connecting test_settings (decimal 7) start_world).0 ≡ ok signed
unfolding make_state has ◌>>=◌ draw utcnow decimal
mints = refl

verified : verify_state connecting test_settings 1_100_000_000 signed ≡ ok (decimal 7)
verified =
    verify_state-make_state connecting connecting-StateLaws test_settings (decimal 7) signed
      start_world 1_100_000_000 mints

stores :
    (store_account connecting 7 google_token
      (exchange_code connecting test_settings (codes "code") returning_world).1).0
    ≡ ok (answered connected_account)
unfolding store_account ◌>>=◌ encrypt_now on_registry to_thread encrypt encrypt_refresh in_session
    attempt await draw utcnow assign commit emit pure lift register exchange_code send
    parse_token_response lookup text_eq register_secret finish_account
stores = refl

connects :
    (callback connecting test_settings google_provider
      (some (codes "code"))
      (some signed)
      none
      returning_world).0
    ≡ ok (answered connected_account)
connects =
    ap (λ r. r.0)
      (callback_stores connecting connecting-Alone fixed_keys-Supplies connecting-StateLaws
        connecting-UuidLaws test_settings 7 (codes "code") signed google_token returning_world
        verified redeems)
    ∙ stores

callback-Stored_example :
    Stored connecting connecting-Alone test_settings
      (some (codes "code"))
      (some signed)
      returning_world
      connected_account
      (callback connecting test_settings google_provider
        (some (codes "code"))
        (some signed)
        none
        returning_world).1.db
callback-Stored_example =
    callback-Stored connecting connecting-Alone connecting-CipherLaws fixed_keys-WrapLaws
      test_settings google_provider (some (codes "code")) (some signed) none returning_world
      connected_account connects

-- The user declines at the consent screen.
declines :
    (callback calm test_settings google_provider none
      (some signed)
      (some (codes "access_denied"))
      start_world).0
    ≡ ok (http_exception 400 (codes "provider reported: access_denied"))
unfolding callback text_eq pure
declines = refl

callback-Refused_example :
    (callback calm test_settings google_provider none
      (some signed)
      (some (codes "access_denied"))
      start_world).1.db
    ≡ start_world.db
callback-Refused_example =
    callback-Refused calm calm-Alone test_settings 400 (codes "provider reported: access_denied")
      google_provider none (some signed) (some (codes "access_denied")) start_world declines
