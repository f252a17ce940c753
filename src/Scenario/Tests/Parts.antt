-- ===== src/Scenario/Tests/Parts.antt =====
-- The theorems at concrete inputs: Redis, the cipher and the state parameter.
use credbroker.Common.{
  length, ◌+◌, ◌*◌, ◌≡◌, ◌≢◌, refl, Text, true, false, none, some, List, [], ◌∷◌, ◌++◌, codes,
  decimal, text_eq, starts_with, has, has-decimal, length-append, arith,
}
use credbroker.Cache.GrantCache.{record_revoked, is_revoked}
use credbroker.Cache.GrantCache.Revocation.{record_revoked-Stays}
use credbroker.Cache.GrantCache.Calls.{
  CacheCall, issued_call, revoked_call, check_call, store_call, carry_out_all,
}
use credbroker.Crypto.{encrypt, decrypt}
use credbroker.Crypto.RoundTrip.{CipherLaws, WrapLaws, decrypt-encrypt}
use credbroker.Exec.{ok, ◌>>=◌}
use credbroker.Json.{obj, end, null}
use credbroker.Logging.{register}
use credbroker.Reliability.Idempotency.{name, get, reserve, complete, release}
use credbroker.Reliability.Idempotency.AtMostOnce.{reserve-Exclusive, complete-Replayed}
use credbroker.Reliability.Idempotency.Exclusive.{
  Call as StoreCall, get_call, reserve_call, complete_call, release_call, wait_call, perform_all,
}
use credbroker.OAuth.State.{bar, signed_state, make_state, verify_state}
use credbroker.OAuth.State.RoundTrip.{StateLaws, verify_state-make_state}
use credbroker.Scenario.{
  test_settings, calm, seal, unseal-seal, replicate, length-replicate, start_world, fixed_keys,
}
use credbroker.Scenario.Tests.{calm-Alone}
use credbroker.World.{utcnow, await, draw, redis_write, run_store}

abbrev some_calls : List StoreCall
some_calls =
    reserve_call (codes "key")
    ∷ complete_call 300 (codes "key") (obj end) (codes "7")
    ∷ release_call (codes "key") (codes "7")
    ∷ wait_call 2_000_000
    ∷ get_call (codes "key")
    ∷ []

claimed : (reserve calm (codes "key") start_world).0 ≡ ok (some (codes "1000"))
unfolding reserve ◌>>=◌ redis_write run_store await draw decimal
claimed = refl

not_7 : codes "7" ≢ codes "1000"
not_7 e = ground arith

reserve-Exclusive_example :
    let u = perform_all calm some_calls (reserve calm (codes "key") start_world).1 in
    ((reserve calm (codes "key") u).0 ≡ ok none)
    × (calm.redis.view
          (complete calm 300 (codes "key") (obj end) (some (codes "1000")) u).1.store
          (name (codes "key"))
        ≡ some (record { value = codes "{}"; deadline = some (u.now + 300 * 1_000_000) }))
    × (calm.redis.view
          (release calm (codes "key") (some (codes "1000")) u).1.store
          (name (codes "key"))
        ≡ none)
reserve-Exclusive_example =
    reserve-Exclusive calm calm-Alone (codes "key") (codes "1000") some_calls 300 (obj end)
      start_world claimed (not_7, (not_7, tt)) (omega arith)

loads_back : calm.loads (codes "{}") ≡ some (obj end)
unfolding text_eq
loads_back = refl

not_marked : starts_with (codes "{}") (codes "__pending__") ≡ false
unfolding starts_with
not_marked = refl

obj_null : obj end ≢ null
obj_null e = ground arith

complete-Replayed_example :
    let u =
      (complete calm 300
        (codes "key")
        (obj end)
        (some (codes "1000"))
        (perform_all calm some_calls (reserve calm (codes "key") start_world).1)).1 in
    ((get calm (codes "key") (perform_all calm some_calls u)).0 ≡ ok (some (obj end)))
    × ((reserve calm (codes "key") (perform_all calm some_calls u)).0 ≡ ok none)
complete-Replayed_example =
    complete-Replayed calm calm-Alone (codes "key") (codes "1000") 300 (obj end) some_calls
      some_calls start_world loads_back obj_null not_marked claimed (not_7, (not_7, tt))
      (omega arith) (omega arith)

abbrev cache_calls : List CacheCall
cache_calls =
    issued_call (codes "hash") 300
    ∷ check_call (codes "invoke:1") 60
    ∷ CacheCall.wait_call 599_000_000
    ∷ store_call (reserve_call (codes "hash"))
    ∷ revoked_call (codes "other")
    ∷ []

record_revoked-Stays_example :
    (is_revoked calm
      (codes "hash")
      (carry_out_all calm cache_calls (record_revoked calm (codes "hash") start_world).1)).0
    ≡ ok true
record_revoked-Stays_example =
    record_revoked-Stays calm calm-Alone (codes "hash") cache_calls start_world (omega arith)

pub calm-CipherLaws : CipherLaws calm
calm-CipherLaws = record {
  open_lem = λ key nonce plaintext. unseal-seal key nonce plaintext;
  length_lem = λ key nonce plaintext. length-append plaintext _;
  urandom_lem = λ n r. length-replicate n r;
  utf8_lem = λ text. refl;
}

pub fixed_keys-WrapLaws : WrapLaws fixed_keys
fixed_keys-WrapLaws = record { unwrap_lem = λ r data_key wrapped e. ground (arith, e) }

abbrev sealed_secret : Text
sealed_secret =
    codes "CB1"
    ++ (0 ∷ 32 ∷ (replicate 32 5 ++ (replicate 12 6 ++ seal [] [] (codes "refresh-token"))))

encrypted : (encrypt calm fixed_keys 5 6 (codes "refresh-token") []).0 ≡ ok sealed_secret
unfolding encrypt ◌>>=◌ register
encrypted = refl

decrypt-encrypt_example :
    decrypt calm fixed_keys sealed_secret []
    ≡ (ok (codes "refresh-token"), register (some (codes "refresh-token")) [])
decrypt-encrypt_example =
    decrypt-encrypt calm calm-CipherLaws fixed_keys 5 6 (codes "refresh-token") sealed_secret [] []
      fixed_keys-WrapLaws encrypted

pub calm-StateLaws : StateLaws calm
calm-StateLaws = record {
  base64_lem = λ t. refl;
  int_lem = λ n. refl;
  nonce_lem = λ r. has-decimal bar r (omega arith);
  digest_lem = λ key t. has-decimal bar (length t) (omega arith);
}

abbrev minted_state : Text
minted_state = signed_state calm test_settings (codes "user") (decimal 1600) (decimal 1000)

minted : (make_state calm test_settings (codes "user") start_world).0 ≡ ok minted_state
unfolding make_state has ◌>>=◌ draw utcnow
minted = refl

verify_state-make_state_example :
    verify_state calm test_settings 1_000_000_000 minted_state ≡ ok (codes "user")
verify_state-make_state_example =
    verify_state-make_state calm calm-StateLaws test_settings (codes "user") minted_state
      start_world 1_000_000_000 minted
