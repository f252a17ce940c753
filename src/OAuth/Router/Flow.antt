-- ===== src/OAuth/Router/Flow.antt =====
-- The connect flow from end to end: a state of the `authorize` route at the `callback` route.
use credbroker.Common.{
  List, [], ◌∷◌, ◌++◌, codes, if◌then◌else◌, ℕ, ◌+◌, ◌*◌, ◌/◌, ◌≤◌, ◌≡◌, refl, ap, ◌∙◌, Text, false,
  Option, none, some, length, has, text_eq, text_eq_refl, true, decimal, ltb, arith,
}
use credbroker.Config.{Settings}
use credbroker.Crypto.{on_registry, to_thread, encrypt, encrypt_now, nonce_size}
use credbroker.Crypto.RoundTrip.{packed}
use credbroker.Exec.{ok, attempt, ◌>>=◌}
use credbroker.Http.{answered, answered-inj}
use credbroker.Models.{ConnectedAccount}
use credbroker.OAuth.Google.{TokenResponse, authorize_params, build_authorize_url, exchange_code}
use credbroker.OAuth.Router.{
  Connected, google_provider, insert_account, new_account, encrypt_refresh, store_account,
  require_google, authorize, uuid_of, exchanged, connected, with_parameters, callback,
}
use credbroker.OAuth.Router.Stored.{
  store_account-Added, finish_account-Finished, Keeps-exchange_code,
}
use credbroker.OAuth.State.{bar, signed_state, make_state, verify_state}
use credbroker.OAuth.State.RoundTrip.{StateLaws, verify_state-make_state}
use credbroker.Redis.{second}
use credbroker.World.{World, Outside, KeyManager, draw, utcnow}
use credbroker.World.Alone.{Alone, await_alone}

-- What `uuid` is documented to do: the text of a UUID is read back, and has no "|".
pub record UuidLaws (o : Outside) : Type 0 where
  pub parse_lem : (id : ℕ) → o.uuid_parse (o.uuid_str id) ≡ some id
  pub plain_lem : (id : ℕ) → has bar (o.uuid_str id) ≡ false

-- What `urllib.parse` is documented to do: `parse_qsl`, with `keep_blank_values`, reads back the
-- parameters that `urlencode` wrote.
pub record UrlLaws (o : Outside) : Type 0 where
  pub parse_qsl : Text → List (Text × Text)
  pub parse_lem : (params : List (Text × Text)) → parse_qsl (o.urlencode params) ≡ params

-- The first value of a parameter.
abbrev pub param : Text → List (Text × Text) → Option Text
param name [] = none
param name ((k, v) ∷ params) = if text_eq k name then some v else param name params

-- A key manager that answers, with wrapped keys that fit the blob's two-byte length.
pub record Supplies (manager : KeyManager) : Type 0 where
  pub data_key : ℕ → Text
  pub wrapped : ℕ → Text
  pub generate_lem : (r : ℕ) → manager.generate_data_key r ≡ ok (data_key r, wrapped r)
  pub fits : (r : ℕ) → length (wrapped r) ≤ 0xFFFF

module _ (o : Outside) (alone : Alone o) (keys : Supplies o.key_manager) where
  open o.redis use {Store}

  encrypt_now-ok : (t : Text) (w : World Store) → (blob : Text) × ((encrypt_now o t w).0 ≡ ok blob)
  unfolding encrypt_now to_thread on_registry encrypt ◌>>=◌ draw
  encrypt_now-ok t w =
      let r = o.random w.drawn in
      let short : ltb 0xFFFF (length (keys.wrapped r)) ≡ false = ground (arith, keys.fits r) in
      let blob = packed o (keys.wrapped r) (o.urandom nonce_size (o.random (w.drawn + 1))) (
        o.aesgcm_encrypt (keys.data_key r) (o.urandom nonce_size (o.random (w.drawn + 1)))
          (o.utf8 t)) in
      let sent : (encrypt_now o t w).0 ≡ ok blob =
        rw (await_alone o alone, keys.generate_lem r, short) refl in
      (blob, sent)

  encrypt_refresh-ok :
      (t : Option Text) (w : World Store)
      → (blob : Option Text) × ((encrypt_refresh o t w).0 ≡ ok blob)
  unfolding encrypt_refresh ◌>>=◌
  encrypt_refresh-ok none w = (none, refl)
  encrypt_refresh-ok (some t) w = let (blob, e) = encrypt_now-ok t w in (some blob, rw e refl)

  store_account-ok :
      (user_id : ℕ) (token : TokenResponse) (w : World Store)
      → (a : Connected) × ((store_account o user_id token w).0 ≡ ok (answered a))
  unfolding store_account ◌>>=◌
  store_account-ok user_id token w =
      let (access, e) = encrypt_now-ok token.access_token w in
      let u = (encrypt_now o token.access_token w).1 in
      let (refresh, f) = encrypt_refresh-ok token.refresh_token u in
      let a : Connected = record {
        connected_account_id =
            o.uuid_str (o.random (encrypt_refresh o token.refresh_token u).1.drawn);
        provider = google_provider;
        scopes = token.scopes;
      } in
      let whole : (store_account o user_id token w).0 ≡ ok (answered a) =
        rw (e, f)
          (finish_account-Finished o alone user_id token access refresh
            (encrypt_refresh o token.refresh_token u).1).0 in
      (a, whole)

  module _ (laws : StateLaws o) (ids : UuidLaws o) (settings : Settings) where
    abbrev pub deadline : World Store → ℕ
    deadline w = (w.now / second + settings.oauth_state_ttl_seconds) * second

    minted :
        (user_id : ℕ) (w : World Store)
        → (state : Text) × ((make_state o settings (o.uuid_str user_id) w).0 ≡ ok state)
    unfolding make_state ◌>>=◌ utcnow draw
    minted user_id w =
        let state = o.base64_encode (
          signed_state o settings (o.uuid_str user_id)
            (decimal (w.now / second + settings.oauth_state_ttl_seconds))
            (o.token_hex (o.random w.drawn))) in
        let done : (make_state o settings (o.uuid_str user_id) w).0 ≡ ok state =
          rw (ids.plain_lem user_id) refl in
        (state, done)

    exchanged_from :
        (user_id : ℕ) (code state : Text) (token : TokenResponse) (u : World Store)
        → verify_state o settings u.now state ≡ ok (o.uuid_str user_id)
        → (exchange_code o settings code u).0 ≡ ok token
        → exchanged o settings code state u
          ≡ (ok (user_id, token), (exchange_code o settings code u).1)
    unfolding exchanged utcnow uuid_of ◌>>=◌
    exchanged_from user_id code state token u v c = rw (v, ids.parse_lem user_id, c) refl

    -- What the callback with a state and a code comes to.
    abbrev pub Completed : ℕ → Text → Text → TokenResponse → World Store → Type 0
    Completed user_id code state token u =
        (a : Connected) × (account : ConnectedAccount) × ((callback o settings google_provider
            (some code) (some state) none u).0
          ≡ ok (answered a))
        × ((callback o settings google_provider (some code) (some state) none u).1.db
            ≡ insert_account account u.db)
        × (account.user_id ≡ user_id)
        × (a.connected_account_id ≡ o.uuid_str account.id)

    pub callback_stores :
        (user_id : ℕ) (code state : Text) (token : TokenResponse) (u : World Store)
        → verify_state o settings u.now state ≡ ok (o.uuid_str user_id)
        → (exchange_code o settings code u).0 ≡ ok token
        → callback o settings google_provider (some code) (some state) none u
          ≡ store_account o user_id token (exchange_code o settings code u).1
    unfolding callback require_google with_parameters attempt connected
    callback_stores user_id code state token u v c =
        rw (text_eq_refl google_provider, exchanged_from user_id code state token u v c) refl

    completed :
        (user_id : ℕ) (code state : Text) (token : TokenResponse) (u : World Store)
        → verify_state o settings u.now state ≡ ok (o.uuid_str user_id)
        → (exchange_code o settings code u).0 ≡ ok token
        → Completed user_id code state token u
    completed user_id code state token u v c =
        let x = (exchange_code o settings code u).1 in
        let (a, e) = store_account-ok user_id token x in
        let added = store_account-Added o alone user_id token x (answered a) e in
        let account =
          new_account o user_id token added.access added.refresh added.now added.id added.created in
        let run = callback_stores user_id code state token u v c in
        let same : x.db ≡ u.db =
          ((Keeps-exchange_code o alone settings code).at u (record { same = refl })).same in
        (
          a,
          account,
          ap (λ p. p.0) run ∙ e,
          ap (λ p. p.1.db) run ∙ added.added ∙ ap (insert_account account) same,
          refl,
          ap (λ c. c.connected_account_id) (answered-inj added.answer_lem),
        )

    module _ (urls : UrlLaws o) where
      -- A URL of Google's consent screen whose query, as it is read back, sends the user to the callback
      -- of this broker with a code and the state.
      abbrev pub Redirects : Text → Text → Type 0
      Redirects url state =
          (query : Text) × (url ≡ codes "https://accounts.google.com/o/oauth2/v2/auth?" ++ query)
          × (param (codes "state") (urls.parse_qsl query) ≡ some state)
          × (param (codes "redirect_uri") (urls.parse_qsl query)
              ≡ some (settings.public_base_url ++ codes "/oauth/google/callback"))
          × (param (codes "client_id") (urls.parse_qsl query) ≡ some settings.google_client_id)
          × (param (codes "response_type") (urls.parse_qsl query) ≡ some (codes "code"))

      redirects : (state : Text) → Redirects (build_authorize_url o settings state) state
      unfolding text_eq
      redirects state =
          let params = authorize_params settings state in
          (
            o.urlencode params,
            refl,
            ap (param (codes "state")) (urls.parse_lem params),
            ap (param (codes "redirect_uri")) (urls.parse_lem params),
            ap (param (codes "client_id")) (urls.parse_lem params),
            ap (param (codes "response_type")) (urls.parse_lem params),
          )

      -- The flow that is begun can be completed: where nothing disturbs the calls, `authorize` redirects
      -- to the consent screen, with a query that carries a state, this broker's callback and client id;
      -- and a callback with that state, until its time to live has passed, and with a code that Google
      -- redeems, answers, and adds an account of the user.
      pub authorize-callback :
          (user_id : ℕ) (code : Text) (token : TokenResponse) (w u : World Store)
          → u.now ≤ deadline w
          → (exchange_code o settings code u).0 ≡ ok token
          → (state : Text) × (url : Text) × ((authorize o settings google_provider user_id w).0
              ≡ ok (answered url))
            × Redirects url state
            × Completed user_id code state token u
      unfolding authorize require_google ◌>>=◌
      authorize-callback user_id code token w u in_time c =
          let (state, made) = minted user_id w in
          let known : text_eq google_provider google_provider ≡ true =
            text_eq_refl google_provider in
          let fresh : ltb (deadline w) u.now ≡ false = ground arith in
          let verified : verify_state o settings u.now state ≡ ok (o.uuid_str user_id) =
            verify_state-make_state o laws settings (o.uuid_str user_id) state w u.now made
            ∙ rw fresh refl in
          (
            state,
            build_authorize_url o settings state,
            rw (known, made) refl,
            redirects state,
            completed user_id code state token u verified c,
          )
