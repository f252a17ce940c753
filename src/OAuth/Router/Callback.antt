-- ===== src/OAuth/Router/Callback.antt =====
-- What an answer of the connect flow's callback means, and that it changes nothing where it gives none.
use credbroker.Common.{
  ℕ, ◌≡◌, ◌≢◌, refl, ap, ◌∙◌, inl, inr, Text, Option, none, some, Bool-cases, text_eq,
}
use credbroker.Config.{Settings}
use credbroker.Crypto.{Registry, decrypt}
use credbroker.Crypto.RoundTrip.{CipherLaws, WrapLaws}
use credbroker.Errors.{Exn, broker, value_error, oauth_flow}
use credbroker.Exec.{Result, ok, err, err-ne-ok, attempt, ◌>>=◌}
use credbroker.Http.{answered, http_exception, answered-inj}
use credbroker.Models.{ConnectedAccount, Database}
use credbroker.OAuth.Google.{TokenResponse, exchange_code}
use credbroker.OAuth.Router.{
  Connected, google_provider, insert_account, require_google, new_account, exchanged, connected,
  with_parameters, callback,
}
use credbroker.OAuth.Router.Opens.{Opens, decrypt-encrypt_now, encrypt_refresh-Opens}
use credbroker.OAuth.Router.Stored.{exchanged-ok, store_account-Added, Keeps-exchanged}
use credbroker.OAuth.State.RoundTrip.{Genuine, verify_state-Genuine}
use credbroker.World.{World, Outside}
use credbroker.World.Alone.{Alone}

module _ (o : Outside) (alone : Alone o) where
  open o.redis use {Store}

  refused_answer : (a : Connected) → {c : ℕ} {d : Text} → ok (http_exception c d) ≢ ok (answered a)
  refused_answer a e = cc

  connected-err :
      (x : Exn) (w : World Store) (a : Connected) → (connected o (err x) w).0 ≢ ok (answered a)
  unfolding connected ◌>>=◌
  connected-err (broker oauth_flow m) w a e = refused_answer a e
  connected-err (value_error m) w a e = refused_answer a e
  connected-err x w a e = err-ne-ok e

  -- What an answer of the callback is about: the user that the state was signed for, the tokens that the
  -- code was redeemed for, and a new account of that user that holds the tokens encrypted.
  pub record Stored (settings : Settings) (code_param state_param : Option Text) (w : World Store)
      (answer_given : Connected) (after : Database) : Type 0 where
    pub code : Text
    pub state : Text
    pub user : Text
    pub user_id : ℕ
    pub token : TokenResponse
    pub account : ConnectedAccount
    pub code_given : code_param ≡ some code
    pub state_given : state_param ≡ some state
    pub genuine : Genuine o settings w.now state user
    pub parsed : o.uuid_parse user ≡ some user_id
    pub redeemed : (exchange_code o settings code w).0 ≡ ok token
    pub owned : account.user_id ≡ user_id
    pub from_google : account.provider ≡ google_provider
    pub scoped : account.scopes_granted ≡ token.scopes
    pub sealed :
        (registry : Registry)
        → (decrypt o o.key_manager account.encrypted_access_token registry).0
          ≡ ok token.access_token
    pub sealed_refresh :
        (registry : Registry) → Opens o registry account.encrypted_refresh_token token.refresh_token
    pub reported : answer_given.connected_account_id ≡ o.uuid_str account.id
    pub stored : after ≡ insert_account account w.db

  module _ (laws : CipherLaws o) (wrap : WrapLaws o.key_manager) (settings : Settings) where
    exchanged-Stored :
        (code state : Text) (w : World Store) (a : Connected) (r : Result (ℕ × TokenResponse))
        → (exchanged o settings code state w).0 ≡ r
        → (connected o r (exchanged o settings code state w).1).0 ≡ ok (answered a)
        → Stored settings
            (some code)
            (some state)
            w
            a
            (connected o r (exchanged o settings code state w).1).1.db
    unfolding connected
    exchanged-Stored code state w a (err x) x_is e = absurd (connected-err x _ a e)
    exchanged-Stored code state w a (ok (user_id, token)) x_is e =
        let (user, verified, parsed, redeemed, world) =
          exchanged-ok o alone settings code state w user_id token x_is in
        let added = store_account-Added o alone user_id token _ (answered a) e in
        let same : (exchanged o settings code state w).1.db ≡ w.db =
          ((Keeps-exchanged o alone settings code state).at w (record { same = refl })).same in
        let account =
          new_account o user_id token added.access added.refresh added.now added.id added.created in
        record {
          code = code;
          state = state;
          user = user;
          user_id = user_id;
          token = token;
          account = account;
          code_given = refl;
          state_given = refl;
          genuine = verify_state-Genuine o settings w.now state user verified;
          parsed = parsed;
          redeemed = redeemed;
          owned = refl;
          from_google = refl;
          scoped = refl;
          sealed = λ registry.
              decrypt-encrypt_now o alone token.access_token added.access _ registry laws wrap
                added.encrypted;
          sealed_refresh = λ registry.
              encrypt_refresh-Opens o alone token.refresh_token added.refresh added.between registry
                laws wrap added.encrypted_refresh;
          reported = ap (λ c. c.connected_account_id) (answered-inj added.answer_lem);
          stored = added.added ∙ ap (insert_account account) same;
        }

    with_parameters-Stored :
        (code state error : Option Text) (w : World Store) (a : Connected)
        → (with_parameters o settings code state error w).0 ≡ ok (answered a)
        → Stored settings code state w a (with_parameters o settings code state error w).1.db
    unfolding with_parameters attempt ◌>>=◌
    with_parameters-Stored code state (some error) w a e = absurd (refused_answer a e)
    with_parameters-Stored (some code) (some state) none w a e =
        exchanged-Stored code state w a _ refl e
    with_parameters-Stored code state none w a e = absurd (refused_answer a e)

    -- Where nothing disturbs it, a callback answers only for a state that is signed, unexpired and of a
    -- user by a UUID, and for a code that Google redeems; then exactly one account is added to the
    -- tables: of that very user with Google, with the scopes of the token, holding the access token
    -- and, where there is one, the refresh token so encrypted that the cipher opens them again; and the
    -- answer has the account's id.
    pub callback-Stored :
        (provider : Text) (code state error : Option Text) (w : World Store) (a : Connected)
        → (callback o settings provider code state error w).0 ≡ ok (answered a)
        → Stored settings code state w a (callback o settings provider code state error w).1.db
    unfolding callback require_google ◌>>=◌
    callback-Stored provider code state error w a =
        elim (Bool-cases (text_eq provider google_provider)) [
          | inl google ↦ rw google (with_parameters-Stored code state error w a)
          | inr other ↦ rw other (λ e. absurd (refused_answer a e))
        ]

  -- A refusal is no answer.
  not_answered : {a : Connected} {c : ℕ} {d : Text} → http_exception c d ≢ answered a
  not_answered e = cc

  module _ (settings : Settings) (status : ℕ) (detail : Text) where
    exchanged-Refused :
        (code state : Text) (w : World Store) (r : Result (ℕ × TokenResponse))
        → (connected o r (exchanged o settings code state w).1).0
          ≡ ok (http_exception status detail)
        → (connected o r (exchanged o settings code state w).1).1.db ≡ w.db
    unfolding connected ◌>>=◌
    exchanged-Refused code state w (ok (user_id, token)) e = absurd (
        not_answered
          (store_account-Added o alone user_id token _ (http_exception status detail) e).answer_lem)
    exchanged-Refused code state w (err (broker oauth_flow m)) e =
        ((Keeps-exchanged o alone settings code state).at w (record { same = refl })).same
    exchanged-Refused code state w (err (value_error m)) e =
        ((Keeps-exchanged o alone settings code state).at w (record { same = refl })).same
    exchanged-Refused code state w (err x) e =
        ((Keeps-exchanged o alone settings code state).at w (record { same = refl })).same

    with_parameters-Refused :
        (code state error : Option Text) (w : World Store)
        → (with_parameters o settings code state error w).0 ≡ ok (http_exception status detail)
        → (with_parameters o settings code state error w).1.db ≡ w.db
    unfolding with_parameters attempt ◌>>=◌
    with_parameters-Refused code state (some error) w e = refl
    with_parameters-Refused (some code) (some state) none w e = exchanged-Refused code state w _ e
    with_parameters-Refused code state none w e = refl

    -- Where nothing disturbs it, a callback that ends with an `HTTPException` - for an unknown
    -- provider, an error of the provider, missing parameters, a state or a code that is refused -
    -- leaves the tables as they were.
    pub callback-Refused :
        (provider : Text) (code state error : Option Text) (w : World Store)
        → (callback o settings provider code state error w).0 ≡ ok (http_exception status detail)
        → (callback o settings provider code state error w).1.db ≡ w.db
    unfolding callback require_google ◌>>=◌
    callback-Refused provider code state error w =
        elim (Bool-cases (text_eq provider google_provider)) [
          | inl google ↦ rw google (with_parameters-Refused code state error w)
          | inr other ↦ rw other (λ e. refl)
        ]
