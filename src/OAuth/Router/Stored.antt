-- ===== src/OAuth/Router/Stored.antt =====
-- What the exchange and the storing of the connect flow's callback do, undisturbed.
use credbroker.Common.{ℕ, ◌≡◌, refl, ap, sym, ◌∙◌, Option-cases, inl, inr, Text, Option, none, some}
use credbroker.Config.{Settings}
use credbroker.Crypto.{Registry, on_registry, to_thread, encrypt_now}
use credbroker.Exec.{Exec, Result, ok, Result-cases, attempt, bind-ok, ok-inj, err-ne-ok, ◌>>=◌}
use credbroker.Exec.Keeps.{Keeps}
use credbroker.Http.{HttpReply, answered}
use credbroker.Logging.{register_secret}
use credbroker.Models.{Database}
use credbroker.OAuth.Google.{TokenResponse, parse_token_response, exchange_code}
use credbroker.OAuth.Router.{
  Connected, google_provider, insert_account, new_account, encrypt_refresh, add_account,
  finish_account, store_account, exchanged, uuid_of,
}
use credbroker.OAuth.State.{verify_state}
use credbroker.Tools.{answer, send}
use credbroker.World.{World, Outside, Request, draw, utcnow, assign, commit, in_session, emit}
use credbroker.World.Alone.{Alone, await_alone}
use credbroker.World.Tables.{HasTables, HasTables-modify, table_rules}

module _ (o : Outside) (alone : Alone o) where
  open o.redis use {Store}

  module _ {db : Database} where
    Keeps-on_registry :
        {A : Type 0} (m : Exec Registry A) → Keeps (HasTables {S = Store} db) (on_registry o m)
    unfolding on_registry
    Keeps-on_registry m = record { at = λ w h. record { same = h.same } }

    pub Keeps-encrypt_now : (t : Text) → Keeps (HasTables {S = Store} db) (encrypt_now o t)
    unfolding encrypt_now to_thread
    Keeps-encrypt_now t = search (table_rules, Keeps-on_registry, alone) depth 8

    pub Keeps-encrypt_refresh :
        (t : Option Text) → Keeps (HasTables {S = Store} db) (encrypt_refresh o t)
    unfolding encrypt_refresh
    Keeps-encrypt_refresh none = search table_rules
    Keeps-encrypt_refresh (some t) = search (table_rules, Keeps-encrypt_now)

    Keeps-answer : (r : Request) → Keeps (HasTables {S = Store} db) (answer o r)
    unfolding answer
    Keeps-answer r = record { at = λ w h. h }

    Keeps-send : (r : Request) → Keeps (HasTables {S = Store} db) (send o r)
    unfolding send
    Keeps-send r = search (table_rules, Keeps-answer, alone)

    Keeps-register_secret :
        (v : Option Text) → Keeps (HasTables {S = Store} db) (register_secret o v)
    unfolding register_secret
    Keeps-register_secret v = HasTables-modify o _ (λ w. refl)

    pub Keeps-exchange_code :
        (settings : Settings) (code : Text)
        → Keeps (HasTables {S = Store} db) (exchange_code o settings code)
    unfolding exchange_code parse_token_response
    Keeps-exchange_code settings code =
        search (table_rules, Keeps-send, Keeps-register_secret) depth 12

    pub Keeps-exchanged :
        (settings : Settings) (code state : Text)
        → Keeps (HasTables {S = Store} db) (exchanged o settings code state)
    unfolding exchanged
    Keeps-exchanged settings code state = search (table_rules, Keeps-exchange_code) depth 8

  -- The flush and the commit of the new row.
  add_account-lem :
      (user_id : ℕ) (token : TokenResponse) (access : Text) (refresh : Option Text) (now : ℕ)
      (w : World Store)
      → ((add_account o user_id token access refresh now w).0 ≡ ok (o.random w.drawn))
        × ((add_account o user_id token access refresh now w).1.db
            ≡ insert_account
                (new_account o user_id token access refresh now (o.random w.drawn) w.now)
                w.db)
  unfolding add_account in_session attempt draw utcnow assign commit ◌>>=◌
  add_account-lem user_id token access refresh now w =
      (simp (await_alone o alone), simp (await_alone o alone))

  -- A row is added for the user with the tokens' blobs, and the answer is about it.
  pub record Added (user_id : ℕ) (token : TokenResponse) (w : World Store)
      (reply : HttpReply Connected) (after : Database) : Type 0 where
    pub access : Text
    pub refresh : Option Text
    pub now : ℕ
    pub id : ℕ
    pub created : ℕ
    pub between : World Store
    pub encrypted : (encrypt_now o token.access_token w).0 ≡ ok access
    pub encrypted_refresh : (encrypt_refresh o token.refresh_token between).0 ≡ ok refresh
    pub answer_lem :
        reply
        ≡ answered (record {
          connected_account_id = o.uuid_str id;
          provider = google_provider;
          scopes = token.scopes;
        })
    pub added :
        after ≡ insert_account (new_account o user_id token access refresh now id created) w.db

  module _ (user_id : ℕ) (token : TokenResponse) where
    -- Answer and tables, at the world in which the row is made.
    abbrev pub Finished :
        Text → Option Text → World Store → Result (HttpReply Connected) → Database → Type 0
    Finished access refresh w r after =
        (r
          ≡ ok (
              answered (record {
                connected_account_id = o.uuid_str (o.random w.drawn);
                provider = google_provider;
                scopes = token.scopes;
              })))
        × (after
            ≡ insert_account
                (new_account o user_id token access refresh w.now (o.random w.drawn) w.now) w.db)

    pub finish_account-Finished :
        (access : Text) (refresh : Option Text) (w : World Store)
        → Finished access refresh w
            (finish_account o user_id token access refresh w).0
            (finish_account o user_id token access refresh w).1.db
    unfolding finish_account ◌>>=◌ utcnow emit
    finish_account-Finished access refresh w =
        let (result, tables) = add_account-lem user_id token access refresh w.now w in
        rw result (refl, tables)

    pub store_account-Added :
        (w : World Store) (reply : HttpReply Connected)
        → (store_account o user_id token w).0 ≡ ok reply
        → Added user_id token w reply (store_account o user_id token w).1.db
    unfolding store_account
    store_account-Added w reply e =
        let (access, e1, rest, s1) = bind-ok (encrypt_now o token.access_token) _ w reply e in
        let u = (encrypt_now o token.access_token w).1 in
        let (refresh, e2, last, s2) =
          bind-ok (encrypt_refresh o token.refresh_token) _ u reply rest in
        let v = (encrypt_refresh o token.refresh_token u).1 in
        let (answer_is, tables) = finish_account-Finished access refresh v in
        let unchanged : v.db ≡ w.db =
          ((Keeps-encrypt_refresh token.refresh_token).at u
            ((Keeps-encrypt_now token.access_token).at w (record { same = refl }))).same in
        record {
          access = access;
          refresh = refresh;
          now = v.now;
          id = o.random v.drawn;
          created = v.now;
          between = u;
          encrypted = e1;
          encrypted_refresh = e2;
          answer_lem = ok-inj (sym last ∙ answer_is);
          added =
              ap (λ u. u.db) (s1 ∙ s2)
              ∙ tables
              ∙ ap
                  (insert_account
                    (new_account o user_id token access refresh v.now (o.random v.drawn) v.now))
                  unchanged;
        }

  pub exchanged-ok :
      (settings : Settings) (code state : Text) (w : World Store) (user_id : ℕ)
      (token : TokenResponse)
      → (exchanged o settings code state w).0 ≡ ok (user_id, token)
      → (user : Text) × (verify_state o settings w.now state ≡ ok user)
        × (o.uuid_parse user ≡ some user_id)
        × ((exchange_code o settings code w).0 ≡ ok token)
        × ((exchanged o settings code state w).1 ≡ (exchange_code o settings code w).1)
  unfolding exchanged utcnow ◌>>=◌ uuid_of
  exchanged-ok settings code state w user_id token =
      elim (Result-cases (verify_state o settings w.now state)) [
        | inr (x, v) ↦ rw v (λ e. absurd (err-ne-ok e))
        | inl (user, v) ↦ rw v (elim (Option-cases (o.uuid_parse user)) [
          | inl p ↦ rw p (λ e. absurd (err-ne-ok e))
          | inr (id, p) ↦ rw p (elim (Result-cases (exchange_code o settings code w).0) [
            | inr (x, c) ↦ rw c (λ e. absurd (err-ne-ok e))
            | inl (t, c) ↦ rw c (λ e.
                let same = ok-inj e in
                let tokens : t ≡ token = ap (λ q. q.1) same in
                let users : id ≡ user_id = ap (λ q. q.0) same in
                (user, refl, p ∙ ap some users, ap ok tokens, refl))
          ])
        ])
      ]
