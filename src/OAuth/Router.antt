-- ===== src/OAuth/Router.antt =====
-- credbroker/oauth/router.py: the two routes of the connect flow.
pub mod Keeping
pub mod Stored
pub mod Opens
pub mod Callback
pub mod Flow
use credbroker.Common.{
  ℕ, ◌+◌, ◌*◌, Text, Bool, true, false, not, ◌&&◌, ◌||◌, Option, none, some, [], ◌∷◌, ◌++◌, List,
  codes, length, leb, ◌==◌, text_eq, if◌then◌else◌,
}
use mathlib.Core.Option
use credbroker.Config.{Settings}
use credbroker.Crypto.{encrypt_now}
use credbroker.Errors.{broker, value_error, oauth_flow}
use credbroker.Exec.{Result, ok, err, pure, raise, lift, attempt, ◌>>=◌, ◌>>◌}
use credbroker.Http.{HttpReply, answered, http_exception}
use credbroker.Models.{ConnectedAccount, Database}
use credbroker.OAuth.Google.{TokenResponse, build_authorize_url, exchange_code}
use credbroker.OAuth.State.{make_state, verify_state}
use credbroker.Redis.{second}
use credbroker.World.{Outside, M, await, emit, draw, utcnow, assign, commit, in_session, counted}

-- `_PROVIDER`
abbrev pub google_provider : Text
google_provider = codes "google"

-- The account that the callback reports.
pub record Connected : Type 0 where
  pub connected_account_id : Text
  pub provider : Text
  pub scopes : List Text

abbrev all_token_chars : Text → Bool
all_token_chars [] = true
all_token_chars (c ∷ t) = (leb 97 c && leb c 122 || c == 95) && all_token_chars t

-- `re.fullmatch(r"[a-z_]{1,64}", error)`
abbrev is_error_token : Text → Bool
is_error_token error = leb 1 (length error) && leb (length error) 64 && all_token_chars error

abbrev safe_error : Text → Text
safe_error error = if is_error_token error then error else codes "unknown_error"

abbrev pub insert_account : ConnectedAccount → Database → Database
insert_account a db = record db { accounts = a ∷ db.accounts }

module _ (o : Outside) where
  -- `_require_google`, with what follows it
  require_google : {A : Type 0} → Text → M o (HttpReply A) → M o (HttpReply A)
  require_google provider rest =
      if text_eq provider google_provider
      then rest
      else pure (http_exception 404 (codes "unknown provider: " ++ provider))

  -- `authorize`: the URL that the browser is redirected to
  unfoldable pub authorize : Settings → Text → ℕ → M o (HttpReply Text)
  unfolding require_google
  authorize settings provider user_id = require_google provider (do
    state ← make_state o settings (o.uuid_str user_id)
    pure (answered (build_authorize_url o settings state)))

  -- `uuid.UUID`
  uuid_of : Option ℕ → Result ℕ
  uuid_of none = err (value_error (codes "badly formed hexadecimal UUID string"))
  uuid_of (some id) = ok id

  -- The user of a state, and the tokens for a code.
  unfoldable pub exchanged : Settings → Text → Text → M o (ℕ × TokenResponse)
  unfolding uuid_of
  exchanged settings code state = do
    now ← utcnow o
    user ← lift (verify_state o settings now state)
    user_id ← lift (uuid_of (o.uuid_parse user))
    token ← exchange_code o settings code
    pure (user_id, token)

  unfoldable pub encrypt_refresh : Option Text → M o (Option Text)
  encrypt_refresh none = pure none
  encrypt_refresh (some token) = do blob ← encrypt_now o token; pure (some blob)

  -- The row of an account, but for what the flush fills in.
  abbrev pub new_account : ℕ → TokenResponse → Text → Option Text → ℕ → ℕ → ℕ → ConnectedAccount
  new_account user_id token access refresh now id created = record {
    id = id;
    user_id = user_id;
    provider = google_provider;
    encrypted_access_token = access;
    encrypted_refresh_token = refresh;
    scopes_granted = token.scopes;
    expires_at = Option.map (λ lifetime. now + lifetime * second) token.expires_in;
    created_at = created;
  }

  -- `session.add`, the flush, which fills in the defaults, and the commit
  add_account : ℕ → TokenResponse → Text → Option Text → ℕ → M o ℕ
  add_account user_id token access refresh now = in_session o (do
    id ← draw o
    created ← utcnow o
    assign o (insert_account (new_account user_id token access refresh now id created))
    await o
    commit o
    pure id)

  -- The new row and the answer.
  unfoldable pub finish_account : ℕ → TokenResponse → Text → Option Text → M o (HttpReply Connected)
  unfolding add_account
  finish_account user_id token access refresh = do
    now ← utcnow o
    id ← add_account user_id token access refresh now
    emit o (counted (codes "accounts_connected") (google_provider ∷ []))
    pure (
        answered (record {
          connected_account_id = o.uuid_str id;
          provider = google_provider;
          scopes = token.scopes;
        }))

  -- The encryption of the tokens, and the new account.
  unfoldable pub store_account : ℕ → TokenResponse → M o (HttpReply Connected)
  unfolding encrypt_refresh finish_account
  store_account user_id token = do
    access ← encrypt_now o token.access_token
    refresh ← encrypt_refresh token.refresh_token
    finish_account user_id token access refresh

  -- What follows the exchange, its two `except` clauses first.
  connected : Result (ℕ × TokenResponse) → M o (HttpReply Connected)
  connected (err (broker oauth_flow m)) = pure (http_exception 400 m)
  connected (err (value_error m)) =
      pure (http_exception 400 (codes "oauth state carries no valid user id"))
  connected (err e) = raise e
  connected (ok (user_id, token)) = store_account user_id token

  -- From the check of the parameters on.
  with_parameters : Settings → Option Text → Option Text → Option Text → M o (HttpReply Connected)
  unfolding connected
  with_parameters settings code state (some error) =
      pure (http_exception 400 (codes "provider reported: " ++ safe_error error))
  with_parameters settings (some code) (some state) none =
      attempt (exchanged settings code state) connected
  with_parameters settings code state none =
      pure (http_exception 422 (codes "missing code or state parameter"))

  -- `callback`
  unfoldable pub callback :
      Settings → Text → Option Text → Option Text → Option Text → M o (HttpReply Connected)
  unfolding require_google with_parameters
  callback settings provider code state error =
      require_google provider (with_parameters settings code state error)
