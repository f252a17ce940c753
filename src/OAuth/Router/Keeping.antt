-- ===== src/OAuth/Router/Keeping.antt =====
-- The routes of the connect flow keep what no part of an invocation can break.
use credbroker.Common.{refl, ℕ, Text, Option, none, some}
use credbroker.Config.{Settings}
use credbroker.Errors.{broker, value_error, oauth_flow}
use credbroker.Exec.{Result, ok, err}
use credbroker.Exec.Keeps.{Keeps}
use credbroker.Invoke.Trace.{Keeps-encrypt_now, Keeps-send, Keeps-parse_token_response}
use credbroker.OAuth.Google.{TokenResponse, exchange_code}
use credbroker.OAuth.Router.{
  insert_account, require_google, exchanged, encrypt_refresh, add_account, finish_account,
  store_account, connected, with_parameters, callback,
}
use credbroker.Models.{ConnectedAccount}
use credbroker.World.{World, Outside, assign}
use credbroker.World.Trace.{Frame, OnTrace, AnyEvents, any_event, silent, Keeps-assign}

module _ (o : Outside) {I : World o.redis.Store → Type 0} (frame : Frame o I) where
  open o.redis use {Store}

  abbrev P : World Store → Type 0
  P = OnTrace I AnyEvents

  pub Keeps-insert_account : (a : ConnectedAccount) → Keeps P (assign o (insert_account a))
  Keeps-insert_account a = Keeps-assign o frame _ (λ db. refl)

  Keeps-exchange_code :
      (settings : Settings) (code : Text) → Keeps P (exchange_code o settings code)
  unfolding exchange_code
  Keeps-exchange_code settings code = search (silent, Keeps-send, Keeps-parse_token_response)

  Keeps-exchanged :
      (settings : Settings) (code state : Text) → Keeps P (exchanged o settings code state)
  unfolding exchanged
  Keeps-exchanged settings code state = search (silent, Keeps-exchange_code) depth 8

  Keeps-encrypt_refresh : (t : Option Text) → Keeps P (encrypt_refresh o t)
  unfolding encrypt_refresh
  Keeps-encrypt_refresh none = search silent
  Keeps-encrypt_refresh (some t) = search (silent, Keeps-encrypt_now)

  Keeps-add_account :
      (user_id : ℕ) (token : TokenResponse) (access : Text) (refresh : Option Text) (now : ℕ)
      → Keeps P (add_account o user_id token access refresh now)
  unfolding add_account
  Keeps-add_account user_id token access refresh now =
      search (silent, Keeps-insert_account) depth 10

  Keeps-store_account :
      (user_id : ℕ) (token : TokenResponse) → Keeps P (store_account o user_id token)
  unfolding store_account finish_account
  Keeps-store_account user_id token =
      search (silent, any_event, Keeps-encrypt_now, Keeps-encrypt_refresh, Keeps-add_account) depth
        10

  Keeps-connected : (r : Result (ℕ × TokenResponse)) → Keeps P (connected o r)
  unfolding connected
  Keeps-connected (err (broker oauth_flow m)) = search silent
  Keeps-connected (err (value_error m)) = search silent
  Keeps-connected (err e) = search silent
  Keeps-connected (ok (user_id, token)) = Keeps-store_account user_id token

  Keeps-with_parameters :
      (settings : Settings) (code state error : Option Text)
      → Keeps P (with_parameters o settings code state error)
  unfolding with_parameters
  Keeps-with_parameters settings code state (some error) = search silent
  Keeps-with_parameters settings (some code) (some state) none =
      search (silent, Keeps-exchanged, Keeps-connected)
  Keeps-with_parameters settings code state none = search silent

  pub Keeps-callback :
      (settings : Settings) (provider : Text) (code state error : Option Text)
      → Keeps P (callback o settings provider code state error)
  unfolding callback require_google
  Keeps-callback settings provider code state error = search (silent, Keeps-with_parameters)
