-- ===== src/Invoke/Trace.antt =====
-- Which events each part of an invocation emits.
use credbroker.Common.{ℕ, Text, Option, none, some, List, ◌∷◌, refl}
use credbroker.Cache.GrantCache.{is_revoked}
use credbroker.Cache.RateLimiter.{check}
use credbroker.Crypto.{Registry, on_registry, to_thread, encrypt_now}
use credbroker.Exec.{Exec}
use credbroker.Exec.Keeps.{Keeps}
use credbroker.Json.{Json, Fields, null}
use credbroker.Logging.{register_secret}
use credbroker.OAuth.Google.{parse_token_response, refresh_access_token}
use credbroker.Reliability.Idempotency.{get, loaded, decode, reserve, complete, release}
use credbroker.Tools.{answer, send, call, ToolAdapter}
use credbroker.Config.{Settings}
use credbroker.World.{World, Event, Outside, Request, Response, refreshed, contacted}
use credbroker.World.Trace.{Frame, OnTrace, silent, Keeps-emit, Keeps-modify}

module _ (o : Outside) {I : World o.redis.Store → Type 0} {Q : List Event → Type 0}
    (frame : Frame o I) where
  open o.redis use {Store}

  pub Keeps-is_revoked : (h : Text) → Keeps (OnTrace I Q) (is_revoked o h)
  unfolding is_revoked
  Keeps-is_revoked h = search silent

  pub Keeps-check : (key : Text) (limit : ℕ) → Keeps (OnTrace I Q) (check o key limit)
  unfolding check
  Keeps-check key limit = search silent depth 8

  Keeps-loaded : (v : Option Json) → Keeps (OnTrace I Q) (loaded o v)
  unfolding loaded
  Keeps-loaded none = search silent
  Keeps-loaded (some null) = search silent
  Keeps-loaded _ = search silent

  Keeps-decode : (v : Option Text) → Keeps (OnTrace I Q) (decode o v)
  unfolding decode
  Keeps-decode none = search silent
  Keeps-decode (some v) = search (silent, Keeps-loaded)

  pub Keeps-get : (key : Text) → Keeps (OnTrace I Q) (get o key)
  unfolding get
  Keeps-get key = search (silent, Keeps-decode)

  pub Keeps-reserve : (key : Text) → Keeps (OnTrace I Q) (reserve o key)
  unfolding reserve
  Keeps-reserve key = search silent

  pub Keeps-complete :
      (window : ℕ) (key : Text) (r : Json) (owner : Option Text)
      → Keeps (OnTrace I Q) (complete o window key r owner)
  unfolding complete
  Keeps-complete window key r none = search silent
  Keeps-complete window key r (some owner) = search silent

  pub Keeps-release : (key : Text) (owner : Option Text) → Keeps (OnTrace I Q) (release o key owner)
  unfolding release
  Keeps-release key owner = search silent

  Keeps-on_registry : {A : Type 0} (m : Exec Registry A) → Keeps (OnTrace I Q) (on_registry o m)
  unfolding on_registry
  Keeps-on_registry m = record {
    at = λ w h. record {
      holds = h.holds;
      frame_lem = frame.on_secrets w (m w.secrets).1 h.frame_lem;
    };
  }

  pub Keeps-to_thread : {A : Type 0} (m : Exec Registry A) → Keeps (OnTrace I Q) (to_thread o m)
  unfolding to_thread
  Keeps-to_thread m = search (silent, Keeps-on_registry)

  pub Keeps-encrypt_now : (t : Text) → Keeps (OnTrace I Q) (encrypt_now o t)
  unfolding encrypt_now
  Keeps-encrypt_now t = search (silent, Keeps-to_thread)

  Keeps-answer : (r : Request) → Keeps (OnTrace I Q) (answer o r)
  unfolding answer
  Keeps-answer r = record { at = λ w h. h }

  pub Keeps-send : (r : Request) → Keeps (OnTrace I Q) (send o r)
  unfolding send
  Keeps-send r = search (silent, Keeps-answer)

  Keeps-register_secret : (v : Option Text) → Keeps (OnTrace I Q) (register_secret o v)
  unfolding register_secret
  Keeps-register_secret v = Keeps-modify o frame _ (λ w. refl) (λ w i. frame.on_secrets w _ i)

  pub Keeps-parse_token_response : (r : Response) → Keeps (OnTrace I Q) (parse_token_response o r)
  unfolding parse_token_response
  Keeps-parse_token_response r = search (silent, Keeps-register_secret) depth 10

  pub Keeps-refresh_access_token :
      (settings : Settings) (t : Text)
      → ((tr : List Event) → Q tr → Q (refreshed ∷ tr))
      → Keeps (OnTrace I Q) (refresh_access_token o settings t)
  unfolding refresh_access_token
  Keeps-refresh_access_token settings t next =
      search (silent, Keeps-send, Keeps-emit, Keeps-parse_token_response)

module _ (o : Outside) {I : World o.redis.Store → Type 0} {Q : List Event → Type 0}
    (frame : Frame o I) where
  open o.redis use {Store}

  pub Keeps-call :
      (tool : ToolAdapter) (t : Text) (arguments : Fields)
      → ((tr : List Event) → Q tr → Q (contacted t ∷ tr))
      → Keeps (OnTrace I Q) (call o tool t arguments)
  unfolding call
  Keeps-call tool t arguments next = search (silent, Keeps-send, Keeps-emit) depth 8
