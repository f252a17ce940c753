-- ===== src/Invoke/Credential/Trace.antt =====
-- The events of a refresh and of the revocation check.
use credbroker.Common.{refl, arith, ℕ, Text, Bool, true, false, Option, none, some, List, ◌∷◌, ◌≡◌}
use credbroker.Config.{Settings}
use credbroker.Errors.{
  broker, timeout, transport, http_error, client_error, value_error, oauth_flow,
}
use credbroker.Exec.{Result, ok, err, ◌>>=◌}
use credbroker.Exec.Keeps.{Keeps, Keeps-bind}
use credbroker.Invoke.Credential.{
  change_account, decrypt_now, stored_refresh_token, rotate_refresh_token, refresh_credential,
  refresh_or_ended, refresh_or_outcome, row_revoked, cache_revoked, is_revoked_now, ask_revoked,
  announce,
}
use credbroker.Invoke.Outcome.{InvokeService, failed}
use credbroker.Invoke.Trace.{
  Keeps-to_thread, Keeps-encrypt_now, Keeps-refresh_access_token, Keeps-is_revoked,
}
use credbroker.Models.{ConnectedAccount, Grant}
use credbroker.World.{World, Event, Outside, M, emit, decrypted, rechecked, refreshed}
use credbroker.World.Trace.{Frame, OnTrace, silent, Keeps-emit, Keeps-assign}

module _ (o : Outside) where
  open o.redis use {Store}

  announced_clear :
      (m : M o Bool) (w : World Store)
      → (announce o m w).0 ≡ ok false
      → (announce o m w).1.trace ≡ rechecked false ∷ (m w).1.trace
  unfolding announce emit ◌>>=◌
  announced_clear m w e = ground arith

module _ (o : Outside) {I : World o.redis.Store → Type 0} {Q : List Event → Type 0}
    (frame : Frame o I) where
  open o.redis use {Store}

  pub Keeps-failed : (error : Text) (start : ℕ) → Keeps (OnTrace I Q) (failed o error start)
  unfolding failed
  Keeps-failed error start = search silent

  module _ (on_decrypt : (t : List Event) → Q t → Q (decrypted ∷ t)) where
    pub Keeps-decrypt_now : (blob : Text) → Keeps (OnTrace I Q) (decrypt_now o blob)
    unfolding decrypt_now
    Keeps-decrypt_now blob = search (silent, Keeps-emit, Keeps-to_thread)

    Keeps-stored_refresh_token : (b : Option Text) → Keeps (OnTrace I Q) (stored_refresh_token o b)
    unfolding stored_refresh_token
    Keeps-stored_refresh_token none = search silent
    Keeps-stored_refresh_token (some blob) = search Keeps-decrypt_now

    Keeps-change_account :
        (id : ℕ) (f : ConnectedAccount → ConnectedAccount)
        → Keeps (OnTrace I Q) (change_account o id f)
    unfolding change_account
    Keeps-change_account id f = Keeps-assign o frame _ (λ db. refl)

    Keeps-rotate_refresh_token :
        (id : ℕ) (t : Option Text) → Keeps (OnTrace I Q) (rotate_refresh_token o id t)
    unfolding rotate_refresh_token
    Keeps-rotate_refresh_token id none = search silent
    Keeps-rotate_refresh_token id (some t) =
        search (silent, Keeps-encrypt_now, Keeps-change_account) depth 8

    module _ (on_refresh : (t : List Event) → Q t → Q (refreshed ∷ t)) where
      Keeps-refresh_credential :
          (settings : Settings) (a : ConnectedAccount)
          → Keeps (OnTrace I Q) (refresh_credential o settings a)
      unfolding refresh_credential
      Keeps-refresh_credential settings a =
          search
            (
              silent, Keeps-change_account, Keeps-stored_refresh_token, Keeps-refresh_access_token,
              Keeps-encrypt_now, Keeps-rotate_refresh_token,
            )
            depth 20

      Keeps-refresh_or_ended :
          (start : ℕ) (r : Result Text) → Keeps (OnTrace I Q) (refresh_or_ended o start r)
      unfolding refresh_or_ended
      Keeps-refresh_or_ended start (ok access) = search silent
      Keeps-refresh_or_ended start (err (broker oauth_flow m)) = search (silent, Keeps-failed)
      Keeps-refresh_or_ended start (err (timeout m)) = search (silent, Keeps-failed)
      Keeps-refresh_or_ended start (err (transport m)) = search (silent, Keeps-failed)
      Keeps-refresh_or_ended start (err (http_error m)) = search (silent, Keeps-failed)
      Keeps-refresh_or_ended start (err (client_error m)) = search (silent, Keeps-failed)
      Keeps-refresh_or_ended start (err (value_error m)) = search (silent, Keeps-failed)
      Keeps-refresh_or_ended start (err e) = search silent

      pub Keeps-refresh_or_outcome :
          (settings : Settings) (a : ConnectedAccount) (start : ℕ)
          → Keeps (OnTrace I Q) (refresh_or_outcome o settings a start)
      unfolding refresh_or_outcome
      Keeps-refresh_or_outcome settings a start =
          search (silent, Keeps-refresh_credential, Keeps-refresh_or_ended)

  Keeps-row_revoked : (id : ℕ) → Keeps (OnTrace I Q) (row_revoked o id)
  unfolding row_revoked
  Keeps-row_revoked id = search silent

  Keeps-cache_revoked : (b : Bool) (h : Text) → Keeps (OnTrace I Q) (cache_revoked o b h)
  unfolding cache_revoked
  Keeps-cache_revoked true h = search Keeps-is_revoked
  Keeps-cache_revoked false h = search silent

  Keeps-ask_revoked :
      (service : InvokeService) (g : Grant) (h : Text)
      → Keeps (OnTrace I Q) (ask_revoked o service g h)
  unfolding ask_revoked
  Keeps-ask_revoked service g h = search (silent, Keeps-cache_revoked, Keeps-row_revoked)

  pub Keeps-is_revoked_now :
      (service : InvokeService) (g : Grant) (h : Text)
      → ((b : Bool) (t : List Event) → Q t → Q (rechecked b ∷ t))
      → Keeps (OnTrace I Q) (is_revoked_now o service g h)
  unfolding is_revoked_now
  Keeps-is_revoked_now service g h next =
      Keeps-bind (ask_revoked o service g h) _ (Keeps-ask_revoked service g h)
        λ b. search (silent, Keeps-emit o frame (rechecked b) (next b))

  -- A check that answers no has just said so.
  pub clear-is_revoked_now :
      (service : InvokeService) (g : Grant) (h : Text) (w : World Store)
      → OnTrace I Q w
      → (is_revoked_now o service g h w).0 ≡ ok false
      → (t : List Event) × Q t × ((is_revoked_now o service g h w).1.trace ≡ rechecked false ∷ t)
  unfolding is_revoked_now
  clear-is_revoked_now service g h w q e =
      let m = ask_revoked o service g h in
      ((m w).1.trace, ((Keeps-ask_revoked service g h).at w q).holds, announced_clear o m w e)
