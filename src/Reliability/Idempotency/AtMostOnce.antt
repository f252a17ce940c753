-- ===== src/Reliability/Idempotency/AtMostOnce.antt =====
-- A reservation keeps the key for its holder, and a stored result is replayed.
use credbroker.Common.{
  ℕ, ◌+◌, ◌*◌, ◌<◌, ◌≡◌, ◌≢◌, refl, sym, Text, false, none, some, List, [], ◌∷◌, ◌++◌, ap, inl, inr,
  codes, text_eq_refl, append_cancel_left, starts_with, starts_with-append, is_some, Bool-cases,
  arith,
}
use credbroker.Exec.{ok, pure, ◌>>=◌}
use credbroker.Json.{Json, null}
use credbroker.Redis.{live, second}
use credbroker.Reliability.Idempotency.{
  name, pending_value, pending_marker, reservation_ttl_seconds, get, reserve, complete, release,
  decode, loaded,
}
use credbroker.Reliability.Idempotency.Exclusive.{
  Call, AllForeign, get_call, reserve_call, complete_call, release_call, wait_call, total_time,
  perform_all, perform_all-Holds,
}
use credbroker.Reliability.Idempotency.Holds.{
  Holds, reserve-refused, get-live, complete-owner, release-owner,
}
use credbroker.World.{World, Outside, draw}
use credbroker.World.Alone.{Alone, redis_read_alone, redis_write_alone}

-- No call carries the owner's token.
abbrev pub OthersThan : Text → List Call → Type 0
OthersThan owner [] = Unit
OthersThan owner (complete_call window key result other ∷ cs) =
    (other ≢ owner) × OthersThan owner cs
OthersThan owner (release_call key other ∷ cs) = (other ≢ owner) × OthersThan owner cs
OthersThan owner (_ ∷ cs) = OthersThan owner cs

pending_value_inj : (a b : Text) → pending_value a ≡ pending_value b → a ≡ b
pending_value_inj a b h =
    append_cancel_left (codes ":") _ _ (append_cancel_left pending_marker _ _ h)

OthersThan-foreign :
    (owner : Text) (cs : List Call) → OthersThan owner cs → AllForeign (pending_value owner) cs
OthersThan-foreign owner [] h = tt
OthersThan-foreign owner (get_call k ∷ cs) h = (tt, OthersThan-foreign owner cs h)
OthersThan-foreign owner (reserve_call k ∷ cs) h = (tt, OthersThan-foreign owner cs h)
OthersThan-foreign owner (complete_call window k result other ∷ cs) h =
    (λ e. h.0 (sym (pending_value_inj owner other e)), OthersThan-foreign owner cs h.1)
OthersThan-foreign owner (release_call k other ∷ cs) h =
    (λ e. h.0 (sym (pending_value_inj owner other e)), OthersThan-foreign owner cs h.1)
OthersThan-foreign owner (wait_call d ∷ cs) h = (tt, OthersThan-foreign owner cs h)

marker_clash : (v other : Text) → starts_with v pending_marker ≡ false → v ≡ pending_value other → ⊥
marker_clash v other h e =
    let marked = starts_with-append pending_marker (codes ":" ++ other) in ground (arith, e, marked)

-- A value that is no marker is no owner's marker.
results_foreign :
    (v : Text) (cs : List Call) → starts_with v pending_marker ≡ false → AllForeign v cs
results_foreign v [] h = tt
results_foreign v (get_call k ∷ cs) h = (tt, results_foreign v cs h)
results_foreign v (reserve_call k ∷ cs) h = (tt, results_foreign v cs h)
results_foreign v (complete_call window k result other ∷ cs) h =
    (λ e. marker_clash v other h e, results_foreign v cs h)
results_foreign v (release_call k other ∷ cs) h =
    (λ e. marker_clash v other h e, results_foreign v cs h)
results_foreign v (wait_call d ∷ cs) h = (tt, results_foreign v cs h)

module _ (o : Outside) where
  open o.redis use {Store, view}

  -- What a claim leaves.
  reserve-claims :
      (alone : Alone o) (key owner : Text) (w : World Store)
      → (reserve o key w).0 ≡ ok (some owner)
      → Holds o key
          (pending_value owner)
          (w.now + reservation_ttl_seconds * second)
          (reserve o key w).1
        × ((reserve o key w).1.now ≡ w.now)
  unfolding reserve draw ◌>>=◌ pure
  reserve-claims alone key owner w =
      rw (redis_write_alone o alone, o.redis.set_nx_lem)
        (elim (Bool-cases (is_some (live w.now (view w.store (name key))))) [
          | inl taken ↦ rw taken (λ e. absurd (ground arith))
          | inr free ↦ rw free (λ e.
              let set =
                o.redis.view-set w.now (name key) (pending_value owner) reservation_ttl_seconds
                  w.store (name key) in
              let this = text_eq_refl (name key) in
              (record { at = ground (arith, set, this) }, refl))
        ])

  loaded-some :
      (result : Json) (w : World Store)
      → result ≢ null
      → loaded o (some result) w ≡ (ok (some result), w)
  unfolding loaded pure
  loaded-some null w n = absurd (n refl)
  loaded-some result w n = refl

  get-stored :
      (alone : Alone o) (key v : Text) (result : Json) (deadline : ℕ) (w : World Store)
      → Holds o key v deadline w
      → w.now < deadline
      → starts_with v pending_marker ≡ false
      → o.loads v ≡ some result
      → result ≢ null
      → (get o key w).0 ≡ ok (some result)
  unfolding get decode ◌>>=◌
  get-stored alone key v result deadline w h t p l n =
      rw
        (
          redis_read_alone o alone,
          get-live o alone key v deadline key w h t (text_eq_refl (name key)),
          p,
          l,
        )
        (ap (λ r. r.0) (loaded-some result _ n))

  -- Where each call runs whole and undisturbed, one after another: from a claim on, for less than the reservation's 60 seconds, no calls of other owners (reads,
  -- claims, completions, releases, in any order and on any keys) take the key away: another claim is
  -- refused, the holder's completion stores its result for the window, and its release frees the key.
  pub reserve-Exclusive :
      (alone : Alone o) (key owner : Text) (calls : List Call) (window : ℕ) (result : Json)
      (w : World Store)
      → (reserve o key w).0 ≡ ok (some owner)
      → OthersThan owner calls
      → total_time calls < reservation_ttl_seconds * second
      → let u = perform_all o calls (reserve o key w).1 in
        ((reserve o key u).0 ≡ ok none)
        × (view (complete o window key result (some owner) u).1.store (name key)
            ≡ some (record { value = o.dumps result; deadline = some (u.now + window * second) }))
        × (view (release o key (some owner) u).1.store (name key) ≡ none)
  reserve-Exclusive alone key owner calls window result w e others t =
      let v = pending_value owner in
      let until = w.now + reservation_ttl_seconds * second in
      let (held, now) = reserve-claims alone key owner w e in
      let (holds, later) =
        perform_all-Holds o alone key v until calls (reserve o key w).1 held (omega arith)
          (OthersThan-foreign owner calls others) in
      let u = perform_all o calls (reserve o key w).1 in
      (
        reserve-refused o alone key v until u holds (omega arith),
        (complete-owner o alone key owner until window result u holds (omega arith)).0.at,
        release-owner o alone key owner until u holds (omega arith),
      )

  -- Where each call runs whole and undisturbed, one after another: from a holder's completion on,
  -- within its reservation and for less than the store's window, whatever reads, claims, and
  -- completions and releases with an owner token are made, `get` replays the stored result and no
  -- claim of the key succeeds. The result is one that JSON gives back, is no `null`, and is not written
  -- with the marker's prefix.
  pub complete-Replayed :
      (alone : Alone o) (key owner : Text) (window : ℕ) (result : Json) (before calls : List Call)
      (w : World Store)
      → o.loads (o.dumps result) ≡ some result
      → result ≢ null
      → starts_with (o.dumps result) pending_marker ≡ false
      → (reserve o key w).0 ≡ ok (some owner)
      → OthersThan owner before
      → total_time before < reservation_ttl_seconds * second
      → total_time calls < window * second
      → let u =
          (complete o window key result
            (some owner)
            (perform_all o before (reserve o key w).1)).1 in
        ((get o key (perform_all o calls u)).0 ≡ ok (some result))
        × ((reserve o key (perform_all o calls u)).0 ≡ ok none)
  complete-Replayed alone key owner window result before calls w l n p e others t t' =
      let until = w.now + reservation_ttl_seconds * second in
      let (held, now) = reserve-claims alone key owner w e in
      let (holds, later) =
        perform_all-Holds o alone key (pending_value owner) until before (reserve o key w).1 held
          (omega arith) (OthersThan-foreign owner before others) in
      let s = perform_all o before (reserve o key w).1 in
      let (stored, at_once) =
        complete-owner o alone key owner until window result s holds (omega arith) in
      let u = (complete o window key result (some owner) s).1 in
      let v = o.dumps result in
      let end = s.now + window * second in
      let (kept, last) =
        perform_all-Holds o alone key v end calls u stored (omega arith)
          (results_foreign v calls p) in
      (
        get-stored alone key v result end (perform_all o calls u) kept (omega arith) p l n,
        reserve-refused o alone key v end (perform_all o calls u) kept (omega arith),
      )
