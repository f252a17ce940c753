-- ===== src/OAuth/Router/Opens.antt =====
-- The blobs that the callback of the connect flow stores open to the tokens.
use credbroker.Common.{◌≡◌, refl, ap, inl, inr, ◌+◌, Text, Option, none, some}
use credbroker.Crypto.{Registry, on_registry, to_thread, encrypt_now, decrypt}
use credbroker.Crypto.RoundTrip.{CipherLaws, WrapLaws, decrypt-encrypt}
use credbroker.Exec.{Result-cases, ok, ok-inj, err-ne-ok, ◌>>=◌}
use credbroker.OAuth.Router.{encrypt_refresh}
use credbroker.World.{World, Outside, draw}
use credbroker.World.Alone.{Alone, await_alone}

module _ (o : Outside) where
  -- What is stored of an optional token: nothing of none, and of a token a blob that opens to it.
  abbrev pub Opens : Registry → Option Text → Option Text → Type 0
  Opens registry none token = token ≡ none
  Opens registry (some blob) token =
      (t : Text) × (token ≡ some t) × ((decrypt o o.key_manager blob registry).0 ≡ ok t)

module _ (o : Outside) (alone : Alone o) where
  open o.redis use {Store}

  -- The blob opens to the text that was encrypted.
  pub decrypt-encrypt_now :
      (plaintext blob : Text) (w : World Store) (registry : Registry)
      → CipherLaws o
      → WrapLaws o.key_manager
      → (encrypt_now o plaintext w).0 ≡ ok blob
      → (decrypt o o.key_manager blob registry).0 ≡ ok plaintext
  unfolding encrypt_now to_thread on_registry ◌>>=◌ draw
  decrypt-encrypt_now plaintext blob w registry laws wrap = rw (await_alone o alone) (λ e.
      ap (λ r. r.0)
        (decrypt-encrypt o laws o.key_manager (o.random w.drawn) (o.random (w.drawn + 1)) plaintext
          blob w.secrets registry wrap e))

  pub encrypt_refresh-Opens :
      (token blob : Option Text) (w : World Store) (registry : Registry)
      → CipherLaws o
      → WrapLaws o.key_manager
      → (encrypt_refresh o token w).0 ≡ ok blob
      → Opens o registry blob token
  unfolding encrypt_refresh ◌>>=◌
  encrypt_refresh-Opens none blob w registry laws wrap =
      λ e. let none_is : none ≡ blob = ok-inj e in rw (← none_is) refl
  encrypt_refresh-Opens (some t) blob w registry laws wrap =
      elim (Result-cases (encrypt_now o t w).0) [
        | inr (x, f) ↦ rw f (λ e. absurd (err-ne-ok e))
        | inl (sealed, f) ↦ rw f (λ e.
            let some_is : some sealed ≡ blob = ok-inj e in
            rw (← some_is) (t, refl, decrypt-encrypt_now t sealed w registry laws wrap f))
      ]
