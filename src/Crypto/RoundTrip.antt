-- ===== src/Crypto/RoundTrip.antt =====
-- A credential that the cipher encrypts is the one that it decrypts.
use credbroker.Common.{
  ℕ, ◌+◌, ◌≤◌, ◌≡◌, refl, Text, false, some, ◌++◌, length, take, drop, length-append, take-append,
  drop-append, text_eq_refl, ltb, ◌==◌, Bool-cases, inl, inr, arith,
}
use credbroker.Crypto.{
  Registry, magic, nonce_size, gcm_tag_size, data_key_size, header_size, pack_length, unpack_length,
  local_generate, local_decrypt, local_key_manager, encrypt, decrypt,
}
use credbroker.Errors.{Exn}
use credbroker.Exec.{ok, err, Result-cases, ◌>>=◌}
use credbroker.Logging.{register}
use credbroker.World.{KeyManager, Outside}

-- What AES-GCM, the source of random bytes and UTF-8 are documented to do.
pub record CipherLaws (o : Outside) : Type 0 where
  pub open_lem :
      (key nonce plaintext : Text)
      → o.aesgcm_decrypt key nonce (o.aesgcm_encrypt key nonce plaintext) ≡ some plaintext
  pub length_lem :
      (key nonce plaintext : Text)
      → length (o.aesgcm_encrypt key nonce plaintext) ≡ length plaintext + gcm_tag_size
  pub urandom_lem : (n r : ℕ) → length (o.urandom n r) ≡ n
  pub utf8_lem : (text : Text) → o.utf8_decode (o.utf8 text) ≡ some text

-- A key manager gives back the data keys that it wrapped.
pub record WrapLaws (manager : KeyManager) : Type 0 where
  pub unwrap_lem :
      (r : ℕ) (data_key wrapped : Text)
      → manager.generate_data_key r ≡ ok (data_key, wrapped)
      → manager.decrypt_data_key wrapped ≡ ok data_key

pub unpack-pack : (n : ℕ) (rest : Text) → n ≤ 0xFFFF → unpack_length (pack_length n ++ rest) ≡ n
unpack-pack n rest h = omega arith

module _ (o : Outside) where
  -- A blob that is laid out as `encrypt` does it.
  abbrev pub packed : Text → Text → Text → Text
  packed wrapped nonce ciphertext =
      magic ++ (pack_length (length wrapped) ++ (wrapped ++ (nonce ++ ciphertext)))

  decrypt-packed :
      (manager : KeyManager) (wrapped nonce ciphertext data_key bytes plaintext : Text)
      (r : Registry)
      → length wrapped ≤ 0xFFFF
      → length nonce ≡ nonce_size
      → gcm_tag_size ≤ length ciphertext
      → manager.decrypt_data_key wrapped ≡ ok data_key
      → o.aesgcm_decrypt data_key nonce ciphertext ≡ some bytes
      → o.utf8_decode bytes ≡ some plaintext
      → decrypt o manager (packed wrapped nonce ciphertext) r
        ≡ (ok plaintext, register (some plaintext) r)
  unfolding decrypt ◌>>=◌
  decrypt-packed manager wrapped nonce ciphertext data_key bytes plaintext r hw hn hc u d t =
      let size = unpack-pack (length wrapped) (wrapped ++ (nonce ++ ciphertext)) hw in
      let total : length (packed wrapped nonce ciphertext)
          ≡ header_size + (length wrapped + (length nonce + length ciphertext)) =
        rw (length-append wrapped, length-append nonce) (omega arith) in
      let long : ltb (length (packed wrapped nonce ciphertext)) header_size ≡ false =
        ground arith in
      let whole : ltb (length (packed wrapped nonce ciphertext))
            (header_size + length wrapped + nonce_size + gcm_tag_size)
          ≡ false =
        ground arith in
      let first : take nonce_size (nonce ++ ciphertext) ≡ nonce =
        rw (← hn) (take-append nonce ciphertext) in
      let second : drop nonce_size (nonce ++ ciphertext) ≡ ciphertext =
        rw (← hn) (drop-append nonce ciphertext) in
      rw
        (
          size,
          take-append wrapped,
          drop-append wrapped,
          long,
          text_eq_refl magic,
          whole,
          first,
          second,
          u,
          d,
          t,
        )
        refl

module _ (o : Outside) (laws : CipherLaws o) where
  unwrap_local :
      (master : Text) (r : ℕ) (data_key wrapped : Text)
      → local_generate o master r ≡ ok (data_key, wrapped)
      → local_decrypt o master wrapped ≡ ok data_key
  unfolding local_generate local_decrypt
  unwrap_local master r data_key wrapped e =
      let nonce = o.urandom nonce_size (r + 1) in
      let key = o.urandom data_key_size r in
      let sealed = o.aesgcm_encrypt master nonce key in
      let size = laws.urandom_lem nonce_size (r + 1) in
      let parts : wrapped ≡ nonce ++ sealed = ground arith in
      let this : key ≡ data_key = ground arith in
      let short : ltb (length (nonce ++ sealed)) (nonce_size + gcm_tag_size) ≡ false =
        rw (length-append, laws.length_lem, size) (ground arith) in
      let first : take nonce_size (nonce ++ sealed) ≡ nonce =
        ground (arith, take-append nonce sealed) in
      let second : drop nonce_size (nonce ++ sealed) ≡ sealed =
        ground (arith, drop-append nonce sealed) in
      rw (parts, short, first, second, laws.open_lem, this) refl

  -- Under the documented laws of AES-GCM, `os.urandom` and UTF-8, a local key manager that is built at
  -- all, for a master key of the right size, unwraps every data key that it has wrapped.
  pub local_key_manager-WrapLaws :
      (master : Text) (manager : KeyManager)
      → local_key_manager o master ≡ ok manager
      → WrapLaws manager
  unfolding local_key_manager
  local_key_manager-WrapLaws master manager e = elim (Bool-cases (length master == data_key_size)) [
    | inl fits ↦
        let same : manager ≡ record {
          generate_data_key = local_generate o master;
          decrypt_data_key = local_decrypt o master;
        } =
          ground arith in
        rw same (record { unwrap_lem = unwrap_local master })
    | inr other ↦ absurd (ground arith)
  ]

  -- What `encrypt` returns is laid out as a blob, and its wrapped key fits the length field.
  encrypt-packed :
      (manager : KeyManager) (key_draw nonce_draw : ℕ) (plaintext blob data_key wrapped : Text)
      (r : Registry)
      → manager.generate_data_key key_draw ≡ ok (data_key, wrapped)
      → (encrypt o manager key_draw nonce_draw plaintext r).0 ≡ ok blob
      → (blob
          ≡ packed o wrapped
              (o.urandom nonce_size nonce_draw)
              (o.aesgcm_encrypt data_key (o.urandom nonce_size nonce_draw) (o.utf8 plaintext)))
        × (length wrapped ≤ 0xFFFF)
  unfolding encrypt ◌>>=◌
  encrypt-packed manager key_draw nonce_draw plaintext blob data_key wrapped r g =
      rw g (elim (Bool-cases (ltb 0xFFFF (length wrapped))) [
        | inl long ↦ rw long (λ e. absurd (ground arith))
        | inr fits ↦ rw fits (λ e. (ground arith, ground arith))
      ])

  no_key :
      (manager : KeyManager) (key_draw nonce_draw : ℕ) (plaintext blob : Text) (r : Registry)
      (x : Exn)
      → manager.generate_data_key key_draw ≡ err x
      → (encrypt o manager key_draw nonce_draw plaintext r).0 ≡ ok blob
      → ⊥
  unfolding encrypt ◌>>=◌
  no_key manager key_draw nonce_draw plaintext blob r x g = rw g (λ e. ground arith)

  -- Under the documented laws of AES-GCM, UTF-8 and the key manager, every blob that `encrypt` returns
  -- decrypts to its plaintext, which is registered as a secret again.
  pub decrypt-encrypt :
      (manager : KeyManager) (key_draw nonce_draw : ℕ) (plaintext blob : Text)
      (before after : Registry)
      → WrapLaws manager
      → (encrypt o manager key_draw nonce_draw plaintext before).0 ≡ ok blob
      → decrypt o manager blob after ≡ (ok plaintext, register (some plaintext) after)
  decrypt-encrypt manager key_draw nonce_draw plaintext blob before after wrap e =
      elim (Result-cases (manager.generate_data_key key_draw)) [
        | inl ((data_key, wrapped), g) ↦
            let (laid_out, fits) =
              encrypt-packed manager key_draw nonce_draw plaintext blob data_key wrapped before g
                e in
            let nonce = o.urandom nonce_size nonce_draw in
            let ciphertext = o.aesgcm_encrypt data_key nonce (o.utf8 plaintext) in
            rw laid_out (
              decrypt-packed o manager wrapped nonce ciphertext data_key (o.utf8 plaintext)
                plaintext after fits (laws.urandom_lem nonce_size nonce_draw)
                (omega (arith, laws.length_lem data_key nonce (o.utf8 plaintext)))
                (wrap.unwrap_lem key_draw data_key wrapped g)
                (laws.open_lem data_key nonce (o.utf8 plaintext)) (laws.utf8_lem plaintext))
        | inr (x, g) ↦ absurd (no_key manager key_draw nonce_draw plaintext blob before x g e)
      ]
