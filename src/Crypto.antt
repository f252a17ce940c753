-- ===== src/Crypto.antt =====
-- credbroker/crypto/kms.py: envelope encryption of credentials. Bytes are lists of numbers.
pub mod RoundTrip
pub mod Build
use credbroker.Common.{
  ℕ, ◌+◌, ◌*◌, ◌/◌, ◌%◌, Text, Bool, true, not, Option, none, some, List, [], ◌∷◌, ◌++◌, length,
  take, drop, text_eq, codes, decimal, ◌==◌, ltb, if◌then◌else◌,
}
use credbroker.Errors.{Exn, value_error}
use credbroker.Exec.{Result, ok, err, Exec, pure, raise, lift, modify, raise_if, ◌>>=◌, ◌>>◌}
use credbroker.Logging.{register}
use credbroker.World.{KeyManager, Outside, M, draw, await}

abbrev pub magic : Text
magic = codes "CB1"

abbrev pub nonce_size : ℕ
nonce_size = 12

abbrev pub gcm_tag_size : ℕ
gcm_tag_size = 16

abbrev pub data_key_size : ℕ
data_key_size = 32

abbrev pub header_size : ℕ
header_size = 5

-- `struct.Struct(">H")`: a two-byte length, the high byte first
abbrev pub pack_length : ℕ → Text
pack_length n = n / 256 ∷ n % 256 ∷ []

abbrev pub unpack_length : Text → ℕ
unpack_length (high ∷ low ∷ _) = high * 256 + low
unpack_length _ = 0

-- `InvalidTag` is turned into a `ValueError`.
abbrev opened : Option Text → Exn → Result Text
opened none e = err e
opened (some bytes) _ = ok bytes

-- A registry of secrets is the state of the cipher's methods.
abbrev pub Registry : Type 0
Registry = List Text

module _ (o : Outside) where
  open o use {aesgcm_encrypt, aesgcm_decrypt, urandom, utf8, utf8_decode}

  -- `LocalKeyManager`: `__init__`, `generate_data_key` (one draw for the key and one for the nonce)
  -- and `decrypt_data_key`
  unfoldable pub local_generate : Text → ℕ → Result (Text × Text)
  local_generate master r =
      let plaintext_key = urandom data_key_size r in
      let nonce = urandom nonce_size (r + 1) in
      ok (plaintext_key, nonce ++ aesgcm_encrypt master nonce plaintext_key)

  unfoldable pub local_decrypt : Text → Text → Result Text
  local_decrypt master blob =
      if ltb (length blob) (nonce_size + gcm_tag_size)
      then err (value_error (codes "encrypted data key is truncated"))
      else opened (aesgcm_decrypt master (take nonce_size blob) (drop nonce_size blob))
          (value_error (codes "failed to unwrap data key (corrupt blob or wrong master key)"))

  unfoldable pub local_key_manager : Text → Result KeyManager
  unfolding local_generate local_decrypt
  local_key_manager master =
      if length master == data_key_size
      then ok (record {
        generate_data_key = local_generate master;
        decrypt_data_key = local_decrypt master;
      })
      else err
          (value_error (codes "local master key must be 32 bytes, got " ++ decimal (length master)))

  -- `TokenCipher.encrypt`; the numbers are the draws for the data key and for the nonce
  unfoldable pub encrypt : KeyManager → ℕ → ℕ → Text → Exec Registry Text
  encrypt manager key_draw nonce_draw plaintext = do
    modify (register (some plaintext))
    (data_key, encrypted_key) ← lift (manager.generate_data_key key_draw)
    raise_if (ltb 0xFFFF (length encrypted_key))
        (value_error (codes "encrypted data key too large for blob format"))
    let nonce = urandom nonce_size nonce_draw
    let ciphertext = aesgcm_encrypt data_key nonce (utf8 plaintext)
    pure (magic ++ (pack_length (length encrypted_key) ++ (encrypted_key ++ (nonce ++ ciphertext))))

  -- `TokenCipher.decrypt`; a `UnicodeDecodeError` is a `ValueError`
  unfoldable pub decrypt : KeyManager → Text → Exec Registry Text
  decrypt manager blob = do
    raise_if (ltb (length blob) header_size) (value_error (codes "credential blob is truncated"))
    raise_if (not (text_eq (take 3 blob) magic))
        (value_error (codes "unknown credential blob version"))
    let key_len = unpack_length (drop 3 blob)
    let body = drop header_size blob
    raise_if (ltb (length blob) (header_size + key_len + nonce_size + gcm_tag_size))
        (value_error (codes "credential blob is truncated"))
    let encrypted_key = take key_len body
    let nonce = take nonce_size (drop key_len body)
    let ciphertext = drop nonce_size (drop key_len body)
    data_key ← lift (manager.decrypt_data_key encrypted_key)
    bytes ← lift (
        opened (aesgcm_decrypt data_key nonce ciphertext)
          (value_error (codes "credential blob failed authentication (corrupt)")))
    plaintext ← lift (opened (utf8_decode bytes) (value_error (codes "invalid utf-8")))
    modify (register (some plaintext))
    pure plaintext

  unfoldable pub on_registry : {A : Type 0} → Exec Registry A → M o A
  on_registry method w =
      let (r, secrets) = method w.secrets in
      (r, record w { shared = record w.shared { secrets = secrets } })

  -- `asyncio.to_thread` of a method of the cipher, on the shared registry
  unfoldable pub to_thread : {A : Type 0} → Exec Registry A → M o A
  to_thread method = do await o; on_registry method

  -- `asyncio.to_thread(cipher.encrypt, plaintext)`
  unfoldable pub encrypt_now : Text → M o Text
  encrypt_now plaintext = do
    key_draw ← draw o
    nonce_draw ← draw o
    to_thread (encrypt o.key_manager key_draw nonce_draw plaintext)
