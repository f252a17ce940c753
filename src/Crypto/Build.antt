-- ===== src/Crypto/Build.antt =====
-- `AwsKmsKeyManager` and `build_token_cipher` of credbroker/crypto/kms.py. A `TokenCipher` is the key
-- manager that it was made with.
use credbroker.Common.{ℕ, ◌≡◌, ap, Text, Option, none, some, [], ◌∷◌, codes}
use credbroker.Config.{Settings}
use credbroker.Crypto.{Registry, data_key_size, local_key_manager, encrypt, decrypt}
use credbroker.Crypto.RoundTrip.{CipherLaws, WrapLaws, local_key_manager-WrapLaws, decrypt-encrypt}
use credbroker.Errors.{value_error}
use credbroker.Exec.{Result, ok, err, ok-inj, err-ne-ok}
use credbroker.World.{KeyManager, Outside}

-- The client of AWS KMS: GenerateDataKey and Decrypt under a key id.
pub record KmsClient : Type 0 where
  pub generate_data_key : Text → ℕ → Result (Text × Text)
  pub decrypt : Text → Text → Result Text

-- `AwsKmsKeyManager`
abbrev pub aws_key_manager : Text → KmsClient → KeyManager
aws_key_manager key_id client = record {
  generate_data_key = client.generate_data_key key_id;
  decrypt_data_key = client.decrypt key_id;
}

-- What KMS is documented to do: decrypting under a key what was generated under it.
pub record KmsLaws (client : KmsClient) : Type 0 where
  pub decrypt_lem :
      (key_id data_key blob : Text) (r : ℕ)
      → client.generate_data_key key_id r ≡ ok (data_key, blob)
      → client.decrypt key_id blob ≡ ok data_key

module _ (o : Outside) (boto3 : Text → KmsClient) (b64decode : Text → Option Text) where
  with_master : Option Text → Result KeyManager
  with_master none = err (value_error (codes "Incorrect padding"))
  with_master (some master_key) = local_key_manager o master_key

  -- The local key manager, under the configured master key or a random one.
  local_cipher : Text → ℕ → Result KeyManager
  unfolding with_master
  local_cipher [] r = local_key_manager o (o.urandom data_key_size r)
  local_cipher (c ∷ master_b64) r = with_master (b64decode (c ∷ master_b64))

  select_cipher : Settings → ℕ → Text → Result KeyManager
  unfolding local_cipher
  select_cipher settings r [] = local_cipher settings.local_master_key_b64 r
  select_cipher settings r (c ∷ key_id) =
      ok (aws_key_manager (c ∷ key_id) (boto3 settings.aws_region))

  -- `build_token_cipher`; the number is the draw for a random master key
  unfoldable pub build_token_cipher : Settings → ℕ → Result KeyManager
  unfolding select_cipher
  build_token_cipher settings r = select_cipher settings r settings.kms_key_id

  module _ (laws : CipherLaws o) (kms : (region : Text) → KmsLaws (boto3 region)) where
    with_master-WrapLaws :
        (master : Option Text) (manager : KeyManager)
        → with_master master ≡ ok manager
        → WrapLaws manager
    unfolding with_master
    with_master-WrapLaws none manager e = absurd (err-ne-ok e)
    with_master-WrapLaws (some master) manager e =
        local_key_manager-WrapLaws o laws master manager e

    local_cipher-WrapLaws :
        (b64 : Text) (r : ℕ) (manager : KeyManager)
        → local_cipher b64 r ≡ ok manager
        → WrapLaws manager
    unfolding local_cipher
    local_cipher-WrapLaws [] r manager e = local_key_manager-WrapLaws o laws _ manager e
    local_cipher-WrapLaws (c ∷ b64) r manager e = with_master-WrapLaws _ manager e

    select_cipher-WrapLaws :
        (settings : Settings) (r : ℕ) (key_id : Text) (manager : KeyManager)
        → select_cipher settings r key_id ≡ ok manager
        → WrapLaws manager
    unfolding select_cipher
    select_cipher-WrapLaws settings r [] manager e = local_cipher-WrapLaws _ r manager e
    select_cipher-WrapLaws settings r (c ∷ key_id) manager e =
        let aws = aws_key_manager (c ∷ key_id) (boto3 settings.aws_region) in
        let wraps : WrapLaws aws = record {
          unwrap_lem = λ n data_key wrapped g.
              (kms settings.aws_region).decrypt_lem (c ∷ key_id) data_key wrapped n g;
        } in
        rw (ok-inj e) at wraps

    -- Whichever key manager the configuration selects - AWS KMS, a configured master key or a random
    -- one - a cipher that is built at all opens every blob that it has made, to the same text.
    pub build_token_cipher-Opens :
        (settings : Settings) (r key_draw nonce_draw : ℕ) (manager : KeyManager)
        (plaintext blob : Text) (before after : Registry)
        → build_token_cipher settings r ≡ ok manager
        → (encrypt o manager key_draw nonce_draw plaintext before).0 ≡ ok blob
        → (decrypt o manager blob after).0 ≡ ok plaintext
    unfolding build_token_cipher
    build_token_cipher-Opens settings r key_draw nonce_draw manager plaintext blob before after b
          e =
        ap (λ x. x.0)
          (decrypt-encrypt o laws manager key_draw nonce_draw plaintext blob before after
            (select_cipher-WrapLaws settings r settings.kms_key_id manager b) e)
