-- ===== src/Scenario/Tests/Secrets.antt =====
-- The theorems at concrete inputs: the configured cipher and the log filter.
use credbroker.Common.{◌≡◌, refl, Text, none, some, List, [], ◌∷◌, ◌++◌, codes, arith}
use credbroker.Config.{Settings}
use credbroker.Crypto.{encrypt, decrypt}
use credbroker.Crypto.Build.{
  KmsClient, KmsLaws, aws_key_manager, build_token_cipher, build_token_cipher-Opens,
}
use credbroker.Exec.{ok, ◌>>=◌}
use credbroker.Logging.{register}
use credbroker.Logging.{scrub}
use credbroker.Logging.Filter.{LogRecord, filter, exception_part, stack_part}
use credbroker.Logging.Filter.Prints.{filter-Scrubs}
use credbroker.Scenario.{seal, calm, test_settings, replicate}
use credbroker.Scenario.Tests.Parts.{calm-CipherLaws}
use credbroker.World.{KeyManager}

-- A KMS whose wrapped keys are the keys.
abbrev plain_kms : KmsClient
plain_kms = record {
  generate_data_key = λ key_id r. ok (replicate 32 r, replicate 32 r);
  decrypt = λ key_id wrapped. ok wrapped;
}

plain_kms-KmsLaws : KmsLaws plain_kms
plain_kms-KmsLaws = record { decrypt_lem = λ key_id data_key blob r e. ground (arith, e) }

abbrev kms_settings : Settings
kms_settings = record test_settings { kms_key_id = codes "alias/tokens" }

abbrev kms_manager : KeyManager
kms_manager = aws_key_manager (codes "alias/tokens") plain_kms

selects_kms :
    build_token_cipher calm (λ region. plain_kms) (λ b64. some b64) kms_settings 1 ≡ ok kms_manager
unfolding build_token_cipher
selects_kms = refl

abbrev kms_blob : Text
kms_blob =
    codes "CB1"
    ++ (0 ∷ 32 ∷ (replicate 32 5 ++ (replicate 12 6 ++ seal [] [] (codes "refresh-token"))))

encrypts : (encrypt calm kms_manager 5 6 (codes "refresh-token") []).0 ≡ ok kms_blob
unfolding encrypt ◌>>=◌ register
encrypts = refl

build_token_cipher-Opens_example :
    (decrypt calm kms_manager kms_blob []).0 ≡ ok (codes "refresh-token")
build_token_cipher-Opens_example =
    build_token_cipher-Opens calm (λ region. plain_kms) (λ b64. some b64) calm-CipherLaws
      (λ region. plain_kms-KmsLaws) kms_settings 1 5 6 kms_manager (codes "refresh-token") kms_blob
      [] [] selects_kms encrypts

abbrev log_secrets : List Text
log_secrets = codes "refresh-token" ∷ []

-- A record of an exception whose text has the token.
abbrev leaking_record : LogRecord
leaking_record = record {
  message = some (codes "sent refresh-token");
  exc_info = some (some (codes "ValueError: refresh-token"));
  exc_text = none;
  stack_info = none;
}

filter-Scrubs_example :
    ((filter log_secrets leaking_record).message
      ≡ some (scrub log_secrets (codes "sent refresh-token")))
    × (exception_part
          (filter log_secrets leaking_record).exc_text
          (filter log_secrets leaking_record).exc_info
        ≡ scrub log_secrets (codes "ValueError: refresh-token"))
    × (stack_part (filter log_secrets leaking_record).stack_info ≡ scrub log_secrets [])
filter-Scrubs_example = filter-Scrubs log_secrets leaking_record (codes "sent refresh-token") refl
