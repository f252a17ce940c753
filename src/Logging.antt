-- ===== src/Logging.antt =====
-- The secret registry and `scrub` of credbroker/logging_config.py. The registry, a set in the
-- source, is the list of its members in the order in which `scrub` meets them.
pub mod Filter
pub mod Setup
use credbroker.Common.{
  ℕ, zero, suc, ◌-◌, ◌++◌, Text, Bool, false, ◌||◌, Option, none, some, List, [], ◌∷◌, text_eq,
  starts_with, length, codes, ltb, if◌then◌else◌,
}
use mathlib.Core.List.{foldl}
use credbroker.World.{Outside, M}
use credbroker.Exec.{modify}

abbrev pub redacted : Text
redacted = codes "[REDACTED]"

abbrev min_secret_len : ℕ
min_secret_len = 8

pub mem : Text → List Text → Bool
mem t [] = false
mem t (x ∷ xs) = text_eq x t || mem t xs

-- `register_secret` of a `str` or `None`, on the registry
unfoldable pub register : Option Text → List Text → List Text
unfolding mem
register none secrets = secrets
register (some value) secrets =
    if ltb (length value) min_secret_len
    then secrets
    else if mem value secrets
    then secrets
    else value ∷ secrets

-- `clear_registry`
abbrev clear_registry : List Text → List Text
clear_registry secrets = []

-- `secret in text`
unfoldable pub contains : Text → Text → Bool
contains secret [] = starts_with [] secret
contains secret (c ∷ text) = starts_with (c ∷ text) secret || contains secret text

-- `text.replace(secret, new)` from the left; the number counts the rest of a match to be skipped.
replace_skipping : Text → Text → ℕ → Text → Text
replace_skipping secret new skip [] = []
replace_skipping secret new (suc skip) (c ∷ text) = replace_skipping secret new skip text
replace_skipping secret new zero (c ∷ text) =
    let matched = new ++ replace_skipping secret new (length secret - 1) text in
    let plain = c ∷ replace_skipping secret new zero text in
    if starts_with (c ∷ text) secret then matched else plain

unfoldable pub replace : Text → Text → Text → Text
unfolding replace_skipping
replace secret new text = replace_skipping secret new zero text

abbrev scrub_one : Text → Text → Text
scrub_one text secret = if contains secret text then replace secret redacted text else text

-- `scrub`
unfoldable pub scrub : List Text → Text → Text
unfolding contains replace
scrub secrets text = foldl scrub_one text secrets

module _ (o : Outside) where
  -- `register_secret` on the shared registry
  unfoldable pub register_secret : Option Text → M o (Unit {0})
  unfolding register
  register_secret value =
      modify λ w. record w { shared = record w.shared { secrets = register value w.secrets } }
