-- ===== src/Logging/Filter.antt =====
-- `SecretRedactionFilter` of credbroker/logging_config.py, and what a handler prints after it.
pub mod Prints
use credbroker.Common.{
  ℕ, zero, suc, ◌≡◌, ◌≢◌, refl, ap, sym, ◌∙◌, inl, inr, Text, Bool, true, false, Option, none, some,
  List, [], ◌∷◌, ◌++◌, codes, text_eq, text_eq→eq, starts_with, length, Bool-cases, if◌then◌else◌,
}
use credbroker.Logging.{redacted, contains, replace, replace_skipping, scrub, scrub_one}

-- A log record: what `getMessage` returns, `none` where it raises; the exception, with what
-- `formatException` returns for it, `none` where that raises; and the texts that are kept.
pub record LogRecord : Type 0 where
  pub message : Option Text
  pub exc_info : Option (Option Text)
  pub exc_text : Option Text
  pub stack_info : Option Text

module _ (secrets : List Text) where
  scrub_message : Text → LogRecord → LogRecord
  scrub_message message r =
      if text_eq (scrub secrets message) message
      then r
      else record r { message = some (scrub secrets message) }

  -- `try: record.exc_text = scrub(formatException(...))`
  format_exception : Option Text → LogRecord → LogRecord
  format_exception none r = record r { exc_info = none }
  format_exception (some text) r = record r { exc_text = some (scrub secrets text) }

  scrub_exception : Option (Option Text) → Option Text → LogRecord → LogRecord
  unfolding format_exception
  scrub_exception (some formatted) none r = format_exception formatted r
  scrub_exception (some formatted) (some []) r = format_exception formatted r
  scrub_exception exc_info (some (c ∷ text)) r = record r {
    exc_text = some (scrub secrets (c ∷ text));
  }
  scrub_exception none exc_text r = r

  scrub_stack : Option Text → LogRecord → LogRecord
  scrub_stack none r = r
  scrub_stack (some []) r = r
  scrub_stack (some (c ∷ text)) r = record r { stack_info = some (scrub secrets (c ∷ text)) }

  filter_message : Option Text → LogRecord → LogRecord
  unfolding scrub_message scrub_exception scrub_stack
  filter_message none r = r
  filter_message (some message) r =
      scrub_stack r.stack_info (scrub_exception r.exc_info r.exc_text (scrub_message message r))

  -- `filter`, which always lets the record pass
  unfoldable pub filter : LogRecord → LogRecord
  unfolding filter_message
  filter r = filter_message r.message r

-- What `Formatter.format` appends for the exception: the text that is kept, or else the formatted one.
abbrev pub exception_part : Option Text → Option (Option Text) → Text
exception_part (some (c ∷ text)) exc_info = c ∷ text
exception_part exc_text (some (some text)) = text
exception_part exc_text _ = []

abbrev pub stack_part : Option Text → Text
stack_part none = []
stack_part (some text) = text
