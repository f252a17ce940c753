-- ===== src/Logging/Setup.antt =====
-- `configure_logging` of credbroker/logging_config.py, on the root logger.
use credbroker.Common.{
  ℕ, ◌≡◌, refl, ap, ◌∙◌, inl, inr, Text, Bool, true, false, ◌&&◌, List, [], ◌∷◌, ◌++◌, map, codes,
  Bool-cases, if◌then◌else◌,
}

-- A filter of a handler: a `SecretRedactionFilter`, or any other object.
pub data HandlerFilter : Type 0 where
  redaction : HandlerFilter
  other_filter : ℕ → HandlerFilter

pub record Handler : Type 0 where
  pub formatter : Text
  pub filters : List HandlerFilter

pub record RootLogger : Type 0 where
  pub level : ℕ
  pub handlers : List Handler

-- `logging.StreamHandler()`, with its formatter
abbrev stream_handler : Handler
stream_handler = record {
  formatter = codes "%(asctime)s %(levelname)s %(name)s %(message)s";
  filters = [];
}

abbrev with_handler : List Handler → List Handler
with_handler [] = stream_handler ∷ []
with_handler (h ∷ handlers) = h ∷ handlers

-- `any(isinstance(f, SecretRedactionFilter) for f in filters)`
abbrev redacts : List HandlerFilter → Bool
redacts [] = false
redacts (redaction ∷ filters) = true
redacts (other_filter n ∷ filters) = redacts filters

abbrev add_redaction : Handler → Handler
add_redaction h =
    if redacts h.filters then h else record h { filters = h.filters ++ redaction ∷ [] }

-- `configure_logging`
abbrev configure_logging : ℕ → RootLogger → RootLogger
configure_logging level root = record {
  level = level;
  handlers = map add_redaction (with_handler root.handlers);
}

redacts-append : (filters : List HandlerFilter) → redacts (filters ++ redaction ∷ []) ≡ true
redacts-append [] = refl
redacts-append (redaction ∷ filters) = refl
redacts-append (other_filter n ∷ filters) = redacts-append filters

redacts-add_redaction : (h : Handler) → redacts (add_redaction h).filters ≡ true
redacts-add_redaction h = elim (Bool-cases (redacts h.filters)) [
  | inl e ↦ rw (e) e
  | inr e ↦ rw (e) (redacts-append h.filters)
]

add_redaction-again : (h : Handler) → add_redaction (add_redaction h) ≡ add_redaction h
add_redaction-again h = rw (redacts-add_redaction h) refl

map-add_redaction :
    (hs : List Handler) → map add_redaction (map add_redaction hs) ≡ map add_redaction hs
map-add_redaction [] = refl
map-add_redaction (h ∷ hs) = rw (add_redaction-again h, map-add_redaction hs) refl

with_handler-filled :
    (hs : List Handler)
    → with_handler (map add_redaction (with_handler hs)) ≡ map add_redaction (with_handler hs)
with_handler-filled [] = refl
with_handler-filled (h ∷ hs) = refl

abbrev all_redact : List Handler → Bool
all_redact [] = true
all_redact (h ∷ handlers) = redacts h.filters && all_redact handlers

all_redact-map : (hs : List Handler) → all_redact (map add_redaction hs) ≡ true
all_redact-map [] = refl
all_redact-map (h ∷ hs) = rw (redacts-add_redaction h) (all_redact-map hs)

-- Whatever handlers the root logger has, after `configure_logging` each has the redaction filter.
all_redact-configure_logging :
    (level : ℕ) (root : RootLogger) → all_redact (configure_logging level root).handlers ≡ true
all_redact-configure_logging level root = all_redact-map (with_handler root.handlers)

-- Configuring the logging again, for any level, only sets the level: no handler gets a second filter.
configure_logging-again :
    (level again : ℕ) (root : RootLogger)
    → configure_logging again (configure_logging level root)
      ≡ record (configure_logging level root) { level = again }
configure_logging-again level again root =
    ap (λ hs. record { level = again; handlers = hs })
      (ap (map add_redaction) (with_handler-filled root.handlers)
        ∙ map-add_redaction (with_handler root.handlers))
