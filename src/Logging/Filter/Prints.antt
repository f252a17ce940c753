-- ===== src/Logging/Filter/Prints.antt =====
-- What is printed of a record after the filter is scrubbed.
use credbroker.Common.{
  ℕ, ◌≡◌, refl, ap, sym, ◌∙◌, inl, inr, Text, Option, none, some, List, [], ◌∷◌, text_eq,
  text_eq→eq, starts_with, Bool-cases,
}
use credbroker.Logging.{redacted, contains, replace, replace_skipping, scrub, scrub_one}
use credbroker.Logging.Filter.{
  LogRecord, scrub_message, format_exception, scrub_exception, scrub_stack, filter_message, filter,
  exception_part, stack_part,
}

-- A text that is not empty.
abbrev Filled : Text → Type 0
Filled text = (c : ℕ) × (rest : Text) × (text ≡ c ∷ rest)

replace-Filled : (secret : Text) (c : ℕ) (text : Text) → Filled (replace secret redacted (c ∷ text))
unfolding replace replace_skipping
replace-Filled secret c text = elim (Bool-cases (starts_with (c ∷ text) secret)) [
  | inl h ↦ rw h (_, _, refl)
  | inr h ↦ rw h (c, _, refl)
]

scrub_one-Filled : (text secret : Text) → Filled text → Filled (scrub_one text secret)
scrub_one-Filled text secret (c, rest, e) = elim (Bool-cases (contains secret text)) [
  | inl h ↦ rw (h, e) (replace-Filled secret c rest)
  | inr h ↦ rw h (c, rest, e)
]

scrub-Filled : (secrets : List Text) (text : Text) → Filled text → Filled (scrub secrets text)
unfolding scrub
scrub-Filled [] text h = h
scrub-Filled (s ∷ secrets) text h =
    scrub-Filled secrets (scrub_one text s) (scrub_one-Filled text s h)

scrub_one-nil : (secret : Text) → scrub_one [] secret ≡ []
unfolding replace replace_skipping
scrub_one-nil secret = elim (Bool-cases (contains secret [])) [
  | inl h ↦ rw h refl
  | inr h ↦ rw h refl
]

scrub-nil : (secrets : List Text) → scrub secrets [] ≡ []
unfolding scrub
scrub-nil [] = refl
scrub-nil (s ∷ secrets) = rw (scrub_one-nil s) (scrub-nil secrets)

kept_part :
    (text : Text) (exc_info : Option (Option Text))
    → Filled text
    → exception_part (some text) exc_info ≡ text
kept_part text exc_info (c, rest, e) = rw e refl

module _ (secrets : List Text) where
  -- A kept text is printed scrubbed, and is not empty, so nothing is formatted again.
  kept :
      (c : ℕ) (text : Text) (exc_info : Option (Option Text))
      → exception_part (some (scrub secrets (c ∷ text))) exc_info ≡ scrub secrets (c ∷ text)
  kept c text exc_info = kept_part _ exc_info (scrub-Filled secrets (c ∷ text) (c, text, refl))

  formatted_part :
      (text : Text)
      → exception_part (some (scrub secrets text)) (some (some text)) ≡ scrub secrets text
  formatted_part [] = rw (scrub-nil secrets) refl
  formatted_part (c ∷ text) = kept c text (some (some (c ∷ text)))

  -- A part that is read from the fields of a record.
  part_of :
      (r : LogRecord) (exc_info : Option (Option Text)) (exc_text : Option Text)
      → r.exc_info ≡ exc_info
      → r.exc_text ≡ exc_text
      → exception_part r.exc_text r.exc_info ≡ exception_part exc_text exc_info
  part_of r exc_info exc_text i x =
      ap (λ t. exception_part t r.exc_info) x ∙ ap (exception_part exc_text) i

  scrub_exception-part :
      (exc_info : Option (Option Text)) (exc_text : Option Text) (r : LogRecord)
      → r.exc_info ≡ exc_info
      → r.exc_text ≡ exc_text
      → exception_part
          (scrub_exception secrets exc_info exc_text r).exc_text
          (scrub_exception secrets exc_info exc_text r).exc_info
        ≡ scrub secrets (exception_part exc_text exc_info)
  unfolding scrub_exception format_exception
  scrub_exception-part (some none) none r i x =
      ap (λ t. exception_part t none) x ∙ sym (scrub-nil secrets)
  scrub_exception-part (some none) (some []) r i x =
      ap (λ t. exception_part t none) x ∙ sym (scrub-nil secrets)
  scrub_exception-part (some (some text)) none r i x =
      ap (exception_part (some (scrub secrets text))) i ∙ formatted_part text
  scrub_exception-part (some (some text)) (some []) r i x =
      ap (exception_part (some (scrub secrets text))) i ∙ formatted_part text
  scrub_exception-part (some formatted) (some (c ∷ text)) r i x = kept c text r.exc_info
  scrub_exception-part none (some (c ∷ text)) r i x = kept c text r.exc_info
  scrub_exception-part none none r i x = part_of r none none i x ∙ sym (scrub-nil secrets)
  scrub_exception-part none (some []) r i x = part_of r none (some []) i x ∙ sym (scrub-nil secrets)

  -- The other parts are left alone by each step.
  scrub_exception-others :
      (exc_info : Option (Option Text)) (exc_text : Option Text) (r : LogRecord)
      → ((scrub_exception secrets exc_info exc_text r).message ≡ r.message)
        × ((scrub_exception secrets exc_info exc_text r).stack_info ≡ r.stack_info)
  unfolding scrub_exception format_exception
  scrub_exception-others (some none) none r = (refl, refl)
  scrub_exception-others (some none) (some []) r = (refl, refl)
  scrub_exception-others (some (some text)) none r = (refl, refl)
  scrub_exception-others (some (some text)) (some []) r = (refl, refl)
  scrub_exception-others (some formatted) (some (c ∷ text)) r = (refl, refl)
  scrub_exception-others none (some (c ∷ text)) r = (refl, refl)
  scrub_exception-others none none r = (refl, refl)
  scrub_exception-others none (some []) r = (refl, refl)

  scrub_message-lem :
      (message : Text) (r : LogRecord)
      → r.message ≡ some message
      → ((scrub_message secrets message r).message ≡ some (scrub secrets message))
        × ((scrub_message secrets message r).exc_info ≡ r.exc_info)
        × ((scrub_message secrets message r).exc_text ≡ r.exc_text)
        × ((scrub_message secrets message r).stack_info ≡ r.stack_info)
  unfolding scrub_message
  scrub_message-lem message r m = elim (Bool-cases (text_eq (scrub secrets message) message)) [
    | inl same ↦
        rw same
          (m ∙ ap some (sym (text_eq→eq (scrub secrets message) message same)), refl, refl, refl)
    | inr differs ↦ rw differs (refl, refl, refl, refl)
  ]

  scrub_stack-lem :
      (stack : Option Text) (r : LogRecord)
      → r.stack_info ≡ stack
      → (stack_part (scrub_stack secrets stack r).stack_info ≡ scrub secrets (stack_part stack))
        × ((scrub_stack secrets stack r).message ≡ r.message)
        × ((scrub_stack secrets stack r).exc_info ≡ r.exc_info)
        × ((scrub_stack secrets stack r).exc_text ≡ r.exc_text)
  unfolding scrub_stack
  scrub_stack-lem none r e = (ap stack_part e ∙ sym (scrub-nil secrets), refl, refl, refl)
  scrub_stack-lem (some []) r e = (ap stack_part e ∙ sym (scrub-nil secrets), refl, refl, refl)
  scrub_stack-lem (some (c ∷ text)) r e = (refl, refl, refl, refl)

  -- Of a record whose message can be made, a handler prints after the filter what it would have
  -- printed before, scrubbed, in all three parts: the message, the traceback - kept or formatted, and
  -- nothing in its place where it cannot be formatted - and the stack.
  pub filter-Scrubs :
      (r : LogRecord) (message : Text)
      → r.message ≡ some message
      → ((filter secrets r).message ≡ some (scrub secrets message))
        × (exception_part (filter secrets r).exc_text (filter secrets r).exc_info
            ≡ scrub secrets (exception_part r.exc_text r.exc_info))
        × (stack_part (filter secrets r).stack_info ≡ scrub secrets (stack_part r.stack_info))
  unfolding filter filter_message
  filter-Scrubs r message m =
      let r1 = scrub_message secrets message r in
      let (m1, i1, x1, k1) = scrub_message-lem message r m in
      let r2 = scrub_exception secrets r.exc_info r.exc_text r1 in
      let (m2, k2) = scrub_exception-others r.exc_info r.exc_text r1 in
      let (k3, m3, i3, x3) = scrub_stack-lem r.stack_info r2 (k2 ∙ k1) in
      let parts : filter_message secrets r.message r ≡ scrub_stack secrets r.stack_info r2 =
        ap (λ t. filter_message secrets t r) m in
      (
        ap (λ q. q.message) parts ∙ m3 ∙ m2 ∙ m1,
        ap (λ q. exception_part q.exc_text q.exc_info) parts
            ∙ part_of (scrub_stack secrets r.stack_info r2) r2.exc_info r2.exc_text i3 x3
            ∙ scrub_exception-part r.exc_info r.exc_text r1 i1 x1,
        ap (λ q. stack_part q.stack_info) parts ∙ k3,
      )
