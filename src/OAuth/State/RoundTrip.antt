-- ===== src/OAuth/State/RoundTrip.antt =====
-- A state parameter that was minted is verified until it expires.
use credbroker.Common.{
  ℕ, ◌+◌, ◌*◌, ◌/◌, ◌≤◌, ◌≡◌, refl, ap, sym, ◌∙◌, Text, false, Option, none, some, List, [], ◌∷◌,
  ◌++◌, decimal, decimal_value, decimal_value-decimal, is_negative-decimal, has, has-decimal, split,
  split-piece, split-last, text_eq, text_eq_refl, text_eq→eq, ltb, if◌then◌else◌, Bool-cases, inl,
  inr, arith,
}
use credbroker.Config.{Settings}
use credbroker.Exec.{ok, err, ◌>>=◌}
use credbroker.OAuth.State.{
  bar, sign, state_payload, signed_state, make_state, check_expiry, check_parts, check_decoded,
  verify_state, expired_state,
}
use credbroker.Redis.{second}
use credbroker.World.{World, Outside, draw, utcnow}

-- What base64, `int`, `secrets` and `hmac` are documented to do: decoding undoes encoding, `int` reads
-- decimal digits, and hexadecimal digests have no "|".
pub record StateLaws (o : Outside) : Type 0 where
  pub base64_lem : (t : Text) → o.base64_decode (o.base64_encode t) ≡ some t
  pub int_lem : (n : ℕ) → o.int_text (decimal n) ≡ some (decimal n)
  pub nonce_lem : (r : ℕ) → has bar (o.token_hex r) ≡ false
  pub digest_lem : (key t : Text) → has bar (o.hmac_sha256 key t) ≡ false

module _ (o : Outside) (laws : StateLaws o) (settings : Settings) where
  open o.redis use {Store}

  split-signed :
      (user_id nonce : Text) (n : ℕ)
      → has bar user_id ≡ false
      → has bar nonce ≡ false
      → split bar (signed_state o settings user_id (decimal n) nonce)
        ≡ user_id
          ∷ decimal n
          ∷ nonce
          ∷ sign o settings.oauth_state_secret (state_payload o user_id (decimal n) nonce)
          ∷ []
  split-signed user_id nonce n hu hn =
      let digest = sign o settings.oauth_state_secret (state_payload o user_id (decimal n) nonce) in
      split-piece user_id bar (decimal n ++ bar ∷ (nonce ++ bar ∷ digest)) hu
      ∙ ap (λ l. user_id ∷ l)
          (split-piece (decimal n) bar (nonce ++ bar ∷ digest) (has-decimal bar n (omega arith)))
      ∙ ap (λ l. user_id ∷ decimal n ∷ l) (split-piece nonce bar digest hn)
      ∙ ap (λ l. user_id ∷ decimal n ∷ nonce ∷ l) (split-last digest bar (laws.digest_lem _ _))

  verify-signed :
      (user_id nonce : Text) (n now : ℕ)
      → has bar user_id ≡ false
      → has bar nonce ≡ false
      → verify_state o settings now
          (o.base64_encode (signed_state o settings user_id (decimal n) nonce))
        ≡ (if ltb (n * second) now then err expired_state else ok user_id)
  unfolding verify_state
  verify-signed user_id nonce n now hu hn =
      rw
        (
          laws.base64_lem,
          split-signed user_id nonce n hu hn,
          text_eq_refl,
          laws.int_lem,
          decimal_value-decimal,
          is_negative-decimal,
        )
        refl

  -- A state minted for a user verifies as that user until its time to live has passed since the second
  -- in which it was minted, and is refused as expired afterwards.
  pub verify_state-make_state :
      (user_id state : Text) (w : World Store) (now : ℕ)
      → (make_state o settings user_id w).0 ≡ ok state
      → verify_state o settings now state ≡ (
          if ltb ((w.now / second + settings.oauth_state_ttl_seconds) * second) now
          then err expired_state
          else ok user_id)
  unfolding make_state ◌>>=◌ draw utcnow
  verify_state-make_state user_id state w now = elim (Bool-cases (has bar user_id)) [
    | inl barred ↦ rw barred (λ e. absurd (ground arith))
    | inr clean ↦ rw clean (λ e.
        let expiry = w.now / second + settings.oauth_state_ttl_seconds in
        let nonce = o.token_hex (o.random w.drawn) in
        let minted : o.base64_encode (signed_state o settings user_id (decimal expiry) nonce)
            ≡ state =
          ground arith in
        ap (verify_state o settings now) (sym minted)
        ∙ verify-signed user_id nonce expiry now clean (laws.nonce_lem (o.random w.drawn)))
  ]

module _ (o : Outside) (settings : Settings) (now : ℕ) where
  -- What an accepted state is made of.
  pub record Genuine (state user_id : Text) : Type 0 where
    pub text : Text
    pub expiry : Text
    pub nonce : Text
    pub digits : Text
    pub decoded : o.base64_decode state ≡ some text
    pub parts :
        split bar text
        ≡ user_id
          ∷ expiry
          ∷ nonce
          ∷ sign o settings.oauth_state_secret (state_payload o user_id expiry nonce)
          ∷ []
    pub number : o.int_text expiry ≡ some digits
    pub in_time : now ≤ decimal_value digits * second

  abbrev Expiring : Text → Text → Text → Type 0
  Expiring user_id accepted expiry =
      (accepted ≡ user_id)
      × ((digits : Text) × (o.int_text expiry ≡ some digits)
          × (now ≤ decimal_value digits * second))

  check_expiry-Expiring :
      (user_id accepted expiry : Text) (x : Option Text)
      → o.int_text expiry ≡ x
      → check_expiry o now user_id x ≡ ok accepted
      → Expiring user_id accepted expiry
  unfolding check_expiry
  check_expiry-Expiring user_id accepted expiry none i e = absurd (ground arith)
  check_expiry-Expiring user_id accepted expiry (some digits) i e =
      (ground arith, (digits, i, ground arith))

  abbrev Signed : Text → List Text → Type 0
  Signed accepted parts =
      (expiry : Text) × (nonce : Text) × (digits : Text) × (parts
        ≡ accepted
          ∷ expiry
          ∷ nonce
          ∷ sign o settings.oauth_state_secret (state_payload o accepted expiry nonce)
          ∷ [])
      × (o.int_text expiry ≡ some digits)
      × (now ≤ decimal_value digits * second)

  check_parts-Signed :
      (accepted : Text) (parts : List Text)
      → check_parts o settings now parts ≡ ok accepted
      → Signed accepted parts
  unfolding check_parts
  check_parts-Signed accepted (user_id ∷ expiry ∷ nonce ∷ signature ∷ []) =
      let digest = sign o settings.oauth_state_secret (state_payload o user_id expiry nonce) in
      elim (Bool-cases (text_eq signature digest)) [
        | inr differs ↦ rw differs (λ e. absurd (ground arith))
        | inl same ↦ rw same (λ e.
            let (this, (digits, number, in_time)) =
              check_expiry-Expiring user_id accepted expiry (o.int_text expiry) refl e in
            let genuine = text_eq→eq signature digest same in
            (
              expiry,
              nonce,
              digits,
              ap (λ s. user_id ∷ expiry ∷ nonce ∷ s ∷ []) genuine
                  ∙ ap
                      (λ u.
                        u
                        ∷ expiry
                        ∷ nonce
                        ∷ sign o settings.oauth_state_secret (state_payload o u expiry nonce)
                        ∷ [])
                      (sym this),
              number,
              in_time,
            ))
      ]
  check_parts-Signed accepted parts = λ e. absurd (ground arith)

  check_decoded-Genuine :
      (state accepted : Text) (x : Option Text)
      → o.base64_decode state ≡ x
      → check_decoded o settings now x ≡ ok accepted
      → Genuine state accepted
  unfolding check_decoded
  check_decoded-Genuine state accepted none d e = absurd (ground arith)
  check_decoded-Genuine state accepted (some text) d e =
      let (expiry, nonce, digits, parts, number, in_time) =
        check_parts-Signed accepted (split bar text) e in
      record {
        text = text;
        expiry = expiry;
        nonce = nonce;
        digits = digits;
        decoded = d;
        parts = parts;
        number = number;
        in_time = in_time;
      }

  pub verify_state-Genuine :
      (state user_id : Text)
      → verify_state o settings now state ≡ ok user_id
      → Genuine state user_id
  unfolding verify_state
  verify_state-Genuine state user_id e =
      check_decoded-Genuine state user_id (o.base64_decode state) refl e
