-- ===== src/Scenario/Codec.antt =====
-- Encodings of token payloads and of queries for the concrete broker, and that decoding undoes them.
use credbroker.Common.{
  List, ltb, ap, ◌∙◌, ℕ, zero, suc, ◌/◌, ◌<◌, ◌≤◌, ◌≡◌, refl, Text, Option, none, some, [], ◌∷◌,
  ◌++◌, leb, length, take, drop, take-append, drop-append, text_eq, text_eq_refl, if◌then◌else◌,
  arith,
}
use credbroker.Redis.{second}
use credbroker.World.{Payload, Decoded, expired_signature, rejected, accepted}

abbrev write_text : Option Text → Text → Text
write_text none rest = 0 ∷ rest
write_text (some t) rest = suc (length t) ∷ t ++ rest

abbrev read_text : Text → Option Text × Text
read_text [] = (none, [])
read_text (zero ∷ rest) = (none, rest)
read_text (suc n ∷ rest) = (some (take n rest), drop n rest)

abbrev write_number : Option ℕ → Text → Text
write_number none rest = 0 ∷ rest
write_number (some n) rest = suc n ∷ rest

abbrev read_number : Text → Option ℕ × Text
read_number [] = (none, [])
read_number (zero ∷ rest) = (none, rest)
read_number (suc n ∷ rest) = (some n, rest)

read_text-write_text : (x : Option Text) (rest : Text) → read_text (write_text x rest) ≡ (x, rest)
read_text-write_text none rest = refl
read_text-write_text (some t) rest = rw (take-append, drop-append) refl

read_number-write_number :
    (x : Option ℕ) (rest : Text) → read_number (write_number x rest) ≡ (x, rest)
read_number-write_number none rest = refl
read_number-write_number (some n) rest = refl

-- Pairs of texts, with their number first.
abbrev write_pairs : List (Text × Text) → Text
write_pairs [] = []
write_pairs ((k, v) ∷ ps) = write_text (some k) (write_text (some v) (write_pairs ps))

abbrev or_empty : Option Text → Text
or_empty none = []
or_empty (some t) = t

abbrev read_pairs : ℕ → Text → List (Text × Text)
read_pairs zero t = []
read_pairs (suc n) t =
    let (k, t1) = read_text t in
    let (v, t2) = read_text t1 in (or_empty k, or_empty v) ∷ read_pairs n t2

read_pairs-write_pairs : (ps : List (Text × Text)) → read_pairs (length ps) (write_pairs ps) ≡ ps
read_pairs-write_pairs [] = refl
read_pairs-write_pairs ((k, v) ∷ ps) =
    rw (take-append, drop-append, take-append, drop-append)
      (ap (λ rest. (k, v) ∷ rest) (read_pairs-write_pairs ps))

abbrev pub write_query : List (Text × Text) → Text
write_query ps = length ps ∷ write_pairs ps

abbrev pub read_query : Text → List (Text × Text)
read_query [] = []
read_query (n ∷ t) = read_pairs n t

pub read_query-write_query : (ps : List (Text × Text)) → read_query (write_query ps) ≡ ps
read_query-write_query ps = read_pairs-write_pairs ps

abbrev pub write_payload : Payload → Text → Text
write_payload p key = write_text p.iss (
    write_text p.sub (
      write_text p.jti
        (write_text p.tool (write_text p.scope (write_number p.iat (write_number p.exp []))))))

abbrev read_payload : Text → Payload
read_payload t =
    let (iss, t1) = read_text t in
    let (sub, t2) = read_text t1 in
    let (jti, t3) = read_text t2 in
    let (tool, t4) = read_text t3 in
    let (scope, t5) = read_text t4 in
    let (iat, t6) = read_number t5 in
    let (exp, t7) = read_number t6 in
    record { iss = iss; sub = sub; jti = jti; tool = tool; scope = scope; iat = iat; exp = exp }

read_payload-write_payload : (p : Payload) (key : Text) → read_payload (write_payload p key) ≡ p
read_payload-write_payload p key = simp (read_text-write_text, read_number-write_number)

-- The checks of a decoder: the required claims, the time of issue, the expiry, and the issuer.
abbrev judge :
    Payload → Option Text → Option Text → Option Text → Option ℕ → Option ℕ → Text → ℕ → Decoded
judge p (some iss) (some sub) (some jti) (some iat) (some exp) issuer now =
    if ltb (now / second) iat
    then rejected
    else (if leb exp (now / second)
        then expired_signature
        else (if text_eq iss issuer then accepted p else rejected))
judge p _ _ _ _ _ issuer now = rejected

abbrev pub decode_token : Text → Text → Text → ℕ → Decoded
decode_token token key issuer now =
    let p = read_payload token in judge p p.iss p.sub p.jti p.iat p.exp issuer now

module _ (p : Payload) (private public issuer sub jti : Text) (iat exp now : ℕ)
    (from : p.iss ≡ some issuer) (subject : p.sub ≡ some sub) (id : p.jti ≡ some jti)
    (issued : p.iat ≡ some iat) (expires : p.exp ≡ some exp) where
  decode-judge :
      decode_token (write_payload p private) public issuer now
      ≡ judge p (some issuer) (some sub) (some jti) (some iat) (some exp) issuer now
  decode-judge =
      ap (λ q. judge q q.iss q.sub q.jti q.iat q.exp issuer now)
        (read_payload-write_payload p private)
      ∙ rw (from, subject, id, issued, expires) refl

  pub decode-write :
      iat ≤ now / second
      → now / second < exp
      → decode_token (write_payload p private) public issuer now ≡ accepted p
  decode-write begun alive = decode-judge ∙ rw (text_eq_refl issuer) (ground arith)

  pub decode-expired :
      iat ≤ now / second
      → exp ≤ now / second
      → decode_token (write_payload p private) public issuer now ≡ expired_signature
  decode-expired begun over = decode-judge ∙ ground arith

  pub decode-immature :
      now / second < iat → decode_token (write_payload p private) public issuer now ≡ rejected
  decode-immature early = decode-judge ∙ ground arith
