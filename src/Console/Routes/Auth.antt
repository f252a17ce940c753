-- ===== src/Console/Routes/Auth.antt =====
-- Who is served by the operator's API.
use credbroker.Common.{
  ◌≡◌, ◌≢◌, refl, ap, sym, inl, inr, ◌⊎◌, Text, true, false, ◌&&◌, Option, none, some, [], ◌∷◌,
  Bool, arith, text_eq, text_eq_refl, text_eq→eq, Bool-cases,
}
use credbroker.Console.State.{AppState}
use credbroker.Console.Views.{is_ascii}
use credbroker.Console.Routes.{
  Route, Body, unauthorized, handle, checked_token, require_console_auth, serve,
}
use credbroker.Errors.{Exn}
use credbroker.Exec.{Result, ok, err, ◌>>=◌}
use credbroker.Http.{HttpReply}
use credbroker.World.{World, Outside}

module _ (o : Outside) (state : AppState) where
  open o.redis use {Store}

  -- An answer of 401, or the `TypeError` of a comparison with what is not ASCII.
  abbrev pub Refused : Text → Option Text → Result (HttpReply Body) → Type 0
  Refused expected header r =
      (r ≡ ok unauthorized)
      ⊎ ((token : Text) × (x : Exn) × (header ≡ some token)
          × (is_ascii token && is_ascii expected ≡ false)
          × (r ≡ err x))

  second_plain : (a b : Bool) → a && b ≡ true → b ≡ true
  second_plain a b e = ground arith

  module _ (expected : Text) (rest : World Store → Result (HttpReply Body) × World Store) where
    abbrev pub Guarded : Option Text → Result (HttpReply Body) × World Store → World Store → Type 0
    Guarded header run w =
        ((header ≡ some expected) × (is_ascii expected ≡ true) × (run ≡ rest w))
        ⊎ (((header ≢ some expected) ⊎ (is_ascii expected ≡ false))
            × Refused expected header run.0
            × (run.1 ≡ w))

    turned_away :
        (token : Text) (w : World Store)
        → is_ascii token && is_ascii expected ≡ false
        → (some token ≢ some expected) ⊎ (is_ascii expected ≡ false)
    turned_away token w strange = elim (Bool-cases (is_ascii expected)) [
      | inr e ↦ inr e
      | inl e ↦ inl (λ same. ground (arith, same))
    ]

    other_token : (token : Text) → text_eq token expected ≡ false → some token ≢ some expected
    other_token token differs e =
        let same : text_eq expected expected ≡ true = text_eq_refl expected in cc

    checked_token-Guarded :
        (header : Option Text) (w : World Store)
        → Guarded header (checked_token o expected header rest w) w
    unfolding checked_token ◌>>=◌
    checked_token-Guarded none w = inr (inl (λ e. cc), inl refl, refl)
    checked_token-Guarded (some token) w = elim (Bool-cases (is_ascii token && is_ascii expected)) [
      | inr strange ↦
          rw strange (inr (turned_away token w strange, inr (token, _, refl, strange, refl), refl))
      | inl plain ↦ rw plain (elim (Bool-cases (text_eq token expected)) [
        | inl same ↦ rw same (
            inl (
              ap some (text_eq→eq token expected same),
              second_plain (is_ascii token) _ plain,
              refl,
            ))
        | inr differs ↦ rw differs (inr (inl (other_token token differs), inl refl, refl))
      ])
    ]

    require_console_auth-Guarded :
        (configured : Text) (header : Option Text) (w : World Store)
        → configured ≡ expected
        → expected ≢ []
        → Guarded header (require_console_auth o configured header rest w) w
    unfolding require_console_auth
    require_console_auth-Guarded [] header w same filled = absurd (filled (sym same))
    require_console_auth-Guarded (c ∷ t) header w same filled =
        rw same (checked_token-Guarded header w)

  -- With a console token configured, whichever route a request is for: if its header is the very
  -- token, in ASCII, it is handled; if not, it is turned away before its handler has read or changed
  -- anything, with 401, or, where a character of the header or of the token is not ASCII, by the
  -- exception of the comparison.
  pub serve-Guarded :
      (expected : Text) (header : Option Text) (route : Route) (w : World Store)
      → state.settings.console_token ≡ expected
      → expected ≢ []
      → Guarded expected (handle o state route) header (serve o state header route w) w
  unfolding serve
  serve-Guarded expected header route w configured filled =
      require_console_auth-Guarded expected (handle o state route) state.settings.console_token
        header w configured filled
