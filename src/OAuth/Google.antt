-- ===== src/OAuth/Google.antt =====
-- credbroker/oauth/google.py: the requests to the token endpoint and the reading of its answers.
use credbroker.Common.{
  ℕ, Text, Bool, false, ◌&&◌, ◌||◌, Option, none, some, List, [], ◌∷◌, ◌++◌, codes, decimal,
  decimal_value, is_negative, ltb, leb, ◌==◌, if◌then◌else◌,
}
use credbroker.Config.{Settings}
use credbroker.Errors.{broker, other, oauth_flow}
use credbroker.Exec.{Result, ok, err, pure, lift, raise_if, ◌>>=◌, ◌>>◌}
use credbroker.Json.{Json, Fields, null, bool, num, str, arr, obj, nil, end, lookup}
use credbroker.Logging.{register_secret}
use credbroker.Tools.{int_of, send}
use credbroker.World.{Outside, Response, M, emit, refreshed}

pub record TokenResponse : Type 0 where
  pub access_token : Text
  pub refresh_token : Option Text
  pub expires_in : Option ℕ
  pub scopes : List Text

abbrev google_token_url : Text
google_token_url = codes "https://oauth2.googleapis.com/token"

-- `_redirect_uri`
abbrev pub redirect_uri : Settings → Text
redirect_uri settings = settings.public_base_url ++ codes "/oauth/google/callback"

abbrev google_auth_url : Text
google_auth_url = codes "https://accounts.google.com/o/oauth2/v2/auth"

-- `" ".join(DEFAULT_SCOPES)`
abbrev default_scopes : Text
default_scopes = codes "https://www.googleapis.com/auth/drive.readonly"

-- The parameters of the consent screen.
abbrev pub authorize_params : Settings → Text → List (Text × Text)
authorize_params settings state =
    (codes "client_id", settings.google_client_id)
    ∷ (codes "redirect_uri", redirect_uri settings)
    ∷ (codes "response_type", codes "code")
    ∷ (codes "scope", default_scopes)
    ∷ (codes "state", state)
    ∷ (codes "access_type", codes "offline")
    ∷ (codes "prompt", codes "consent")
    ∷ []

abbrev is_space : ℕ → Bool
is_space c = c == 32 || (leb 9 c && leb c 13) || (leb 28 c && leb c 31)

abbrev word_before : Text → List Text → List Text
word_before [] words = words
word_before (c ∷ w) words = (c ∷ w) ∷ words

-- `text.split()`, on ASCII white space; the first argument is the word that is being read
split_words : Text → Text → List Text
split_words word [] = word_before word []
split_words word (c ∷ text) =
    let cut = word_before word (split_words [] text) in
    let longer = split_words (word ++ c ∷ []) text in if is_space c then cut else longer

-- the body of the response as a `dict`; `.get` of anything else is an `AttributeError`
payload_of : Option Json → Result Fields
payload_of none =
    err (broker oauth_flow (codes "google token endpoint returned a non-JSON response"))
payload_of (some (obj fs)) = ok fs
payload_of (some _) = err (other (codes "object has no attribute 'get'"))

access_token_of : Option Json → Result Text
access_token_of (some (str (c ∷ t))) = ok (c ∷ t)
access_token_of _ =
    err (broker oauth_flow (codes "google token endpoint response is missing access_token"))

-- `payload.get("refresh_token") or None`; a true value that is no text fails in `register_secret`
refresh_token_of : Option Json → Result (Option Text)
refresh_token_of none = ok none
refresh_token_of (some null) = ok none
refresh_token_of (some (bool false)) = ok none
refresh_token_of (some (num n)) = if n == 0 then ok none else err (other (codes "TypeError"))
refresh_token_of (some (str [])) = ok none
refresh_token_of (some (str (c ∷ t))) = ok (some (c ∷ t))
refresh_token_of (some (arr nil)) = ok none
refresh_token_of (some (obj end)) = ok none
refresh_token_of (some _) = err (other (codes "TypeError"))

module _ (o : Outside) where
  -- `build_authorize_url`
  abbrev pub build_authorize_url : Settings → Text → Text
  build_authorize_url settings state =
      google_auth_url ++ (codes "?" ++ o.urlencode (authorize_params settings state))

  -- A negative lifetime is cut to 0, so that the token counts as expired from the start.
  expires_in_of : Option Json → Result (Option ℕ)
  expires_in_of none = ok none
  expires_in_of (some null) = ok none
  expires_in_of (some x) = elim (int_of o x) [
    | ok digits ↦ ok (some (if is_negative digits then 0 else decimal_value digits))
    | err e ↦ err e
  ]

  scopes_of : Option Json → List Text
  unfolding split_words
  scopes_of none = []
  scopes_of (some (str t)) = split_words [] t
  scopes_of (some x) = split_words [] (o.str_of x)

  -- `_parse_token_response`
  unfoldable pub parse_token_response : Response → M o TokenResponse
  unfolding payload_of access_token_of refresh_token_of expires_in_of scopes_of
  parse_token_response response = do
    raise_if (ltb response.status_code 200 || leb 300 response.status_code) (
        broker oauth_flow
          (codes "google token endpoint returned HTTP " ++ decimal response.status_code))
    payload ← lift (payload_of response.json)
    access ← lift (access_token_of (lookup (codes "access_token") payload))
    register_secret o (some access)
    refresh ← lift (refresh_token_of (lookup (codes "refresh_token") payload))
    register_secret o refresh
    expires ← lift (expires_in_of (lookup (codes "expires_in") payload))
    pure (record {
      access_token = access;
      refresh_token = refresh;
      expires_in = expires;
      scopes = scopes_of (lookup (codes "scope") payload);
    })

  -- `exchange_code`
  unfoldable pub exchange_code : Settings → Text → M o TokenResponse
  exchange_code settings code = do
    response ← send o (record {
      url = google_token_url;
      params =
          (codes "client_id", settings.google_client_id)
          ∷ (codes "client_secret", settings.google_client_secret)
          ∷ (codes "code", code)
          ∷ (codes "grant_type", codes "authorization_code")
          ∷ (codes "redirect_uri", redirect_uri settings)
          ∷ [];
      bearer = none;
    })
    parse_token_response response

  -- `refresh_access_token`
  unfoldable pub refresh_access_token : Settings → Text → M o TokenResponse
  refresh_access_token settings refresh_token = do
    emit o refreshed
    response ← send o (record {
      url = google_token_url;
      params =
          (codes "client_id", settings.google_client_id)
          ∷ (codes "client_secret", settings.google_client_secret)
          ∷ (codes "refresh_token", refresh_token)
          ∷ (codes "grant_type", codes "refresh_token")
          ∷ [];
      bearer = none;
    })
    parse_token_response response
