-- ===== src/Token/ClientAssertion.antt =====
-- internal/token/clientassertion.go: the replay cache and VerifyClientAssertion. The cache and the
-- clock are taken to be configured.
pub mod Replay
use authserver_go.Base.{
  ℕ, String, Bool, true, false, not, ◌||◌, ◌&&◌, Option, none, some, List, [], ◌∷◌, any, contains,
  ◌==◌, ◌!=◌, string_eq, if◌then◌else◌, is_some, nat_beq,
}
use authserver_go.Base.Assoc.{Assoc, lookup, insert, prune}
use authserver_go.Base.Text.{concat, equal_fold}
use authserver_go.Domain.Time.{Time, before, is_zero}

abbrev pub client_assertion_type : String
client_assertion_type = "urn:ietf:params:oauth:client-assertion-type:jwt-bearer"

pub record MemAssertionCache : Type 0 where
  pub seen : Assoc String Time

unfoldable pub cache_key : String → String → String
cache_key client_id jti = concat client_id (concat "|" jti)

-- CheckAndStore, with the reading of the clock.
unfoldable pub check_and_store :
    String → String → Time → Time → MemAssertionCache → Bool × MemAssertionCache
check_and_store client_id jti exp now c =
    let live = prune (λ t. before t now) c.seen in
    let key = cache_key client_id jti in
    if is_some (lookup key live)
    then (false, record { seen = live })
    else (true, record { seen = insert key exp live })

-- What net/url's Parse reports of an audience.
pub record AudienceUrl : Type 0 where
  pub scheme : String
  pub host : String
  pub path : String
  pub raw_query : String
  pub fragment : String

-- The claims of a token that jwt.Parse takes; a missing expiry is the zero time.
pub record AssertionToken : Type 0 where
  pub issuer : String
  pub subject : String
  pub audience : List String
  pub expiration : Time
  pub jwt_id : String

-- What the verifier takes from lestrrat-go/jwx and net/url: the number of keys of a JWK set, the
-- algorithms of a JWS's signatures (`none` for one without protected headers), the claims of a JWT
-- whose signature a set verifies and whose times are valid at a time with a skew, and URLs.
pub record Jwx : Type 0 where
  pub set_len : String → Option ℕ
  pub signature_algs : String → Option (List (Option String))
  pub parse_jwt : String → String → ℕ → Time → Option AssertionToken
  pub parse_url : String → Option AudienceUrl

pub record ClientAssertionParams : Type 0 where
  pub assertion : String
  pub jwks_json : String
  pub expected_issuer : String
  pub expected_subject : String
  pub audience : List String
  pub skew : ℕ

pub data AssertionError : Type 0 where
  empty no_jwks expected_required jwks_invalid jwks_empty jws_invalid no_signature : AssertionError
  no_headers no_alg not_asymmetric parse_failed : AssertionError
  issuer_mismatch subject_mismatch audience_empty audience_mismatch : AssertionError
  exp_required jti_required jti_used : AssertionError

unfoldable pub is_asymmetric_alg : String → Bool
is_asymmetric_alg alg =
    contains
      ("RS256" ∷ "RS384" ∷ "RS512" ∷ "ES256" ∷ "ES384" ∷ "ES512" ∷ "PS256" ∷ "PS384" ∷ "PS512"
        ∷ "EdDSA" ∷ [])
      alg

unfoldable pub same_url : AudienceUrl → AudienceUrl → Bool
same_url u v =
    equal_fold u.scheme v.scheme
    && equal_fold u.host v.host
    && u.path == v.path
    && u.raw_query == v.raw_query
    && u.fragment == v.fragment

-- Two parsed URLs; IsAbs is a scheme that is not empty.
unfoldable pub both_absolute : Option AudienceUrl → Option AudienceUrl → Bool
unfolding same_url
both_absolute none v = false
both_absolute (some u) none = false
both_absolute (some u) (some v) = not (u.scheme == "" || v.scheme == "") && same_url u v

unfoldable pub equal_audience : Jwx → String → String → Bool
unfolding both_absolute
equal_audience jwx a b = a == b || both_absolute (jwx.parse_url a) (jwx.parse_url b)

unfoldable pub any_audience_match : Jwx → List String → List String → Bool
unfolding equal_audience
any_audience_match jwx token_aud [] = true
any_audience_match jwx token_aud (x ∷ xs) =
    any (λ t. any (λ a. equal_audience jwx t a) (x ∷ xs)) token_aud

-- The algorithm of the first signature.
unfoldable pub alg_error : List (Option String) → Option AssertionError
unfolding is_asymmetric_alg
alg_error [] = some no_signature
alg_error (none ∷ sigs) = some no_headers
alg_error (some alg ∷ sigs) =
    if alg == ""
    then some no_alg
    else if not (is_asymmetric_alg alg)
    then some not_asymmetric
    else none

unfoldable pub jws_error : Option (List (Option String)) → Option AssertionError
unfolding alg_error
jws_error none = some jws_invalid
jws_error (some sigs) = alg_error sigs

unfoldable pub envelope_error : Jwx → String → Option ℕ → Option AssertionError
unfolding jws_error
envelope_error jwx assertion none = some jwks_invalid
envelope_error jwx assertion (some n) =
    if nat_beq n 0 then some jwks_empty else jws_error (jwx.signature_algs assertion)

-- VerifyClientAssertion, down to jwt.Parse.
unfoldable pub shape_error : Jwx → ClientAssertionParams → Option AssertionError
unfolding envelope_error
shape_error jwx p =
    if p.assertion == ""
    then some empty
    else if p.jwks_json == ""
    then some no_jwks
    else if p.expected_issuer == "" || p.expected_subject == ""
    then some expected_required
    else envelope_error jwx p.assertion (jwx.set_len p.jwks_json)

unfoldable pub no_audience : List String → Bool
no_audience [] = true
no_audience (a ∷ xs) = false

-- The checks on the claims.
unfoldable pub claims_error : Jwx → ClientAssertionParams → AssertionToken → Option AssertionError
unfolding no_audience any_audience_match
claims_error jwx p t =
    if t.issuer != p.expected_issuer
    then some issuer_mismatch
    else if t.subject != p.expected_subject
    then some subject_mismatch
    else if no_audience t.audience
    then some audience_empty
    else if not (any_audience_match jwx t.audience p.audience)
    then some audience_mismatch
    else if is_zero t.expiration
    then some exp_required
    else if t.jwt_id == ""
    then some jti_required
    else none

pub data Verdict : Type 0 where
  accepted : AssertionToken → Verdict
  refused : AssertionError → Verdict

-- The replay check, the last step.
unfoldable pub burn :
    ClientAssertionParams → AssertionToken → Time → MemAssertionCache → Verdict × MemAssertionCache
burn p t now c =
    let (fresh, c') = check_and_store p.expected_issuer t.jwt_id t.expiration now c in
    if fresh then (accepted t, c') else (refused jti_used, c')

unfoldable pub verify_claims :
    Jwx
    → ClientAssertionParams
    → Option AssertionToken
    → Time
    → MemAssertionCache
    → Verdict × MemAssertionCache
verify_claims jwx p none now c = (refused parse_failed, c)
verify_claims jwx p (some t) now c = elim (claims_error jwx p t) [
  | some e ↦ (refused e, c)
  | none ↦ burn p t now c
]

-- VerifyClientAssertion, with the clock readings of jwt.Parse and of the cache.
unfoldable pub verify_client_assertion :
    Jwx → ClientAssertionParams → Time → Time → MemAssertionCache → Verdict × MemAssertionCache
verify_client_assertion jwx p parsed now c = elim (shape_error jwx p) [
  | some e ↦ (refused e, c)
  | none ↦ verify_claims jwx p (jwx.parse_jwt p.assertion p.jwks_json p.skew parsed) now c
]
