-- ===== src/Oidc/ReturnUrl.antt =====
-- internal/oidc/login.go: validateReturnURL, the guard against open redirects.
use authserver_go.Base.{
  String, ◌≡◌, true, false, not, ◌&&◌, ◌||◌, Option, none, some, List, ◌==◌, ◌!=◌, string_eq,
  eq_iff, arith, contains, if◌then◌else◌, inl, inr, Bool-cases, Option-cases,
}
use authserver_go.Base.Text.{has_prefix}

-- What net/url's Parse reports of an address, with its String.
pub record Url : Type 0 where
  pub scheme : String
  pub host : String
  pub path : String
  pub text : String

abbrev pub home_path : String
home_path = "/"

-- The addresses that the handler is configured with.
pub record Paths : Type 0 where
  pub parse : String → Option Url
  pub issuer_url : String
  pub authorize_path : String
  pub account_paths : List String

-- An absolute address: its origin is that of the issuer.
unfoldable pub same_origin : Url → Option Url → Option String
same_origin u none = none
same_origin u (some iss) =
    if u.scheme != iss.scheme || u.host != iss.host then none else some u.text

-- A relative one.
unfoldable pub local_path : Paths → String → Url → Option String
local_path p raw u =
    if not (has_prefix "/" raw) || has_prefix "//" raw
    then none
    else if u.path == home_path || (u.path != "" && contains p.account_paths u.path)
    then some raw
    else if not (has_prefix p.authorize_path raw) && not (has_prefix "/logout" raw)
    then none
    else some raw

unfoldable pub checked_url : Paths → String → Option Url → Option String
unfolding same_origin local_path
checked_url p raw none = none
checked_url p raw (some u) =
    if u.scheme != "" then same_origin u (p.parse p.issuer_url) else local_path p raw u

-- `none` is an error; an empty address is answered by itself.
unfoldable pub validate_return_url : Paths → String → Option String
unfolding checked_url
validate_return_url p raw = if raw == "" then some "" else checked_url p raw (p.parse raw)

-- Where a sign-in may send the browser: nowhere, to an address with the issuer's scheme and host, or
-- to a path on the same host, which begins with one slash and is a known page.
pub data Destination (p : Paths) (raw : String) : String → Type 0 where
  nowhere : {t : String} → t ≡ "" → Destination p raw t
  own_origin :
      {t : String} (u iss : Url)
      → p.parse raw ≡ some u
      → p.parse p.issuer_url ≡ some iss
      → u.scheme ≡ iss.scheme
      → u.host ≡ iss.host
      → t ≡ u.text
      → Destination p raw t
  own_path :
      {t : String} (u : Url)
      → p.parse raw ≡ some u
      → u.scheme ≡ ""
      → has_prefix "/" raw ≡ true
      → has_prefix "//" raw ≡ false
      → ((u.path == home_path || contains p.account_paths u.path)
          || (has_prefix p.authorize_path raw || has_prefix "/logout" raw))
        ≡ true
      → t ≡ raw
      → Destination p raw t

-- Whatever the client sends as its return address, what the guard lets through is a destination on
-- the server itself.
pub validate_return_url-Destination :
    (p : Paths) (raw t : String) → validate_return_url p raw ≡ some t → Destination p raw t
unfolding validate_return_url
validate_return_url-Destination p raw t h = elim (Bool-cases (raw == "")) [
  | inl blank ↦ nowhere (ground (arith, h, blank))
  | inr given ↦ elim (Option-cases (p.parse raw)) [
    | inl bad ↦ absurd (ground (arith, h, given, bad))
    | inr (u, parsed) ↦ elim (Bool-cases (u.scheme != "")) [
      | inl absolute ↦ elim (Option-cases (p.parse p.issuer_url)) [
        | inl unknown ↦ absurd (ground (arith, h, given, parsed, absolute, unknown))
        | inr (iss, issuer) ↦
            own_origin u iss parsed issuer
              (ground (arith, h, given, parsed, absolute, issuer, eq_iff u.scheme iss.scheme))
              (ground (arith, h, given, parsed, absolute, issuer, eq_iff u.host iss.host))
              (ground (arith, h, given, parsed, absolute, issuer))
      ]
      | inr relative ↦
          own_path u parsed (ground (arith, relative, eq_iff u.scheme ""))
            (ground (arith, h, given, parsed, relative))
            (ground (arith, h, given, parsed, relative))
            (ground (arith, h, given, parsed, relative))
            (ground (arith, h, given, parsed, relative))
    ]
  ]
]
