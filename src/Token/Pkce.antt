-- ===== src/Token/Pkce.antt =====
-- internal/token/pkce.go: VerifyS256.
use authserver_go.Base.{
  ℕ, String, not, ◌||◌, ◌==◌, string_eq, ltb, if◌then◌else◌, Option, none, some,
}
use authserver_go.Base.Text.{byte_len}
use authserver_go.Token.Crypto.{Crypto}

abbrev pub pkce_method : String
pkce_method = "S256"

abbrev pub min_verifier_len : ℕ
min_verifier_len = 43

abbrev pub max_verifier_len : ℕ
max_verifier_len = 128

pub data PkceError : Type 0 where
  invalid_method challenge_empty invalid_format mismatch : PkceError

-- `none` is Go's nil error.
unfoldable pub verify_s256 : Crypto → String → String → String → Option PkceError
verify_s256 crypto method verifier challenge =
    if not (method == pkce_method)
    then some invalid_method
    else if challenge == ""
    then some challenge_empty
    else if ltb (byte_len verifier) min_verifier_len || ltb max_verifier_len (byte_len verifier)
    then some invalid_format
    else if not (crypto.s256 verifier == challenge)
    then some mismatch
    else none
