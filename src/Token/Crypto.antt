-- ===== src/Token/Crypto.antt =====
-- internal/token/hasher.go: what the server takes from SHA-256, base64url and the random source.
use authserver_go.Base.{String, Option, none, some}

-- `s256` is the base64url of the SHA-256 of a text, `half` that of its left half.
pub record Crypto : Type 0 where
  pub s256 : String → String
  pub half : String → String

unfoldable pub hash_token : Crypto → String → String
hash_token c raw = c.s256 raw

unfoldable pub hash_access_token : Crypto → String → String
hash_access_token c access = c.half access

-- NewOpaqueToken: `random` is the encoded random text, or the failure of the random source.
unfoldable pub new_opaque_token : Crypto → Option String → Option (String × String)
unfolding hash_token
new_opaque_token c none = none
new_opaque_token c (some raw) = some (raw, hash_token c raw)
