-- ===== src/Token/Keys.antt =====
-- internal/token/keys.go: KeyManager over the signing key store. RSA, PEM and JWK conversions are
-- arguments; each generated pair is a draw.
pub mod Ring
pub mod Rotation
use authserver_go.Base.{String, true, false, Option, none, some, List, [], ◌∷◌}
use authserver_go.Domain.Time.{Time}
use authserver_go.Domain.Entities.{SigningKey}
use authserver_go.Store.Error.{
  Result, ok, err, StoreError, not_found, duplicate, nil_entity, empty_id, empty_hash,
}
use authserver_go.Store.Keys.{SigningKeyStore, get_active, get_all, store}

abbrev pub default_algorithm : String
default_algorithm = "RS256"

-- What GenerateRSAKey, the two PEM encoders and uuid.NewString give.
pub record KeyPair : Type 0 where
  pub key_id : String
  pub private_key_pem : String
  pub public_key_pem : String

pub data KeyResult : Type 0 where
  key : SigningKey → KeyResult
  key_error : KeyResult

abbrev pub new_key : KeyPair → Time → SigningKey
new_key pair now = record {
  key_id = pair.key_id;
  algorithm = default_algorithm;
  private_key_pem = pair.private_key_pem;
  public_key_pem = pair.public_key_pem;
  created_at = now;
  retired_at = none;
  is_active = true;
}

abbrev pub stored : SigningKey → Result (Unit {0}) → KeyResult
stored k (ok x) = key k
stored k (err e) = key_error

-- `none` is the failure to generate or to encode a pair.
unfoldable pub generate_active :
    Option KeyPair → Time → SigningKeyStore → KeyResult × SigningKeyStore
generate_active none now s = (key_error, s)
generate_active (some pair) now s =
    let (answer, s') = store (some (new_key pair now)) s in (stored (new_key pair now) answer, s')

unfoldable pub ensure_with :
    Result SigningKey → Option KeyPair → Time → SigningKeyStore → KeyResult × SigningKeyStore
unfolding generate_active
ensure_with (ok active) pair now s = (key active, s)
ensure_with (err not_found) pair now s = generate_active pair now s
ensure_with (err e) pair now s = (key_error, s)

unfoldable pub ensure_active_key :
    Option KeyPair → Time → SigningKeyStore → KeyResult × SigningKeyStore
unfolding ensure_with
ensure_active_key pair now s = ensure_with (get_active s) pair now s

unfoldable pub retired : Time → SigningKey → SigningKey
retired now k = record k { is_active = false; retired_at = some now }

-- What follows generateActive: the key that was active is stored as retired.
unfoldable pub retire :
    Option SigningKey → Time → KeyResult × SigningKeyStore → KeyResult × SigningKeyStore
unfolding retired
retire previous now (key_error, s) = (key_error, s)
retire none now (key next, s) = (key next, s)
retire (some previous) now (key next, s) =
    let (answer, s') = store (some (retired now previous)) s in (stored next answer, s')

unfoldable pub rotate_with :
    Result SigningKey → Option KeyPair → Time → Time → SigningKeyStore → KeyResult × SigningKeyStore
unfolding generate_active retire
rotate_with (ok previous) pair now later s =
    retire (some previous) later (generate_active pair now s)
rotate_with (err not_found) pair now later s = retire none later (generate_active pair now s)
rotate_with (err e) pair now later s = (key_error, s)

-- Rotate, with the two readings of the clock.
unfoldable pub rotate : Option KeyPair → Time → Time → SigningKeyStore → KeyResult × SigningKeyStore
unfolding rotate_with
rotate pair now later s = rotate_with (get_active s) pair now later s

-- A published key: the parsed public key with its id, algorithm and use.
pub record PublicJwk (P : Type 0) : Type 0 where
  pub public_key : P
  pub kid : String
  pub alg : String
  pub use_for : String

module _ {P : Type 0} (from_pem : String → Option P) where
  unfoldable pub jwk_of : SigningKey → Option (PublicJwk P)
  jwk_of k = elim (from_pem k.public_key_pem) [
    | none ↦ none
    | some public ↦
        some (record { public_key = public; kid = k.key_id; alg = k.algorithm; use_for = "sig" })
  ]

  abbrev pub cons_some {ℓ} : {A : Type ℓ} → Option A → Option (List A) → Option (List A)
  cons_some none xs = none
  cons_some (some x) none = none
  cons_some (some x) (some xs) = some (x ∷ xs)

  unfoldable pub jwks_of : List SigningKey → Option (List (PublicJwk P))
  unfolding jwk_of
  jwks_of [] = some []
  jwks_of (k ∷ ks) = cons_some (jwk_of k) (jwks_of ks)

  -- PublicJWKSet. `none` is the error of a key that does not parse.
  unfoldable pub public_jwk_set : SigningKeyStore → Option (List (PublicJwk P))
  unfolding jwks_of
  public_jwk_set s = elim (get_all s) [ err e ↦ none | ok ks ↦ jwks_of ks ]
