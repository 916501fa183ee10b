-- ===== src/Store/Keys.antt =====
-- internal/store/memory/signingkey.go: SigningKeyStore, with the keys in the order of their first
-- Store.
use authserver_go.Base.{
  String, false, Option, none, some, List, [], ◌∷◌, ◌++◌, ◌==◌, string_eq, if◌then◌else◌, is_some,
}
use authserver_go.Base.Assoc.{Assoc, lookup, insert}
use authserver_go.Domain.Entities.{SigningKey}
use authserver_go.Store.Error.{Result, ok, err, Update, not_found, nil_entity, empty_id}

pub record SigningKeyStore : Type 0 where
  pub keys : Assoc String SigningKey
  pub order : List String

abbrev pub new : SigningKeyStore
new = record { keys = []; order = [] }

abbrev pub zero_key : SigningKey
zero_key = record {
  key_id = "";
  algorithm = "";
  private_key_pem = "";
  public_key_pem = "";
  created_at = 0;
  retired_at = none;
  is_active = false;
}

abbrev pub or_zero : Option SigningKey → SigningKey
or_zero none = zero_key
or_zero (some k) = k

unfoldable pub first_active : Assoc String SigningKey → List String → Option SigningKey
first_active keys [] = none
first_active keys (kid ∷ order) =
    let rest = first_active keys order in
    let k = or_zero (lookup kid keys) in if k.is_active then some k else rest

unfoldable pub get_active : SigningKeyStore → Result SigningKey
unfolding first_active
get_active s = elim (first_active s.keys s.order) [ none ↦ err not_found | some k ↦ ok k ]

unfoldable pub in_order : Assoc String SigningKey → List String → List SigningKey
in_order keys [] = []
in_order keys (kid ∷ order) = or_zero (lookup kid keys) ∷ in_order keys order

unfoldable pub get_all : SigningKeyStore → Result (List SigningKey)
unfolding in_order
get_all s = ok (in_order s.keys s.order)

unfoldable pub store : Option SigningKey → Update SigningKeyStore Unit
store none s = (err nil_entity, s)
store (some k) s = if k.key_id == "" then (err empty_id, s) else (
  ok tt,
  record {
    keys = insert k.key_id k s.keys;
    order = if is_some (lookup k.key_id s.keys) then s.order else s.order ++ k.key_id ∷ [];
  },
)
