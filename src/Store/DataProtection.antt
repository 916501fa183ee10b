-- ===== src/Store/DataProtection.antt =====
-- internal/store/memory/dataprotection.go: DataProtectionKeyStore, with the keys in the order of their
-- first Store.
use authserver_go.Base.{
  String, false, Option, none, some, List, [], ◌∷◌, ◌++◌, ◌==◌, string_eq, if◌then◌else◌, is_some,
}
use authserver_go.Base.Assoc.{Assoc, lookup, insert}
use authserver_go.Domain.Entities.{DataProtectionKey}
use authserver_go.Store.Error.{Result, ok, err, Update, not_found, nil_entity, empty_id}

pub record DataProtectionKeyStore : Type 0 where
  pub keys : Assoc String DataProtectionKey
  pub order : List String

abbrev pub new : DataProtectionKeyStore
new = record { keys = []; order = [] }

abbrev pub zero_key : DataProtectionKey
zero_key = record {
  key_id = "";
  hash_key = "";
  block_key = "";
  csrf_key = "";
  created_at = 0;
  retired_at = none;
  is_active = false;
}

abbrev pub or_zero : Option DataProtectionKey → DataProtectionKey
or_zero none = zero_key
or_zero (some k) = k

unfoldable pub first_active :
    Assoc String DataProtectionKey → List String → Option DataProtectionKey
first_active keys [] = none
first_active keys (kid ∷ order) =
    let rest = first_active keys order in
    let k = or_zero (lookup kid keys) in if k.is_active then some k else rest

unfoldable pub get_active : DataProtectionKeyStore → Result DataProtectionKey
unfolding first_active
get_active s = elim (first_active s.keys s.order) [ none ↦ err not_found | some k ↦ ok k ]

-- GetAll counts down: the newest key is first.
unfoldable pub newest_first :
    Assoc String DataProtectionKey → List String → List DataProtectionKey → List DataProtectionKey
newest_first keys [] newer = newer
newest_first keys (kid ∷ order) newer = newest_first keys order (or_zero (lookup kid keys) ∷ newer)

unfoldable pub get_all : DataProtectionKeyStore → Result (List DataProtectionKey)
unfolding newest_first
get_all s = ok (newest_first s.keys s.order [])

unfoldable pub store : Option DataProtectionKey → Update DataProtectionKeyStore Unit
store none s = (err nil_entity, s)
store (some k) s = if k.key_id == "" then (err empty_id, s) else (
  ok tt,
  record {
    keys = insert k.key_id k s.keys;
    order = if is_some (lookup k.key_id s.keys) then s.order else s.order ++ k.key_id ∷ [];
  },
)
