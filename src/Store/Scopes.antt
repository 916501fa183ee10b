-- ===== src/Store/Scopes.antt =====
-- internal/store/memory/scope.go: ScopeStore, with the scopes in the order of their first Store.
use authserver_go.Base.{
  String, false, Option, none, some, List, [], ◌∷◌, ◌++◌, ◌==◌, string_eq, if◌then◌else◌, is_some,
}
use authserver_go.Base.Assoc.{Assoc, lookup, insert, erase}
use authserver_go.Domain.Entities.{Scope}
use authserver_go.Store.Error.{Result, ok, err, Update, not_found, nil_entity, empty_id}

pub record ScopeStore : Type 0 where
  pub scopes : Assoc String Scope
  pub order : List String

abbrev pub new : ScopeStore
new = record { scopes = []; order = [] }

abbrev pub zero_scope : Scope
zero_scope = record {
  name = "";
  display_name = "";
  description = "";
  required = false;
  emphasize = false;
  properties = [];
}

abbrev pub or_zero : Option Scope → Scope
or_zero none = zero_scope
or_zero (some x) = x

unfoldable pub find_by_name : ScopeStore → String → Result Scope
find_by_name s name = elim (lookup name s.scopes) [ none ↦ err not_found | some x ↦ ok x ]

unfoldable pub in_order : Assoc String Scope → List String → List Scope
in_order scopes [] = []
in_order scopes (name ∷ order) = or_zero (lookup name scopes) ∷ in_order scopes order

unfoldable pub get_all : ScopeStore → Result (List Scope)
unfolding in_order
get_all s = ok (in_order s.scopes s.order)

unfoldable pub store : Option Scope → Update ScopeStore Unit
store none s = (err nil_entity, s)
store (some x) s = if x.name == "" then (err empty_id, s) else (
  ok tt,
  record {
    scopes = insert x.name x s.scopes;
    order = if is_some (lookup x.name s.scopes) then s.order else s.order ++ x.name ∷ [];
  },
)

-- The loop takes out the first entry with the name.
unfoldable pub without : String → List String → List String
without name [] = []
without name (n ∷ ns) = let rest = without name ns in if n == name then ns else n ∷ rest

unfoldable pub delete : String → Update ScopeStore Unit
unfolding without
delete name s = elim (lookup name s.scopes) [
  | none ↦ (err not_found, s)
  | some _ ↦ (ok tt, record { scopes = erase name s.scopes; order = without name s.order })
]
