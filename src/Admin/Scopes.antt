-- ===== src/Admin/Scopes.antt =====
-- internal/admin/api.go: the handlers of scopes.
use authserver_go.Base.{
  ℕ, String, Bool, Option, none, some, List, map, length, ◌==◌, string_eq, if◌then◌else◌,
}
use authserver_go.Base.Assoc.{Assoc}
use authserver_go.Domain.Entities.{Scope}
use authserver_go.Store.Error.{Result, ok, err}
use authserver_go.Store.Scopes.{ScopeStore, find_by_name, get_all, store, delete}
use authserver_go.Oidc.Http.{Response, reply, fail, finish_at, bad_request, internal_error}
use authserver_go.Admin.{found, settled}

pub record ScopeView : Type 0 where
  pub name : String
  pub display_name : String
  pub description : String
  pub required : Bool
  pub emphasize : Bool
  pub properties : Assoc String String

unfoldable pub to_scope_view : Scope → ScopeView
to_scope_view x = record {
  name = x.name;
  display_name = x.display_name;
  description = x.description;
  required = x.required;
  emphasize = x.emphasize;
  properties = x.properties;
}

-- listScopes: the items and their number.
unfoldable pub list_scopes : ScopeStore → Response (List ScopeView × ℕ)
unfolding to_scope_view
list_scopes s = elim (get_all s) [
  | err e ↦ fail internal_error "list failed" ""
  | ok all ↦ reply (map to_scope_view all, length all)
]

abbrev pub Answer : Type 0
Answer = Response ScopeView × ScopeStore

unfoldable pub stored_answer : Scope → Result (Unit {0}) → Response ScopeView
unfolding to_scope_view
stored_answer x (ok y) = reply (to_scope_view x)
stored_answer x (err e) = fail bad_request "store failed" ""

unfoldable pub save : Scope → ScopeStore → Answer
unfolding stored_answer
save x s = let (answer, s') = store (some x) s in (stored_answer x answer, s')

-- The scope that a request describes, under a name.
unfoldable pub scope_of : String → ScopeView → Scope
scope_of name b = record {
  name = name;
  display_name = b.display_name;
  description = b.description;
  required = b.required;
  emphasize = b.emphasize;
  properties = b.properties;
}

-- createScope
unfoldable pub create_scope : Option ScopeView → ScopeStore → Answer
unfolding scope_of save
create_scope none s = (fail bad_request "invalid json" "", s)
create_scope (some b) s =
    if b.name == "" then (fail bad_request "name is required" "", s) else save (scope_of b.name b) s

-- updateScope: the row that is found keeps its name.
unfoldable pub update_scope : String → Option ScopeView → ScopeStore → Answer
unfolding found scope_of save
update_scope name none s = (fail bad_request "invalid json" "", s)
update_scope name (some b) s =
    finish_at s (found "lookup failed" (find_by_name s name))
      λ existing. save (scope_of existing.name b) s

-- deleteScope
unfoldable pub delete_scope : String → ScopeStore → Response (Unit {0}) × ScopeStore
unfolding settled
delete_scope name s = let (answer, s') = delete name s in (settled "delete failed" answer, s')
