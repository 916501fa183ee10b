-- ===== src/Admin/Users/RoleSet.antt =====
-- What setUserRoles leaves: the roles that were asked for.
use authserver_go.Base.{
  String, ◌≡◌, refl, ap, ◌∙◌, not, ◌||◌, some, List, [], ◌∷◌, ◌++◌, select, string_eq, arith,
  Bool-cases, Option-cases, inl, inr, remove_each,
}
use authserver_go.Base.Assoc.{lookup, lookup-insert_self}
use authserver_go.Base.Text.{equal_fold}
use authserver_go.Base.Text.Fold.{
  occurs, occurs-number, occurs-same, number-remove_each, number-select,
}
use authserver_go.Domain.Entities.{User}
use authserver_go.Store.Users.{UserStore}
use authserver_go.Store.Users.Roles.{
  roles_of, get_user_roles, add_missing, add_to_roles, remove_from_roles,
}
use authserver_go.Oidc.Http.{Response, reply}
use authserver_go.Admin.{found}
use authserver_go.Admin.Users.{
  Done, contains_string, unless_empty, and_then, change_roles, set_user_roles,
}

occurs-append :
    (x role : String) (ys : List String)
    → occurs x (ys ++ role ∷ []) ≡ (occurs x ys || equal_fold role x)
occurs-append x role [] = ground arith
occurs-append x role (y ∷ ys) = ground (arith, occurs-append x role ys)

occurs-add_missing :
    (x : String) (rs ys : List String) → occurs x (add_missing rs ys) ≡ (occurs x rs || occurs x ys)
unfolding add_missing
occurs-add_missing x [] ys = refl
occurs-add_missing x (r ∷ rs) ys = elim (Bool-cases (occurs r ys)) [
  | inl there ↦ ground (arith, there, occurs-add_missing x rs ys, occurs-same r x ys)
  | inr missing ↦
      ground (arith, missing, occurs-add_missing x rs (ys ++ r ∷ []), occurs-append x r ys)
]

-- The roles after both changes, on lists.
abbrev merged : List String → List String → List String
merged wanted existing =
    add_missing (select (λ r. not (contains_string existing r)) wanted)
      (remove_each equal_fold (select (λ r. not (contains_string wanted r)) existing) existing)

merged-occurs :
    (x : String) (wanted existing : List String)
    → occurs x (merged wanted existing) ≡ occurs x wanted
unfolding contains_string
merged-occurs x wanted existing =
    let to_add : List String = select (λ r. not (occurs r existing)) wanted in
    let to_remove : List String = select (λ r. not (occurs r wanted)) existing in
    ground (
      arith,
      occurs-add_missing x to_add (remove_each equal_fold to_remove existing),
      occurs-number x to_add,
      occurs-number x wanted,
      occurs-number x existing,
      occurs-number x (remove_each equal_fold to_remove existing),
      number-remove_each x to_remove existing,
      number-select (λ r. not (occurs r existing)) x wanted
          (λ s e. ap not (occurs-same s x existing e)),
      number-select (λ r. not (occurs r wanted)) x existing
          (λ s e. ap not (occurs-same s x wanted e)),
    )

module _ (id : String) (u : User) where
  -- A change that is answered, or skipped, on the roles of an account.
  removed :
      (rs : List String) (text : String) (s s' : UserStore) (x : Unit {0})
      → lookup id s.users ≡ some u
      → unless_empty rs text (remove_from_roles id rs) s ≡ (reply x, s')
      → (s'.users ≡ s.users) × (roles_of s' id ≡ remove_each equal_fold rs (roles_of s id))
  unfolding unless_empty remove_from_roles
  removed [] text s s' x known e = (cc e, cc e)
  removed (r ∷ rs) text s s' x known e = (
    ground (arith, known, e),
    ground (
      arith,
      known,
      e,
      lookup-insert_self id (remove_each equal_fold (r ∷ rs) (roles_of s id)) s.roles,
    ),
  )

  added :
      (rs : List String) (text : String) (s s' : UserStore) (x : Unit {0})
      → lookup id s.users ≡ some u
      → unless_empty rs text (add_to_roles id rs) s ≡ (reply x, s')
      → roles_of s' id ≡ add_missing rs (roles_of s id)
  unfolding unless_empty add_to_roles add_missing
  added [] text s s' x known e = cc e
  added (r ∷ rs) text s s' x known e =
      ground (arith, known, e, lookup-insert_self id (add_missing (r ∷ rs) (roles_of s id)) s.roles)

and_then-reply :
    (first : Done) (next : UserStore → Done) (x : Unit {0}) (s' : UserStore)
    → and_then first next ≡ (reply x, s')
    → (y : Unit {0}) × (s1 : UserStore) × (first ≡ (reply y, s1)) × (next s1 ≡ (reply x, s'))
unfolding and_then
and_then-reply (reply y, s1) next x s' e = (y, s1, refl, e)
and_then-reply (Response.fail code text desc, s1) next x s' e = cc
and_then-reply (Response.panics, s1) next x s' e = cc

change_roles-merged :
    (id : String) (wanted existing : List String) (u : User) (s s' : UserStore) (x : Unit {0})
    → lookup id s.users ≡ some u
    → roles_of s id ≡ existing
    → change_roles id wanted existing s ≡ (reply x, s')
    → roles_of s' id ≡ merged wanted existing
unfolding change_roles
change_roles-merged id wanted existing u s s' x known own e =
    let to_remove : List String = select (λ r. not (contains_string wanted r)) existing in
    let to_add : List String = select (λ r. not (contains_string existing r)) wanted in
    let (y, s1, first, next) =
      and_then-reply
        (unless_empty to_remove "remove roles failed" (remove_from_roles id to_remove) s)
        (unless_empty to_add "add roles failed" (add_to_roles id to_add)) x s' e in
    let (users, roles) = removed id u to_remove "remove roles failed" s s1 y known first in
    added id u to_add "add roles failed" s1 s' x (ap (lookup id) users ∙ known) next
    ∙ ap (add_missing to_add) (roles ∙ ap (remove_each equal_fold to_remove) own)

-- A request that sets the roles of an account and is answered leaves it the roles that were asked for and
-- no other, up to case, though the handler only removes and adds what differs.
pub set_user_roles-sets :
    (id : String) (wanted : List String) (s s' : UserStore) (x : Unit {0})
    → set_user_roles id (some wanted) s ≡ (reply x, s')
    → (role : String) → contains_string (roles_of s' id) role ≡ contains_string wanted role
unfolding set_user_roles get_user_roles found contains_string
set_user_roles-sets id wanted s s' x e role = elim (Option-cases (lookup id s.users)) [
  | inl missing ↦ absurd (ground (arith, missing, e))
  | inr (u, known) ↦
      ap (occurs role) (
        change_roles-merged id wanted (roles_of s id) u s s' x known refl
          (ground (arith, known, e)))
      ∙ merged-occurs role wanted (roles_of s id)
]
