-- ===== src/Store/AuthCodes/Laws.antt =====
-- The compare-and-set of the in-memory AuthorizationCodeStore, and what its methods do to each row.
use authserver_go.Base.{
  String, ◌≡◌, ◌≢◌, refl, ◌∙◌, ap, true, false, Option, none, some, List, [], ◌∷◌, map, any, ◌==◌,
  string_eq, nat_eq, arith, if◌then◌else◌, is_some, Option-cases, Bool-cases, inl, inr, map_some,
  sym, ne→not_beq,
}
use authserver_go.Base.Assoc.{lookup, lookup-insert}
use authserver_go.Domain.Time.{Time, Uuid}
use authserver_go.Domain.Entities.{AuthorizationCode}
use authserver_go.Store.Error.{ok, err, not_found}
use authserver_go.Store.Contract.{
  CasStore, Turn, marks, other, Quiet, winners, tries, winners_fresh,
}
use authserver_go.Store.AuthCodes.{AuthorizationCodeStore, store, find_by_hash, mark_consumed}

abbrev pub row : AuthorizationCodeStore → Uuid → Option AuthorizationCode
row s id = lookup id s.codes

abbrev pub consumed_row : AuthorizationCodeStore → Uuid → Option (Option Time)
consumed_row s id = map_some (λ (c : AuthorizationCode). c.consumed_at) (row s id)

-- Each hash leads to a row, and each row stands under its own id.
pub record IsIndexed (s : AuthorizationCodeStore) : Type 0 where
  pub hash_leads :
      (hash : String) (id : Uuid) → lookup hash s.by_hash ≡ some id → is_some (row s id) ≡ true
  pub id_keys : (id : Uuid) (c : AuthorizationCode) → row s id ≡ some c → c.id ≡ id

module _ (s : AuthorizationCodeStore) where
  pub row-store :
      (c : AuthorizationCode) (j : Uuid)
      → (c.code_hash == "") ≡ false
      → row (store (some c) s).1 j ≡ (if c.id == j then some c else row s j)
  unfolding store
  row-store c j h = rw h (lookup-insert c.id j c s.codes)

  pub row-mark_consumed :
      (id j : Uuid) (at : Time) (c : AuthorizationCode)
      → row s id ≡ some c
      → c.consumed_at ≡ none
      → row (mark_consumed id at s).1 j
        ≡ (if id == j then some (record c { consumed_at = some at }) else row s j)
  unfolding mark_consumed
  row-mark_consumed id j at c e h =
      rw (e, mark_consumed, h) (lookup-insert id j (record c { consumed_at = some at }) s.codes)

-- A row behind `consumed_row`.
row_of :
    (s : AuthorizationCodeStore) (id : Uuid) {o : Option Time}
    → consumed_row s id ≡ some o
    → (c : AuthorizationCode) × (row s id ≡ some c) × (c.consumed_at ≡ o)
row_of s id {o} e = elim (Option-cases (row s id)) [
  | inl n ↦ absurd (absent n)
  | inr (c, p) ↦ (c, p, ground (arith, p, e))
]
  where
    absent : row s id ≡ none → ⊥
    absent n = ground (arith, n, e)

module _ (s : AuthorizationCodeStore) (id : Uuid) where
  pub missing : (at : Time) → consumed_row s id ≡ none → mark_consumed id at s ≡ (err not_found, s)
  unfolding mark_consumed
  missing at e = elim (Option-cases (row s id)) [
    | inl n ↦ rw (n, mark_consumed)
    | inr (c, p) ↦ absurd (present c p)
  ]
    where
      present : (c : AuthorizationCode) → row s id ≡ some c → ⊥
      present c p = ground (arith, p, e)

  pub used_row :
      (at used : Time)
      → consumed_row s id ≡ some (some used)
      → mark_consumed id at s ≡ (ok false, s)
  unfolding mark_consumed
  used_row at used e = let (c, p, h) = row_of s id e in rw (p, mark_consumed, h)

  pub fresh_row : (at : Time) → consumed_row s id ≡ some none → (mark_consumed id at s).0 ≡ ok true
  unfolding mark_consumed
  fresh_row at e = let (c, p, h) = row_of s id e in rw (p, mark_consumed, h)

  pub marked_row :
      (j : Uuid) (at : Time)
      → consumed_row s id ≡ some none
      → consumed_row (mark_consumed id at s).1 j
        ≡ (if id == j then some (some at) else consumed_row s j)
  marked_row j at e =
      let (c, p, h) = row_of s id e in rw (row-mark_consumed s id j at c p h) (ground arith)

-- MarkConsumed of the memory store keeps the contract.
abbrev pub code_cas : CasStore AuthorizationCodeStore
code_cas = record {
  mark = mark_consumed;
  consumed_of = consumed_row;
  mark-missing = missing;
  mark-used = used_row;
  mark-fresh = fresh_row;
  consumed_of-mark = marked_row;
}

-- The calls of the store that change it.
pub data CodeOp : Type 0 where
  marks_consumed : Uuid → Time → CodeOp
  stores : AuthorizationCode → CodeOp

abbrev pub turn_of : CodeOp → Turn AuthorizationCodeStore
turn_of (marks_consumed id at) = marks id at
turn_of (stores c) = other (λ s. (store (some c) s).1)

-- No call stores a code under this id.
abbrev pub Keeps : Uuid → List CodeOp → Type 0
Keeps id [] = Unit
Keeps id (marks_consumed _ _ ∷ os) = Keeps id os
Keeps id (stores c ∷ os) = (c.id ≢ id) × Keeps id os

store-quiet :
    (s : AuthorizationCodeStore) (c : AuthorizationCode) (id : Uuid)
    → c.id ≢ id
    → row (store (some c) s).1 id ≡ row s id
store-quiet s c id ne = elim (Bool-cases (c.code_hash == "")) [
  | inl blank ↦ unfold store in rw blank
  | inr named ↦ row-store s c id named ∙ rw (ne→not_beq c.id id ne)
]

Keeps-Quiet : (id : Uuid) (os : List CodeOp) → Keeps id os → Quiet code_cas id (map turn_of os)
Keeps-Quiet id [] k = tt
Keeps-Quiet id (marks_consumed i at ∷ os) k = Keeps-Quiet id os k
Keeps-Quiet id (stores c ∷ os) k = (
  (λ s. ap (map_some (λ (r : AuthorizationCode). r.consumed_at)) (store-quiet s c id k.0)),
  Keeps-Quiet id os k.1,
)

-- Of the requests that try to consume a stored, unused code, in whatever order and with whatever
-- other codes stored between them, exactly one wins if any tries.
pub code_one_winner :
    (id : Uuid) (os : List CodeOp) (s : AuthorizationCodeStore)
    → Keeps id os
    → consumed_row s id ≡ some none
    → winners code_cas id (map turn_of os) s
      ≡ (if any (tries code_cas id) (map turn_of os) then 1 else 0)
code_one_winner id os s k e = winners_fresh code_cas id (map turn_of os) s (Keeps-Quiet id os k) e

-- In an indexed store, what FindByHash returns is a row, under its own id.
pub find_by_hash-row :
    (s : AuthorizationCodeStore) (hash : String) (c : AuthorizationCode)
    → IsIndexed s
    → find_by_hash s hash ≡ ok c
    → row s c.id ≡ some c
unfolding find_by_hash
find_by_hash-row s hash c v h = go (lookup hash s.by_hash) refl
  where
    at_id : (id : Uuid) → lookup hash s.by_hash ≡ some id → row s id ≡ some c
    at_id id p = ground (arith, p, h, v.hash_leads hash id p)

    go : (o : Option Uuid) → lookup hash s.by_hash ≡ o → row s c.id ≡ some c
    go none p = absurd (ground (arith, p, h))
    go (some id) p = ap (row s) (v.id_keys id c (at_id id p)) ∙ at_id id p

-- And the index leads to that id.
pub find_by_hash-index :
    (s : AuthorizationCodeStore) (hash : String) (c : AuthorizationCode)
    → IsIndexed s
    → find_by_hash s hash ≡ ok c
    → lookup hash s.by_hash ≡ some c.id
unfolding find_by_hash
find_by_hash-index s hash c v h = go (lookup hash s.by_hash) refl
  where
    at_id : (id : Uuid) → lookup hash s.by_hash ≡ some id → row s id ≡ some c
    at_id id p = ground (arith, p, h, v.hash_leads hash id p)

    go : (o : Option Uuid) → lookup hash s.by_hash ≡ o → lookup hash s.by_hash ≡ some c.id
    go none p = absurd (ground (arith, p, h))
    go (some id) p = p ∙ ap some (sym (v.id_keys id c (at_id id p)))

pub find_by_hash_at :
    (s : AuthorizationCodeStore) (hash : String) (id : Uuid) (c : AuthorizationCode)
    → lookup hash s.by_hash ≡ some id
    → row s id ≡ some c
    → find_by_hash s hash ≡ ok c
unfolding find_by_hash
find_by_hash_at s hash id c p e = ground (arith, p, e)

pub mark_consumed_again :
    (s : AuthorizationCodeStore) (id : Uuid) (at used : Time) (c : AuthorizationCode)
    → row s id ≡ some c
    → c.consumed_at ≡ some used
    → mark_consumed id at s ≡ (ok false, s)
unfolding mark_consumed
mark_consumed_again s id at used c e h = rw (e, mark_consumed, h)

-- The winner of MarkConsumed found the code unused.
pub mark_consumed_won :
    (s : AuthorizationCodeStore) (id : Uuid) (at : Time) (c : AuthorizationCode)
    → row s id ≡ some c
    → (mark_consumed id at s).0 ≡ ok true
    → c.consumed_at ≡ none
mark_consumed_won s id at c e w = elim (Option-cases c.consumed_at) [
  | inl h ↦ h
  | inr (used, h) ↦ absurd (lost used h)
]
  where
    lost : (used : Time) → c.consumed_at ≡ some used → ⊥
    lost used h = cc (w, mark_consumed_again s id at used c e h)

pub by_hash-mark_consumed :
    (s : AuthorizationCodeStore) (id : Uuid) (at : Time)
    → (mark_consumed id at s).1.by_hash ≡ s.by_hash
unfolding mark_consumed
by_hash-mark_consumed s id at = ground arith
