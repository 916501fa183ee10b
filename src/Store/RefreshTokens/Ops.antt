-- ===== src/Store/RefreshTokens/Ops.antt =====
-- Sequences of calls of the in-memory RefreshTokenStore: what concurrent requests do to one row, in
-- whatever order the locks let them in.
pub mod History
use authserver_go.Base.{
  String, ◌≡◌, ◌≢◌, refl, ◌∙◌, ap, Bool, true, false, Option, none, some, List, [], ◌∷◌, map, ◌==◌,
  string_eq, nat_eq, nat_beq_iff, arith, if◌then◌else◌, is_some, Option-cases, Bool-cases, inl, inr,
  map_some, ne→not_beq,
}
use authserver_go.Base.Assoc.{lookup}
use authserver_go.Domain.Time.{Time, Uuid}
use authserver_go.Domain.Entities.{RefreshToken}
use authserver_go.Store.Error.{ok, err, not_found}
use authserver_go.Store.Contract.{CasStore, Turn, marks, other, Quiet, winners}
use authserver_go.Store.RefreshTokens.{
  RefreshTokenStore, store, mark_consumed, revoke, revoke_in, revoke_by_session_id,
}
use authserver_go.Store.RefreshTokens.Laws.{
  row, consumed_row, row-store, row-mark_consumed, mark_consumed_first, mark_consumed_again,
  mark_consumed_missing, row-revoke_by_session_id, row-revoke, revoked_row,
}

-- A row behind `consumed_row`.
row_of :
    (s : RefreshTokenStore) (id : Uuid) {c : Option Time}
    → consumed_row s id ≡ some c
    → (t : RefreshToken) × (row s id ≡ some t) × (t.consumed_at ≡ c)
row_of s id {c} e = elim (Option-cases (row s id)) [
  | inl n ↦ absurd (absent n)
  | inr (t, p) ↦ (t, p, ground (arith, p, e))
]
  where
    absent : row s id ≡ none → ⊥
    absent n = ground (arith, n, e)

module _ (s : RefreshTokenStore) (id : Uuid) where
  pub missing : (at : Time) → consumed_row s id ≡ none → mark_consumed id at s ≡ (err not_found, s)
  missing at e = elim (Option-cases (row s id)) [
    | inl n ↦ mark_consumed_missing s id at n
    | inr (t, p) ↦ absurd (present t p)
  ]
    where
      present : (t : RefreshToken) → row s id ≡ some t → ⊥
      present t p = ground (arith, p, e)

  pub used_row :
      (at used : Time)
      → consumed_row s id ≡ some (some used)
      → mark_consumed id at s ≡ (ok false, s)
  used_row at used e = let (t, p, c) = row_of s id e in mark_consumed_again s id at used t p c

  pub fresh_row : (at : Time) → consumed_row s id ≡ some none → (mark_consumed id at s).0 ≡ ok true
  fresh_row at e = let (t, p, c) = row_of s id e in mark_consumed_first s id at t p c

  pub marked_row :
      (j : Uuid) (at : Time)
      → consumed_row s id ≡ some none
      → consumed_row (mark_consumed id at s).1 j
        ≡ (if id == j then some (some at) else consumed_row s j)
  marked_row j at e =
      let (t, p, c) = row_of s id e in rw (row-mark_consumed s id j at t p c) (ground arith)

-- MarkConsumed of the memory store keeps the contract.
abbrev pub refresh_cas : CasStore RefreshTokenStore
refresh_cas = record {
  mark = mark_consumed;
  consumed_of = consumed_row;
  mark-missing = missing;
  mark-used = used_row;
  mark-fresh = fresh_row;
  consumed_of-mark = marked_row;
}

-- The calls of the store that change it.
pub data Op : Type 0 where
  stores : RefreshToken → Op
  marks_consumed : Uuid → Time → Op
  revokes : Uuid → Time → Op
  revokes_session : Uuid → Time → Op

unfoldable pub step : Op → RefreshTokenStore → RefreshTokenStore
step (stores t) s = (store (some t) s).1
step (marks_consumed id at) s = (mark_consumed id at s).1
step (revokes id at) s = (revoke id at s).1
step (revokes_session session at) s = (revoke_by_session_id session at s).1

unfoldable pub run : List Op → RefreshTokenStore → RefreshTokenStore
unfolding step
run [] s = s
run (o ∷ os) s = run os (step o s)

-- No call stores a row under this id.
abbrev pub Keeps : Uuid → List Op → Type 0
Keeps id [] = Unit
Keeps id (stores t ∷ os) = (t.id ≢ id) × Keeps id os
Keeps id (_ ∷ os) = Keeps id os

abbrev pub turn_of : Op → Turn RefreshTokenStore
turn_of (marks_consumed id at) = marks id at
turn_of o = other (step o)

store-quiet :
    (s : RefreshTokenStore) (t : RefreshToken) (id : Uuid)
    → t.id ≢ id
    → row (store (some t) s).1 id ≡ row s id
store-quiet s t id ne = elim (Bool-cases (t.token_hash == "")) [
  | inl blank ↦ unfold store in rw blank
  | inr named ↦ row-store s t id named ∙ rw (ne→not_beq t.id id ne)
]

revoke-quiet :
    (s : RefreshTokenStore) (i id : Uuid) (at : Time)
    → consumed_row (revoke i at s).1 id ≡ consumed_row s id
revoke-quiet s i id at = rw (row-revoke s i id at) (ground arith)

revoke_by_session_id-quiet :
    (s : RefreshTokenStore) (session id : Uuid) (at : Time)
    → consumed_row (revoke_by_session_id session at s).1 id ≡ consumed_row s id
unfolding revoke_in
revoke_by_session_id-quiet s session id at =
    rw (row-revoke_by_session_id s session at id) (ground arith)

pub Keeps-Quiet : (id : Uuid) (os : List Op) → Keeps id os → Quiet refresh_cas id (map turn_of os)
unfolding step
Keeps-Quiet id [] k = tt
Keeps-Quiet id (stores t ∷ os) k = (
  (λ s. ap (map_some (λ (r : RefreshToken). r.consumed_at)) (store-quiet s t id k.0)),
  Keeps-Quiet id os k.1,
)
Keeps-Quiet id (marks_consumed i at ∷ os) k = Keeps-Quiet id os k
Keeps-Quiet id (revokes i at ∷ os) k = ((λ s. revoke-quiet s i id at), Keeps-Quiet id os k)
Keeps-Quiet id (revokes_session i at ∷ os) k =
    ((λ s. revoke_by_session_id-quiet s i id at), Keeps-Quiet id os k)
