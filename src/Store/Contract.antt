-- ===== src/Store/Contract.antt =====
-- The compare-and-set that internal/store/authcode_store.go promises of MarkConsumed and that
-- internal/store/refreshtoken_store.go takes over: one conditional write that only the caller who
-- moves ConsumedAt from nil wins. A client of the contract sees a store through `consumed_of`; the
-- memory stores fill the record.
use authserver_go.Base.{
  ℕ, ◌+◌, ◌≡◌, refl, Bool, true, false, Option, none, some, List, [], ◌∷◌, any, arith, ◌==◌, nat_eq,
  nat_beq_iff, if◌then◌else◌, Bool-cases, inl, inr, ◌∙◌, beq_refl,
}
use authserver_go.Domain.Time.{Time, Uuid}
use authserver_go.Store.Error.{Result, ok, err, not_found, Update}

pub record CasStore (S : Type 0) : Type 0 where
  pub mark : Uuid → Time → Update S Bool
  -- `none` for a missing row, `some c` for a row with ConsumedAt `c`.
  pub consumed_of : S → Uuid → Option (Option Time)
  pub mark-missing :
      (s : S) (id : Uuid) (at : Time) → consumed_of s id ≡ none → mark id at s ≡ (err not_found, s)
  pub mark-used :
      (s : S) (id : Uuid) (at used : Time)
      → consumed_of s id ≡ some (some used)
      → mark id at s ≡ (ok false, s)
  pub mark-fresh :
      (s : S) (id : Uuid) (at : Time) → consumed_of s id ≡ some none → (mark id at s).0 ≡ ok true
  pub consumed_of-mark :
      (s : S) (id j : Uuid) (at : Time)
      → consumed_of s id ≡ some none
      → consumed_of (mark id at s).1 j ≡ (if id == j then some (some at) else consumed_of s j)

-- One caller's turn at the store: a MarkConsumed, or any other method.
pub data Turn (S : Type 0) : Type 0 where
  marks : Uuid → Time → Turn S
  other : (S → S) → Turn S

abbrev pub won : Result Bool → ℕ
won (ok true) = 1
won (ok false) = 0
won (err e) = 0

module _ {S : Type 0} (cas : CasStore S) where
  -- The callers that win on `id`, when the turns are taken in this order.
  pub winners : Uuid → List (Turn S) → S → ℕ
  winners id [] s = 0
  winners id (marks j at ∷ ts) s =
      let (r, s') = cas.mark j at s in
      let rest = winners id ts s' in if j == id then won r + rest else rest
  winners id (other f ∷ ts) s = winners id ts (f s)

  abbrev pub tries : Uuid → Turn S → Bool
  tries id (marks j at) = j == id
  tries id (other f) = false

  -- The other methods leave the row's ConsumedAt alone.
  abbrev pub Quiet : Uuid → List (Turn S) → Type 0
  Quiet id [] = Unit
  Quiet id (marks j at ∷ ts) = Quiet id ts
  Quiet id (other f ∷ ts) =
      ((s : S) → cas.consumed_of (f s) id ≡ cas.consumed_of s id) × Quiet id ts

  consumed_of-mark_ne :
      (s : S) (id j : Uuid) (at : Time)
      → (j == id) ≡ false
      → cas.consumed_of (cas.mark j at s).1 id ≡ cas.consumed_of s id
  consumed_of-mark_ne s id j at h = go (cas.consumed_of s j) refl
    where
      go :
          (o : Option (Option Time))
          → cas.consumed_of s j ≡ o
          → cas.consumed_of (cas.mark j at s).1 id ≡ cas.consumed_of s id
      go none e = rw (cas.mark-missing s j at e)
      go (some (some u)) e = rw (cas.mark-used s j at u e)
      go (some none) e = ground (arith, cas.consumed_of-mark s j id at e)

  now_used :
      (id : Uuid) (at : Time) (s : S)
      → cas.consumed_of s id ≡ some none
      → cas.consumed_of (cas.mark id at s).1 id ≡ some (some at)
  now_used id at s e = rw (cas.consumed_of-mark s id id at e, beq_refl id)

  winners_used :
      (id : Uuid) (used : Time) (ts : List (Turn S)) (s : S)
      → Quiet id ts
      → cas.consumed_of s id ≡ some (some used)
      → winners id ts s ≡ 0
  unfolding winners
  winners_used id used [] s q e = refl
  winners_used id used (other f ∷ ts) s q e = winners_used id used ts (f s) q.1 (q.0 s ∙ e)
  winners_used id used (marks j at ∷ ts) s q e = elim (Bool-cases (j == id)) [
    | inl same ↦
        let p : j ≡ id = (nat_beq_iff j id).0 same in
        rw (same, p, cas.mark-used s id at used e) (omega (arith, winners_used id used ts s q e))
    | inr differs ↦
        rw differs (
          winners_used id used ts (cas.mark j at s).1 q (consumed_of-mark_ne s id j at differs ∙ e))
  ]

  -- Of the callers that try an unconsumed row, in whatever order, exactly one wins, if any tries.
  pub winners_fresh :
      (id : Uuid) (ts : List (Turn S)) (s : S)
      → Quiet id ts
      → cas.consumed_of s id ≡ some none
      → winners id ts s ≡ (if any (tries id) ts then 1 else 0)
  unfolding winners
  winners_fresh id [] s q e = refl
  winners_fresh id (other f ∷ ts) s q e = winners_fresh id ts (f s) q.1 (q.0 s ∙ e)
  winners_fresh id (marks j at ∷ ts) s q e = elim (Bool-cases (j == id)) [
    | inl same ↦
        let p : j ≡ id = (nat_beq_iff j id).0 same in
        rw (same, p, cas.mark-fresh s id at e)
          (omega (arith, winners_used id at ts (cas.mark id at s).1 q (now_used id at s e)))
    | inr differs ↦
        rw differs
          (winners_fresh id ts (cas.mark j at s).1 q (consumed_of-mark_ne s id j at differs ∙ e))
  ]
