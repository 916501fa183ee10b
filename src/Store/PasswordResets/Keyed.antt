-- ===== src/Store/PasswordResets/Keyed.antt =====
-- The rows of PasswordResetStore stand under their own ids, one row for each; its operations keep
-- that, and what a hash leads to follows each of them.
use authserver_go.Base.{
  String, ◌≡◌, refl, ◌∙◌, ap, sym, none, some, [], ◌∷◌, ◌==◌, string_eq, nat_eq, eq_iff, arith,
  nat_beq_iff, map_some, is_some, Bool-cases, inl, inr, Option-cases, ◌||◌, not, subst,
}
use authserver_go.Base.Assoc.{Assoc, lookup, insert, lookup-insert, update_all, lookup-update_all}
use authserver_go.Domain.Time.{Time, Uuid, before}
use authserver_go.Domain.Entities.{PasswordResetToken}
use authserver_go.Store.PasswordResets.{
  PasswordResetStore, first_with, create, consume, invalidate, invalidate_for_user, delete_loop,
  delete_expired,
}

abbrev pub Rows : Type 0
Rows = Assoc Uuid PasswordResetToken

unfoldable pub Keyed : Rows → Type 0
Keyed [] = Unit
Keyed ((id, t) ∷ m) = (t.id ≡ id) × (lookup id m ≡ none) × Keyed m

-- Each of the operations that change the store, with its arguments.
pub data ResetOp : Type 0 where
  creates : PasswordResetToken → ResetOp
  consumes : Uuid → Time → ResetOp
  invalidates : String → Time → ResetOp
  deletes_expired : Time → ResetOp

unfoldable pub step : ResetOp → PasswordResetStore → PasswordResetStore
step (creates t) s = (create (some t) s).1
step (consumes id now) s = (consume id now s).1
step (invalidates user now) s = (invalidate_for_user user now s).1
step (deletes_expired cutoff) s = (delete_expired cutoff s).1

Keyed-insert : (t : PasswordResetToken) (m : Rows) → Keyed m → Keyed (insert t.id t m)
unfolding Keyed insert lookup
Keyed-insert t [] k = (refl, refl, tt)
Keyed-insert t ((i, u) ∷ m) (own, apart, k) = elim (Bool-cases (i == t.id)) [
  | inl same ↦ rw same (refl, ap (λ x. lookup x m) (sym ((nat_beq_iff i t.id).0 same)) ∙ apart, k)
  | inr differs ↦ rw differs (
    own,
    lookup-insert t.id i t m
        ∙ ground (arith, apart, nat_beq_iff t.id i, nat_beq_iff i t.id, differs),
    Keyed-insert t m k,
  )
]

Keyed-update_all :
    (f : PasswordResetToken → PasswordResetToken) (m : Rows)
    → ((t : PasswordResetToken) → (f t).id ≡ t.id)
    → Keyed m
    → Keyed (update_all f m)
unfolding Keyed update_all
Keyed-update_all f [] same k = tt
Keyed-update_all f ((i, u) ∷ m) same (own, apart, k) =
    (same u ∙ own, lookup-update_all f i m ∙ ap (map_some f) apart, Keyed-update_all f m same k)

lookup-delete_loop :
    (cutoff : Time) (id : Uuid) (m : Rows)
    → lookup id m ≡ none
    → lookup id (delete_loop cutoff m).0 ≡ none
unfolding delete_loop lookup
lookup-delete_loop cutoff id [] e = refl
lookup-delete_loop cutoff id ((i, u) ∷ m) e =
    ground (arith, nat_beq_iff i id, lookup-delete_loop cutoff id m)

Keyed-delete_loop : (cutoff : Time) (m : Rows) → Keyed m → Keyed (delete_loop cutoff m).0
unfolding Keyed delete_loop
Keyed-delete_loop cutoff [] k = tt
Keyed-delete_loop cutoff ((i, u) ∷ m) (own, apart, k) =
    elim (Bool-cases (before u.expires_at cutoff)) [
      | inl gone ↦ rw gone (Keyed-delete_loop cutoff m k)
      | inr live ↦ rw live (own, lookup-delete_loop cutoff i m apart, Keyed-delete_loop cutoff m k)
    ]

lookup-Keyed :
    (id : Uuid) (t : PasswordResetToken) (m : Rows) → Keyed m → lookup id m ≡ some t → t.id ≡ id
unfolding Keyed lookup
lookup-Keyed id t [] k e = absurd (cc e)
lookup-Keyed id t ((i, u) ∷ m) (own, apart, k) e =
    ground (arith, own, nat_beq_iff i id, lookup-Keyed id t m k)

invalidate-id :
    (user : String) (now : Time) (t : PasswordResetToken) → (invalidate user now t).id ≡ t.id
unfolding invalidate
invalidate-id user now t = ground arith

create-Keyed :
    (t : PasswordResetToken) (s : PasswordResetStore)
    → Keyed s.tokens
    → Keyed (create (some t) s).1.tokens
create-Keyed t s k = elim (Bool-cases (t.token_hash == "")) [
  | inl blank ↦ unfold create in rw blank k
  | inr named ↦ elim (Bool-cases (is_some (first_with t.token_hash s.tokens))) [
    | inl taken ↦ unfold create in rw (named, taken) k
    | inr fresh ↦ unfold create in rw (named, fresh) (Keyed-insert t s.tokens k)
  ]
]

consume-Keyed :
    (id : Uuid) (now : Time) (s : PasswordResetStore)
    → Keyed s.tokens
    → Keyed (consume id now s).1.tokens
unfolding consume
consume-Keyed id now s k = elim (Option-cases (lookup id s.tokens)) [
  | inl n ↦ rw (n, consume) k
  | inr (t, e) ↦ elim (Bool-cases (is_some t.consumed_at || not (before now t.expires_at))) [
    | inl dead ↦ rw (e, consume, dead) k
    | inr live ↦
        rw (e, consume, live)
          (subst (λ i. Keyed (insert i (record t { consumed_at = some now }) s.tokens))
            (lookup-Keyed id t s.tokens k e)
            (Keyed-insert (record t { consumed_at = some now }) s.tokens k))
  ]
]

-- The calls of PasswordResetStore that change it, in whatever order and with whatever arguments, keep
-- the rows under their own ids and one row for each id.
pub step-Keyed : (o : ResetOp) (s : PasswordResetStore) → Keyed s.tokens → Keyed (step o s).tokens
unfolding step invalidate_for_user delete_expired
step-Keyed (creates t) s k = create-Keyed t s k
step-Keyed (consumes id now) s k = consume-Keyed id now s k
step-Keyed (invalidates user now) s k =
    Keyed-update_all (invalidate user now) s.tokens (invalidate-id user now) k
step-Keyed (deletes_expired cutoff) s k = Keyed-delete_loop cutoff s.tokens k

-- What a hash leads to: in a keyed store it is a row, and it follows the row through Consume and
-- InvalidateForUser.
pub first_with-lookup :
    (hash : String) (t : PasswordResetToken) (m : Rows)
    → Keyed m
    → first_with hash m ≡ some t
    → (lookup t.id m ≡ some t) × (t.token_hash ≡ hash)
unfolding Keyed first_with lookup
first_with-lookup hash t [] k e = absurd (cc e)
first_with-lookup hash t ((i, u) ∷ m) (own, apart, k) e = ground (
  arith,
  own,
  apart,
  e,
  eq_iff u.token_hash hash,
  nat_beq_iff i t.id,
  first_with-lookup hash t m k,
)

pub first_with-insert :
    (hash : String) (t v : PasswordResetToken) (m : Rows)
    → Keyed m
    → first_with hash m ≡ some t
    → v.token_hash ≡ hash
    → first_with hash (insert t.id v m) ≡ some v
unfolding Keyed first_with insert
first_with-insert hash t v [] k e own_hash = absurd (cc e)
first_with-insert hash t v ((i, u) ∷ m) (own, apart, k) e own_hash = ground (
  arith,
  own,
  apart,
  e,
  own_hash,
  eq_iff u.token_hash hash,
  eq_iff v.token_hash hash,
  nat_beq_iff i t.id,
  first_with-lookup hash t m k,
  first_with-insert hash t v m k,
)

pub first_with-update_all :
    (hash : String) (f : PasswordResetToken → PasswordResetToken) (m : Rows)
    → ((t : PasswordResetToken) → (f t).token_hash ≡ t.token_hash)
    → first_with hash (update_all f m) ≡ map_some f (first_with hash m)
unfolding first_with update_all
first_with-update_all hash f [] same = refl
first_with-update_all hash f ((i, u) ∷ m) same = ground (
  arith,
  same u,
  eq_iff u.token_hash hash,
  eq_iff (f u).token_hash hash,
  first_with-update_all hash f m same,
)
