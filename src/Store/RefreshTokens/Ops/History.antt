-- ===== src/Store/RefreshTokens/Ops/History.antt =====
-- What a history of calls leaves of one refresh token: its fields stay, and a consumption or a
-- revocation, once recorded, is never changed or undone.
use authserver_go.Base.{
  ◌≡◌, refl, ap, sym, subst, is_some, some_inj, ◌∙◌, Bool, true, false, Option, none, some, List,
  [], ◌∷◌, map, any, ◌==◌, string_eq, nat_eq, nat_beq_iff, arith, if◌then◌else◌, Option-cases,
  Bool-cases, inl, inr, map_some, ◌⊎◌,
}
use authserver_go.Domain.Time.{Time, Uuid}
use authserver_go.Domain.Entities.{RefreshToken}
use authserver_go.Store.Contract.{winners, tries, winners_fresh}
use authserver_go.Store.RefreshTokens.{
  RefreshTokenStore, mark_consumed, revoke, revoke_in, revoke_by_session_id,
}
use authserver_go.Store.RefreshTokens.Laws.{
  row, consumed_row, row-mark_consumed, mark_consumed_again, mark_consumed_missing, revoked_row,
  row-revoke_by_session_id, row-revoke,
}
use authserver_go.Store.RefreshTokens.Ops.{
  Op, stores, marks_consumed, revokes, revokes_session, step, run, Keeps, turn_of, refresh_cas,
  store-quiet, Keeps-Quiet,
}

-- Of the requests that try to consume a stored, unconsumed token, whatever other calls run between
-- them and in whatever order, exactly one wins if any tries, as long as no call stores a row under
-- the token's id.
pub one_winner :
    (id : Uuid) (os : List Op) (s : RefreshTokenStore)
    → Keeps id os
    → consumed_row s id ≡ some none
    → winners refresh_cas id (map turn_of os) s
      ≡ (if any (tries refresh_cas id) (map turn_of os) then 1 else 0)
one_winner id os s k e = winners_fresh refresh_cas id (map turn_of os) s (Keeps-Quiet id os k) e

-- A time that is set stays as it is.
abbrev pub Sticks : Option Time → Option Time → Type 0
Sticks none later = Unit {0}
Sticks (some t) later = later ≡ some t

Sticks-refl : (o : Option Time) → Sticks o o
Sticks-refl none = tt
Sticks-refl (some t) = refl

Sticks-trans : (o p q : Option Time) → Sticks o p → Sticks p q → Sticks o q
Sticks-trans none p q h k = tt
Sticks-trans (some t) none q h k = absurd (cc)
Sticks-trans (some t) (some u) q h k = k ∙ h

pub record Evolves (t u : RefreshToken) : Type 0 where
  pub same : u ≡ record t { consumed_at = u.consumed_at; revoked_at = u.revoked_at }
  pub consumption : Sticks t.consumed_at u.consumed_at
  pub revocation : Sticks t.revoked_at u.revoked_at

Evolves-refl : (t : RefreshToken) → Evolves t t
Evolves-refl t = record {
  same = refl;
  consumption = Sticks-refl t.consumed_at;
  revocation = Sticks-refl t.revoked_at;
}

Evolves-trans : (t u v : RefreshToken) → Evolves t u → Evolves u v → Evolves t v
Evolves-trans t u v a b = record {
  same =
      b.same
      ∙ ap
          (λ (w : RefreshToken). record w {
            consumed_at = v.consumed_at;
            revoked_at = v.revoked_at;
          })
          a.same;
  consumption = Sticks-trans t.consumed_at u.consumed_at v.consumed_at a.consumption b.consumption;
  revocation = Sticks-trans t.revoked_at u.revoked_at v.revoked_at a.revocation b.revocation;
}

abbrev After : RefreshToken → RefreshTokenStore → Uuid → Type 0
After t s id = (u : RefreshToken) × (row s id ≡ some u) × Evolves t u

consume-Evolves :
    (t : RefreshToken) (at : Time)
    → t.consumed_at ≡ none
    → Evolves t (record t { consumed_at = some at })
consume-Evolves t at e = record {
  same = refl;
  consumption = rw e tt;
  revocation = Sticks-refl t.revoked_at;
}

revoke-Evolves :
    (t : RefreshToken) (at : Time)
    → t.revoked_at ≡ none
    → Evolves t (record t { revoked_at = some at })
revoke-Evolves t at e = record {
  same = refl;
  consumption = Sticks-refl t.consumed_at;
  revocation = rw e tt;
}

Evolves-if :
    (b : Bool) (t u : RefreshToken) → (b ≡ true → Evolves t u) → Evolves t (if b then u else t)
Evolves-if true t u h = h refl
Evolves-if false t u h = Evolves-refl t

is_none→none : (t : RefreshToken) → is_some t.revoked_at ≡ false → t.revoked_at ≡ none
is_none→none t h = ground arith

revoked_row-Evolves : (at : Time) (t : RefreshToken) → Evolves t (revoked_row at t)
revoked_row-Evolves at t = elim (Bool-cases (is_some t.revoked_at)) [
  | inl revoked ↦ subst (Evolves t) (sym (kept revoked)) (Evolves-refl t)
  | inr live ↦ subst (Evolves t) (sym (set live)) (revoke-Evolves t at (is_none→none t live))
]
  where
    kept : is_some t.revoked_at ≡ true → revoked_row at t ≡ t
    kept h = ap (λ b. if b then t else record t { revoked_at = some at }) h

    set : is_some t.revoked_at ≡ false → revoked_row at t ≡ record t { revoked_at = some at }
    set h = ap (λ b. if b then t else record t { revoked_at = some at }) h

revoke_in-Evolves :
    (session : Uuid) (at : Time) (t : RefreshToken) → Evolves t (revoke_in session at t)
unfolding revoke_in
revoke_in-Evolves session at t =
    Evolves-if _ t (record t { revoked_at = some at })
      (λ h. revoke-Evolves t at (ground (arith, h)))

consumed-cases :
    (s : RefreshTokenStore) (i : Uuid) (at : Time)
    → (mark_consumed i at s).1 ≡ s
      ⊎ ((r : RefreshToken) × (row s i ≡ some r) × (r.consumed_at ≡ none))
consumed-cases s i at = elim (Option-cases (row s i)) [
  | inl e ↦ inl (ap (λ r. r.1) (mark_consumed_missing s i at e))
  | inr (r, e) ↦ elim (Option-cases r.consumed_at) [
    | inl c ↦ inr (r, e, c)
    | inr (used, c) ↦ inl (ap (λ x. x.1) (mark_consumed_again s i at used r e c))
  ]
]

mark_consumed-After :
    (s : RefreshTokenStore) (i id : Uuid) (at : Time) (t : RefreshToken)
    → row s id ≡ some t
    → After t (mark_consumed i at s).1 id
mark_consumed-After s i id at t e = elim (consumed-cases s i at) [
  | inl unchanged ↦ (t, ap (λ x. row x id) unchanged ∙ e, Evolves-refl t)
  | inr (r, p, c) ↦ elim (Bool-cases (i == id)) [
    | inl same ↦
        let q : i ≡ id = (nat_beq_iff i id).0 same in
        let found : r ≡ t = some_inj r t (sym p ∙ ap (row s) q ∙ e) in
        (
          record r { consumed_at = some at },
          row-mark_consumed s i id at r p c ∙ rw same,
          subst (λ x. Evolves x (record r { consumed_at = some at })) found
              (consume-Evolves r at c),
        )
    | inr differs ↦ (t, row-mark_consumed s i id at r p c ∙ rw differs e, Evolves-refl t)
  ]
]

revoke-After :
    (s : RefreshTokenStore) (i id : Uuid) (at : Time) (t : RefreshToken)
    → row s id ≡ some t
    → After t (revoke i at s).1 id
revoke-After s i id at t e = elim (Bool-cases (i == id)) [
  | inl same ↦ (revoked_row at t, row-revoke s i id at ∙ rw (same, e), revoked_row-Evolves at t)
  | inr differs ↦ (t, row-revoke s i id at ∙ rw differs e, Evolves-refl t)
]

revoke_session-After :
    (s : RefreshTokenStore) (i id : Uuid) (at : Time) (t : RefreshToken)
    → row s id ≡ some t
    → After t (revoke_by_session_id i at s).1 id
revoke_session-After s i id at t e = (
  revoke_in i at t,
  row-revoke_by_session_id s i at id ∙ ap (map_some (revoke_in i at)) e,
  revoke_in-Evolves i at t,
)

step-After :
    (o : Op) (os : List Op) (s : RefreshTokenStore) (id : Uuid) (t : RefreshToken)
    → Keeps id (o ∷ os)
    → row s id ≡ some t
    → After t (step o s) id × Keeps id os
unfolding step
step-After (stores r) os s id t k e = ((t, store-quiet s r id k.0 ∙ e, Evolves-refl t), k.1)
step-After (marks_consumed i at) os s id t k e = (mark_consumed-After s i id at t e, k)
step-After (revokes i at) os s id t k e = (revoke-After s i id at t e, k)
step-After (revokes_session i at) os s id t k e = (revoke_session-After s i id at t e, k)

-- Whatever calls follow, as long as none stores a row under the token's id: the token stays in the
-- store with the fields that it was minted with, and if it was consumed or revoked it stays so, at
-- the time that was recorded first.
pub run-Evolves :
    (os : List Op) (s : RefreshTokenStore) (id : Uuid) (t : RefreshToken)
    → Keeps id os
    → row s id ≡ some t
    → (u : RefreshToken) × (row (run os s) id ≡ some u) × Evolves t u
unfolding run
run-Evolves [] s id t k e = (t, e, Evolves-refl t)
run-Evolves (o ∷ os) s id t k e =
    let (found, rest) = step-After o os s id t k e in
    let (u, p, a) = found in
    let (v, q, b) = run-Evolves os (step o s) id u rest p in (v, q, Evolves-trans t u v a b)
