-- ===== src/Base/Assoc.antt =====
-- Go's maps as association lists. The order of a `range` over a map is unspecified in Go: here it
-- is the order of the list.
pub mod Single
use mathlib.Core.List.{List, [], ◌∷◌}
use mathlib.Core.Path.{◌≡◌, refl}
use mathlib.Core.Bool.{Bool}
use mathlib.Core.Option.{Option, none, some}
use native.Mathlib.Omega.{arith}
use authserver_go.Base.Tests.{if◌then◌else◌, map_some}
use authserver_go.Base.Equality.{Eq, ◌==◌, beq_refl}

abbrev pub Assoc {ℓ κ} : Type ℓ → Type κ → Type (ℓ ⊔ κ)
Assoc K V = List (K × V)

-- for _, v := range m { out = append(out, v) }
abbrev pub values {ℓ κ} : {K : Type ℓ} {V : Type κ} → Assoc K V → List V
values [] = []
values ((k, v) ∷ m) = v ∷ values m

module _ {ℓ κ} {K : Type ℓ} {V : Type κ} ⦃e : Eq K⦄ where
  -- v, ok := m[k]
  unfoldable pub lookup : K → Assoc K V → Option V
  lookup k [] = none
  lookup k ((j, v) ∷ m) = if j == k then some v else lookup k m

  -- m[k] = v
  unfoldable pub insert : K → V → Assoc K V → Assoc K V
  insert k v [] = (k, v) ∷ []
  insert k v ((j, w) ∷ m) = let rest = insert k v m in if j == k then (k, v) ∷ m else (j, w) ∷ rest

  -- delete(m, k)
  unfoldable pub erase : K → Assoc K V → Assoc K V
  erase k [] = []
  erase k ((j, w) ∷ m) = let rest = erase k m in if j == k then rest else (j, w) ∷ rest

  -- for k, v := range m { m[k] = f(v) }
  unfoldable pub update_all : (V → V) → Assoc K V → Assoc K V
  update_all f [] = []
  update_all f ((j, w) ∷ m) = (j, f w) ∷ update_all f m

  -- for k, v := range m { if drop(v) { delete(m, k) } }
  unfoldable pub prune : (V → Bool) → Assoc K V → Assoc K V
  prune drop [] = []
  prune drop ((j, w) ∷ m) = let rest = prune drop m in if drop w then rest else (j, w) ∷ rest

  pub lookup-erase :
      (k j : K) (m : Assoc K V) → lookup j (erase k m) ≡ (if k == j then none else lookup j m)
  unfolding lookup erase
  lookup-erase k j [] = ground arith
  lookup-erase k j ((i, w) ∷ m) =
      ground (arith, e.equal_iff k j, e.equal_iff i k, e.equal_iff i j, lookup-erase k j m)

  pub lookup-update_all :
      (f : V → V) (j : K) (m : Assoc K V) → lookup j (update_all f m) ≡ map_some f (lookup j m)
  unfolding lookup update_all
  lookup-update_all f j [] = refl
  lookup-update_all f j ((i, w) ∷ m) = ground (arith, lookup-update_all f j m)

  -- What a read finds after a write.
  pub lookup-insert :
      (key at : K) (new : V) (m : Assoc K V)
      → lookup at (insert key new m) ≡ (if key == at then some new else lookup at m)
  unfolding lookup insert
  lookup-insert key at new [] = refl
  lookup-insert key at new ((other, old) ∷ m) = ground (
    arith,
    lookup-insert key at new m,
    e.equal_iff other at,
    e.equal_iff other key,
    e.equal_iff key at,
  )

  pub lookup-insert_self : (k : K) (v : V) (m : Assoc K V) → lookup k (insert k v m) ≡ some v
  lookup-insert_self k v m = simp (lookup-insert, beq_refl)
