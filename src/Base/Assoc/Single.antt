-- ===== src/Base/Assoc/Single.antt =====
-- A map holds one value under each key: what holds of the lists that stand for maps.
use mathlib.Core.List.{[], ◌∷◌}
use mathlib.Core.Path.{◌≡◌, refl}
use mathlib.Core.Logic.{◌⊎◌, inl, inr}
use mathlib.Core.Bool.{Bool}
use mathlib.Core.Option.{Option, none, some}
use native.Mathlib.Omega.{arith}
use authserver_go.Base.Tests.{if◌then◌else◌, Bool-cases}
use authserver_go.Base.Equality.{Eq, ◌==◌}
use authserver_go.Base.Assoc.{Assoc, lookup, insert, erase, prune, lookup-insert, lookup-erase}

abbrev pub kept {ℓ} : {V : Type ℓ} → (V → Bool) → Option V → Option V
kept drop none = none
kept drop (some v) = if drop v then none else some v

module _ {K V : Type 0} ⦃e : Eq K⦄ where
  pub lookup-nil : (k : K) (m : Assoc K V) → m ≡ [] → lookup k m ≡ none
  unfolding lookup
  lookup-nil k [] e = refl
  lookup-nil k (x ∷ m) e = cc

  unfoldable pub OneEach : Assoc K V → Type 0
  OneEach [] = Unit
  OneEach ((k, v) ∷ m) = (lookup k m ≡ none) × OneEach m

  pub OneEach-insert : (k : K) (v : V) (m : Assoc K V) → OneEach m → OneEach (insert k v m)
  unfolding OneEach insert lookup
  OneEach-insert k v [] o = (refl, tt)
  OneEach-insert k v ((j, w) ∷ m) (apart, o) = elim (Bool-cases (j == k)) [
    | inl same ↦ rw same (ground (arith, e.equal_iff j k), o)
    | inr differs ↦ rw differs (
      ground (arith, e.equal_iff k j, e.equal_iff j k, lookup-insert k j v m),
      OneEach-insert k v m o,
    )
  ]

  lookup-prune_absent :
      (drop : V → Bool) (k : K) (m : Assoc K V) → lookup k m ≡ none → lookup k (prune drop m) ≡ none
  unfolding lookup prune
  lookup-prune_absent drop k [] h = refl
  lookup-prune_absent drop k ((j, w) ∷ m) h =
      ground (arith, e.equal_iff j k, lookup-prune_absent drop k m)

  pub OneEach-prune : (drop : V → Bool) (m : Assoc K V) → OneEach m → OneEach (prune drop m)
  unfolding OneEach prune
  OneEach-prune drop [] o = tt
  OneEach-prune drop ((j, w) ∷ m) (apart, o) = elim (Bool-cases (drop w)) [
    | inl gone ↦ rw gone (OneEach-prune drop m o)
    | inr stays ↦ rw stays (lookup-prune_absent drop j m apart, OneEach-prune drop m o)
  ]

  -- What a read finds after a clean-up.
  pub lookup-prune :
      (drop : V → Bool) (k : K) (m : Assoc K V)
      → OneEach m
      → lookup k (prune drop m) ≡ kept drop (lookup k m)
  unfolding lookup prune OneEach
  lookup-prune drop k [] o = refl
  lookup-prune drop k ((j, w) ∷ m) (apart, o) =
      ground (arith, e.equal_iff j k, lookup-prune drop k m o, lookup-prune_absent drop k m)

  -- A value that is found after a write is the one written, or was there.
  pub lookup-insert_cases :
      (k j : K) (v w : V) (m : Assoc K V)
      → lookup j (insert k v m) ≡ some w
      → (w ≡ v) ⊎ (lookup j m ≡ some w)
  lookup-insert_cases k j v w m h = elim (Bool-cases (k == j)) [
    | inl same ↦ inl (ground (arith, lookup-insert k j v m, same, h))
    | inr differs ↦ inr (ground (arith, lookup-insert k j v m, differs, h))
  ]

  -- The same, with what is known of the key.
  pub lookup-insert_split :
      (k j : K) (v w : V) (m : Assoc K V)
      → lookup j (insert k v m) ≡ some w
      → ((k ≡ j) × (v ≡ w)) ⊎ (lookup j m ≡ some w)
  lookup-insert_split k j v w m h = elim (Bool-cases (k == j)) [
    | inl same ↦ inl ((e.equal_iff k j).0 same, ground (arith, lookup-insert k j v m, same, h))
    | inr differs ↦ inr (ground (arith, lookup-insert k j v m, differs, h))
  ]

  pub lookup-erase-some :
      (k j : K) (w : V) (m : Assoc K V) → lookup j (erase k m) ≡ some w → lookup j m ≡ some w
  lookup-erase-some k j w m h = ground (arith, lookup-erase k j m, h)
