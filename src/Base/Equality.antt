-- ===== src/Base/Equality.antt =====
-- Go's `==` on the types that serve as keys: numbers (for UUIDs) and strings.
use Prim.Native.Nat.{ℕ}
use Prim.Native.String.{String}
use mathlib.Core.Path.{◌≡◌, refl}
use mathlib.Core.Logic.{◌↔◌, ◌≢◌}
use mathlib.Core.Bool.{Bool, true, false}
use text.Mathlib.Text.{◌==◌ as str_eq}
use text.Mathlib.TextEquality.{eq_iff}
use authserver_go.Base.Tests.{nat_beq, nat_beq_iff}
use native.Mathlib.Omega.{arith}

abbrev pub negb : Bool → Bool
negb true = false
negb false = true

-- Types with a Boolean test that tells equality.
pub record Eq {ℓ} (K : Type ℓ) : Type ℓ where
  pub equal : K → K → Bool
  pub equal_iff : (x y : K) → (equal x y ≡ true) ↔ (x ≡ y)

infix 50 ◌==◌ ◌!=◌
abbrev pub ◌==◌ {ℓ} : {K : Type ℓ} ⦃e : Eq K⦄ → K → K → Bool
◌==◌ ⦃e⦄ x y = e.equal x y

abbrev pub ◌!=◌ {ℓ} : {K : Type ℓ} ⦃e : Eq K⦄ → K → K → Bool
◌!=◌ ⦃e⦄ x y = negb (e.equal x y)

instance abbrev pub string_eq : Eq String
string_eq = record { equal_iff = eq_iff; equal = str_eq }

instance abbrev pub nat_eq : Eq ℕ
nat_eq = record { equal_iff = nat_beq_iff; equal = nat_beq }

module _ {ℓ} {A : Type ℓ} ⦃e : Eq A⦄ where
  pub beq_refl : (a : A) → (a == a) ≡ true
  beq_refl a = (e.equal_iff a a).1 refl

  pub beq→eq : (a b : A) → (a == b) ≡ true → a ≡ b
  beq→eq a b h = (e.equal_iff a b).0 h

  pub ne→not_beq : (a b : A) → a ≢ b → (a == b) ≡ false
  ne→not_beq a b h = ground (arith, e.equal_iff a b)

  pub not_beq→ne : (a b : A) → (a == b) ≡ false → a ≢ b
  not_beq→ne a b h = ground (arith, e.equal_iff a b)

-- A value whose two readings differ is no value at all.
pub true-ne-false : (b : Bool) → b ≡ true → b ≡ false → ⊥
true-ne-false b h k = cc
