-- ===== src/Base/Text/Fold.antt =====
-- strings.EqualFold as an equivalence of texts, and how often a text stands in a list up to it.
use Prim.Native.Nat.{ℕ, suc, ◌-◌}
use Prim.Native.String.{String}
use Prim.Native.Char.{code}
use mathlib.Core.Path.{◌≡◌, refl}
use mathlib.Core.Bool.{Bool, true, not}
use mathlib.Core.List.{List, [], ◌∷◌}
use native.Mathlib.Omega.{arith}
use authserver_go.Base.Tests.{if◌then◌else◌, nat_beq, nat_beq_iff}
use authserver_go.Base.Lists.{any, select, remove_last, remove_each}
use authserver_go.Base.Text.{equal_fold, fold_rune}

pub equal_fold_sym : (s t : String) → equal_fold s t ≡ equal_fold t s
unfolding equal_fold
equal_fold_sym String.[] String.[] = refl
equal_fold_sym String.[] (String.◌∷◌ d t) = refl
equal_fold_sym (String.◌∷◌ c s) String.[] = refl
equal_fold_sym (String.◌∷◌ c s) (String.◌∷◌ d t) = ground (
  arith,
  equal_fold_sym s t,
  nat_beq_iff (fold_rune (code c)) (fold_rune (code d)),
  nat_beq_iff (fold_rune (code d)) (fold_rune (code c)),
)

-- Equal texts are equal to the same texts.
pub equal_fold_same : (s t x : String) → equal_fold s t ≡ true → equal_fold s x ≡ equal_fold t x
unfolding equal_fold
equal_fold_same String.[] String.[] x e = refl
equal_fold_same String.[] (String.◌∷◌ d t) x e = cc
equal_fold_same (String.◌∷◌ c s) String.[] x e = cc
equal_fold_same (String.◌∷◌ c s) (String.◌∷◌ d t) String.[] e = refl
equal_fold_same (String.◌∷◌ c s) (String.◌∷◌ d t) (String.◌∷◌ f x) e = ground (
  arith,
  e,
  equal_fold_same s t x,
  nat_beq_iff (fold_rune (code c)) (fold_rune (code d)),
  nat_beq_iff (fold_rune (code c)) (fold_rune (code f)),
  nat_beq_iff (fold_rune (code d)) (fold_rune (code f)),
)

-- How many entries are equal to a text.
abbrev pub number : String → List String → ℕ
number x [] = 0
number x (y ∷ ys) = let rest = number x ys in if equal_fold y x then suc rest else rest

abbrev pub occurs : String → List String → Bool
occurs x ys = any (λ y. equal_fold y x) ys

pub occurs-number : (x : String) (ys : List String) → occurs x ys ≡ not (nat_beq (number x ys) 0)
occurs-number x [] = refl
occurs-number x (y ∷ ys) = ground (arith, occurs-number x ys)

-- The same entries are equal to equal texts.
pub occurs-same :
    (s t : String) (ys : List String) → equal_fold s t ≡ true → occurs s ys ≡ occurs t ys
occurs-same s t [] e = refl
occurs-same s t (y ∷ ys) e = ground (
  arith,
  e,
  equal_fold_same s t y e,
  equal_fold_sym s y,
  equal_fold_sym t y,
  occurs-same s t ys e,
)

-- One entry goes, if there is one that is equal.
number-remove_last :
    (r x : String) (ys : List String)
    → number x (remove_last (λ y. equal_fold y r) ys)
      ≡ number x ys - (if equal_fold r x then 1 else 0)
number-remove_last r x [] = ground arith
number-remove_last r x (y ∷ ys) = ground (
  arith,
  number-remove_last r x ys,
  equal_fold_same y r x,
  equal_fold_same r x y,
  equal_fold_sym r y,
  equal_fold_sym x y,
  occurs-number x ys,
  occurs-same r x ys,
)

pub number-remove_each :
    (x : String) (rs ys : List String)
    → number x (remove_each equal_fold rs ys) ≡ number x ys - number x rs
number-remove_each x [] ys = omega arith
number-remove_each x (r ∷ rs) ys = ground (
  arith,
  number-remove_each x rs (remove_last (λ y. equal_fold y r) ys),
  number-remove_last r x ys,
)

-- A test that does not tell equal texts apart.
pub number-select :
    (p : String → Bool) (x : String) (ys : List String)
    → ((s : String) → equal_fold s x ≡ true → p s ≡ p x)
    → number x (select p ys) ≡ (if p x then number x ys else 0)
number-select p x [] same = ground arith
number-select p x (y ∷ ys) same = ground (arith, number-select p x ys same, same y)
