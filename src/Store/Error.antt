-- ===== src/Store/Error.antt =====
-- The errors of internal/store/store.go and of internal/store/memory/errors.go.
use mathlib.Core.Path.{◌≡◌}

pub data StoreError : Type 0 where
  not_found duplicate nil_entity empty_id empty_hash : StoreError

pub data Result {ℓ} (A : Type ℓ) : Type ℓ where
  ok : A → Result A
  err : StoreError → Result A

-- A method that mutates its store.
abbrev pub Update {ℓ} : Type ℓ → Type ℓ → Type ℓ
Update S A = S → Result A × S

pub ok_inj {ℓ} : {A : Type ℓ} (a b : A) → ok a ≡ ok b → a ≡ b
ok_inj a b h = cc
