-- ===== src/Token/Keys/Ring.antt =====
-- The ring of signing keys as a state: its invariant, what a store of a key leaves, and which key
-- GetActive finds.
use authserver_go.Base.{
  String, ◌≡◌, ◌≢◌, sym, ap, ◌∙◌, true, false, Option, none, some, List, [], ◌∷◌, ◌++◌, string_eq,
  eq_iff, arith, Bool-cases, Option-cases, inl, inr, if◌then◌else◌, contains, ◌==◌, some_inj, ◌⊎◌,
}
use authserver_go.Base.Assoc.{Assoc, lookup, lookup-insert}
use authserver_go.Domain.Entities.{SigningKey}
use authserver_go.Store.Error.{ok, err, not_found}
use authserver_go.Store.Keys.{SigningKeyStore, first_active, get_active, store}

abbrev pub row : SigningKeyStore → String → Option SigningKey
row s kid = lookup kid s.keys

-- Each key stands under its id, which is not empty, and in the order.
pub record IsFiled (s : SigningKeyStore) : Type 0 where
  pub filed : (kid : String) (k : SigningKey) → row s kid ≡ some k → k.key_id ≡ kid
  pub named : (kid : String) (k : SigningKey) → row s kid ≡ some k → kid ≢ ""
  pub listed : (kid : String) (k : SigningKey) → row s kid ≡ some k → contains s.order kid ≡ true

-- One key at most is active as well.
pub record IsRing (s : SigningKeyStore) : Type 0 where
  pub files : IsFiled s
  pub one :
      (i j : String) (k l : SigningKey)
      → row s i ≡ some k
      → row s j ≡ some l
      → k.is_active ≡ true
      → l.is_active ≡ true
      → i ≡ j

-- GetActive finds a key that is stored and active.
first_active-row :
    (keys : Assoc String SigningKey) (order : List String) (k : SigningKey)
    → first_active keys order ≡ some k
    → (kid : String) × (lookup kid keys ≡ some k) × (k.is_active ≡ true)
unfolding first_active
first_active-row keys [] k h = cc
first_active-row keys (kid ∷ order) k h = elim (Option-cases (lookup kid keys)) [
  | inl gone ↦ first_active-row keys order k (ground (arith, h, gone))
  | inr (k', e) ↦ elim (Bool-cases k'.is_active) [
    | inl on ↦ (kid, ground (arith, h, e, on), ground (arith, h, e, on))
    | inr off ↦ first_active-row keys order k (ground (arith, h, e, off))
  ]
]

-- And it finds one where there is one.
first_active-none :
    (keys : Assoc String SigningKey) (order : List String) (kid : String) (k : SigningKey)
    → first_active keys order ≡ none
    → contains order kid ≡ true
    → lookup kid keys ≡ some k
    → k.is_active ≡ false
unfolding first_active
first_active-none keys [] kid k h c e = cc
first_active-none keys (i ∷ order) kid k h c e =
    ground (arith, h, c, e, eq_iff i kid, first_active-none keys order kid k)

pub contains-snoc :
    (x y : String) (xs : List String) → contains xs x ≡ true → contains (xs ++ y ∷ []) x ≡ true
contains-snoc x y [] h = cc
contains-snoc x y (z ∷ xs) h = ground (arith, h, contains-snoc x y xs)

pub contains-last : (y : String) (xs : List String) → contains (xs ++ y ∷ []) y ≡ true
contains-last y [] = ground (arith, eq_iff y y)
contains-last y (z ∷ xs) = ground (arith, contains-last y xs)

-- The stores of a key that are not refused.
pub store-row :
    (k : SigningKey) (s : SigningKeyStore) (kid : String)
    → k.key_id ≢ ""
    → row (store (some k) s).1 kid ≡ (if k.key_id == kid then some k else row s kid)
unfolding store
store-row k s kid named = ground (arith, eq_iff k.key_id "", lookup-insert k.key_id kid k s.keys)

pub store-answer :
    (k : SigningKey) (s : SigningKeyStore) → k.key_id ≢ "" → (store (some k) s).0 ≡ ok tt
unfolding store
store-answer k s named = ground (arith, eq_iff k.key_id "")

pub store-keeps :
    (k : SigningKey) (s : SigningKeyStore) (kid : String)
    → contains s.order kid ≡ true
    → contains (store (some k) s).1.order kid ≡ true
unfolding store
store-keeps k s kid h = ground (arith, h, contains-snoc kid k.key_id s.order)

pub store-lists :
    (k : SigningKey) (s : SigningKeyStore)
    → k.key_id ≢ ""
    → row s k.key_id ≡ none
    → contains (store (some k) s).1.order k.key_id ≡ true
unfolding store
store-lists k s named new = ground (arith, eq_iff k.key_id "", new, contains-last k.key_id s.order)

-- The key that GetActive finds is stored and active, and where a key is active, it finds that one.
pub get_active-row :
    (s : SigningKeyStore) (k : SigningKey)
    → get_active s ≡ ok k
    → (kid : String) × (row s kid ≡ some k) × (k.is_active ≡ true)
unfolding get_active
get_active-row s k h = elim (Option-cases (first_active s.keys s.order)) [
  | inl e ↦ absurd (ground (arith, h, e))
  | inr (k', e) ↦ first_active-row s.keys s.order k (ground (arith, h, e))
]

pub get_active-none :
    (s : SigningKeyStore) (kid : String) (k : SigningKey)
    → IsRing s
    → get_active s ≡ err not_found
    → row s kid ≡ some k
    → k.is_active ≡ false
unfolding get_active
get_active-none s kid k v h e = elim (Option-cases (first_active s.keys s.order)) [
  | inl none_active ↦ first_active-none s.keys s.order kid k none_active (v.files.listed kid k e) e
  | inr (k', found) ↦ absurd (ground (arith, h, found))
]

pub get_active-cases :
    (s : SigningKeyStore)
    → (get_active s ≡ err not_found) ⊎ ((k : SigningKey) × (get_active s ≡ ok k))
unfolding get_active
get_active-cases s = elim (Option-cases (first_active s.keys s.order)) [
  | inl e ↦ inl (ground (arith, e))
  | inr (k, e) ↦ inr (k, ground (arith, e))
]

pub active_found :
    (s : SigningKeyStore) (kid : String) (k : SigningKey)
    → IsRing s
    → row s kid ≡ some k
    → k.is_active ≡ true
    → get_active s ≡ ok k
active_found s kid k v e on = elim (get_active-cases s) [
  | inl none_active ↦ absurd (cc (get_active-none s kid k v none_active e, on))
  | inr (k', found) ↦
      let (kid', e', on') = get_active-row s k' found in
      let same : kid' ≡ kid = v.one kid' kid k' k e' e on' on in
      found ∙ ap ok (some_inj k' k (sym e' ∙ ap (row s) same ∙ e))
]

-- A store of a key with an id keeps what does not speak of activity.
module _ (k : SigningKey) (s : SigningKeyStore) (v : IsFiled s) (known : k.key_id ≢ "") where
  store-filed :
      (kid : String) (l : SigningKey) → row (store (some k) s).1 kid ≡ some l → l.key_id ≡ kid
  store-filed kid l e =
      ground (arith, e, store-row k s kid known, eq_iff k.key_id kid, v.filed kid l)

  store-named : (kid : String) (l : SigningKey) → row (store (some k) s).1 kid ≡ some l → kid ≢ ""
  store-named kid l e =
      ground (arith, e, known, store-row k s kid known, eq_iff k.key_id kid, v.named kid l)

  store-listed :
      (kid : String) (l : SigningKey)
      → contains (store (some k) s).1.order k.key_id ≡ true
      → row (store (some k) s).1 kid ≡ some l
      → contains (store (some k) s).1.order kid ≡ true
  store-listed kid l own e = elim (Bool-cases (k.key_id == kid)) [
    | inl same ↦ ap (contains (store (some k) s).1.order) (sym ((eq_iff k.key_id kid).0 same)) ∙ own
    | inr differs ↦
        store-keeps k s kid (v.listed kid l (ground (arith, e, store-row k s kid known, differs)))
  ]

  pub store-IsFiled :
      contains (store (some k) s).1.order k.key_id ≡ true → IsFiled (store (some k) s).1
  store-IsFiled own = record {
    filed = store-filed;
    named = store-named;
    listed = λ kid l e. store-listed kid l own e;
  }
