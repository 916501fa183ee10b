-- ===== src/Token/Keys/Rotation.antt =====
-- What a rotation does to the ring of signing keys.
use authserver_go.Base.{
  String, ◌≡◌, ◌≢◌, refl, sym, ap, ◌∙◌, true, false, none, some, string_eq, eq_iff, arith,
  Bool-cases, inl, inr, if◌then◌else◌, ◌==◌,
}
use authserver_go.Domain.Time.{Time}
use authserver_go.Domain.Entities.{SigningKey}
use authserver_go.Store.Error.{ok, err, not_found}
use authserver_go.Store.Keys.{SigningKeyStore, get_active, store}
use authserver_go.Token.Keys.{
  KeyPair, key, new_key, generate_active, retired, retire, rotate_with, rotate,
}
use authserver_go.Token.Keys.Ring.{
  row, IsFiled, IsRing, store-row, store-answer, store-keeps, store-lists, get_active-row,
  get_active-none, get_active-cases, active_found, store-IsFiled,
}

module _ (pair : KeyPair) (now later : Time) (s : SigningKeyStore) where
  abbrev pub next : SigningKey
  next = new_key pair now

  abbrev grown : SigningKeyStore
  grown = (store (some next) s).1

  -- The two outcomes of Rotate for a pair with a new id.
  rotate_first :
      get_active s ≡ err not_found
      → pair.key_id ≢ ""
      → rotate (some pair) now later s ≡ (key next, grown)
  unfolding rotate rotate_with generate_active retire
  rotate_first e named = ground (arith, e, store-answer next s named)

  rotate_again :
      (previous : SigningKey)
      → get_active s ≡ ok previous
      → pair.key_id ≢ ""
      → previous.key_id ≢ ""
      → rotate (some pair) now later s ≡ (key next, (store (some (retired later previous)) grown).1)
  unfolding rotate rotate_with generate_active retire
  rotate_again previous e named known = ground (
    arith,
    e,
    store-answer next s named,
    store-answer (retired later previous) grown (unfold retired in known),
  )

  -- What a rotation leaves: a ring whose active key is the new one, and in which every key that was
  -- there keeps its public half and is not active.
  pub record Rotated (s' : SigningKeyStore) : Type 0 where
    pub ring : IsRing s'
    pub active : get_active s' ≡ ok next
    pub others :
        (kid : String) (k : SigningKey)
        → row s kid ≡ some k
        → (k' : SigningKey) × (row s' kid ≡ some k')
          × (k'.public_key_pem ≡ k.public_key_pem)
          × (k'.is_active ≡ false)

  module _ (v : IsRing s) (named : pair.key_id ≢ "") (new : row s pair.key_id ≡ none) where
    grown-row :
        (kid : String) → row grown kid ≡ (if pair.key_id == kid then some next else row s kid)
    grown-row kid = store-row next s kid named

    grown-IsFiled : IsFiled grown
    grown-IsFiled = store-IsFiled next s v.files named (store-lists next s named new)

    -- Without an active key, the new one is the only active one.
    Rotated-first : get_active s ≡ err not_found → Rotated grown
    Rotated-first e = record {
      ring = ring;
      active =
          active_found grown pair.key_id next ring
            (ground (arith, grown-row pair.key_id, eq_iff pair.key_id pair.key_id)) refl;
      others = λ kid k found. (
        k,
        ground (arith, found, new, grown-row kid, eq_iff pair.key_id kid),
        refl,
        get_active-none s kid k v e found,
      );
    }
      where
        only :
            (kid : String) (k : SigningKey)
            → row grown kid ≡ some k
            → k.is_active ≡ true
            → pair.key_id ≡ kid
        only kid k found on =
            ground
              (arith, found, on, grown-row kid, eq_iff pair.key_id kid, get_active-none s kid k v e)

        ring : IsRing grown
        ring = record {
          files = grown-IsFiled;
          one = λ i j k l a b on on'. sym (only i k a on) ∙ only j l b on';
        }

    module _ (old : SigningKey) (e : get_active s ≡ ok old) where
      abbrev shrunk : SigningKeyStore
      shrunk = (store (some (retired later old)) grown).1

      old-row : (row s old.key_id ≡ some old) × (old.is_active ≡ true)
      old-row =
          let (kid, found, on) = get_active-row s old e in
          (ap (row s) (v.files.filed kid old found) ∙ found, on)

      old_named : old.key_id ≢ ""
      old_named = v.files.named old.key_id old old-row.0

      shrunk-row :
          (kid : String)
          → row shrunk kid ≡ (
              if old.key_id == kid
              then some (retired later old)
              else if pair.key_id == kid
              then some next
              else row s kid)
      unfolding retired
      shrunk-row kid =
          ground (arith, store-row (retired later old) grown kid old_named, grown-row kid)

      shrunk-IsFiled : IsFiled shrunk
      unfolding retired
      shrunk-IsFiled = store-IsFiled (retired later old) grown grown-IsFiled old_named (
          store-keeps (retired later old) grown old.key_id
            (store-keeps next s old.key_id (v.files.listed old.key_id old old-row.0)))

      -- An active key that is not the new one was active before, so it is the old one.
      only_next :
          (kid : String) (k : SigningKey)
          → row shrunk kid ≡ some k
          → k.is_active ≡ true
          → pair.key_id ≡ kid
      unfolding retired
      only_next kid k found on = ground (
        arith,
        found,
        on,
        old-row,
        shrunk-row kid,
        eq_iff old.key_id kid,
        eq_iff pair.key_id kid,
        v.one kid old.key_id k old,
      )

      shrunk-IsRing : IsRing shrunk
      shrunk-IsRing = record {
        files = shrunk-IsFiled;
        one = λ i j k l a b on on'. sym (only_next i k a on) ∙ only_next j l b on';
      }

      still :
          (kid : String) (k : SigningKey)
          → row s kid ≡ some k
          → (k' : SigningKey) × (row shrunk kid ≡ some k')
            × (k'.public_key_pem ≡ k.public_key_pem)
            × (k'.is_active ≡ false)
      unfolding retired
      still kid k found = elim (Bool-cases (old.key_id == kid)) [
        | inl same ↦ (
          retired later old,
          ground (arith, same, shrunk-row kid),
          ground (arith, same, found, old-row, eq_iff old.key_id kid),
          refl,
        )
        | inr differs ↦ (
          k,
          ground (arith, found, new, differs, shrunk-row kid, eq_iff pair.key_id kid),
          refl,
          elim (Bool-cases k.is_active) [
            | inl on ↦ absurd (
                ground (
                  arith,
                  differs,
                  eq_iff old.key_id kid,
                  v.one kid old.key_id k old found old-row.0 on old-row.1,
                ))
            | inr off ↦ off
          ],
        )
      ]

      Rotated-next : Rotated shrunk
      Rotated-next = record {
        ring = shrunk-IsRing;
        active =
            active_found shrunk pair.key_id next shrunk-IsRing
              (ground (
                arith,
                new,
                old-row,
                shrunk-row pair.key_id,
                eq_iff old.key_id pair.key_id,
                eq_iff pair.key_id pair.key_id,
              ))
              refl;
        others = still;
      }

    -- A rotation with a new key id succeeds, and keeps the ring: the new key is the one that GetActive
    -- finds, no other key is active, and each key that was there is still there with its public half,
    -- so that it is still published. The ring before has each key under its id and in the order, and
    -- one active key at most.
    pub rotate_keeps_ring :
        (s' : SigningKeyStore) × (rotate (some pair) now later s ≡ (key next, s')) × Rotated s'
    rotate_keeps_ring = elim (get_active-cases s) [
      | inl none_active ↦ (grown, rotate_first none_active named, Rotated-first none_active)
      | inr (old, e) ↦
          (shrunk old e, rotate_again old e named (old_named old e), Rotated-next old e)
    ]
