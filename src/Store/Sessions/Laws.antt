-- ===== src/Store/Sessions/Laws.antt =====
-- What the calls of SessionStore leave of each row.
use authserver_go.Base.{
  String, ◌≡◌, refl, true, false, Option, none, some, [], ◌∷◌, string_eq, nat_eq, arith,
  nat_beq_iff, beq_refl, if◌then◌else◌, map_some, contains,
}
use authserver_go.Base.Assoc.{Assoc, lookup}
use authserver_go.Domain.Time.{Time, Uuid}
use authserver_go.Domain.Entities.{Session}
use authserver_go.Store.Sessions.{SessionStore, skipped, revoke_loop, revoke_by_user_id_except}

abbrev pub row : SessionStore → Uuid → Option Session
row s id = lookup id s.sessions

-- What the loop makes of the session under a key.
abbrev pub ended : String → Uuid → Time → Uuid → Session → Session
ended user keep at id x = if skipped user keep at id x then x else record x { revoked_at = some at }

-- One session under each key.
unfoldable pub OneEach : Assoc Uuid Session → Type 0
OneEach [] = Unit
OneEach ((id, x) ∷ m) = (lookup id m ≡ none) × OneEach m

module _ (user : String) (keep : Uuid) (at : Time) where
  lookup-revoke_loop :
      (id : Uuid) (m : Assoc Uuid Session)
      → lookup id (revoke_loop user keep at m).0 ≡ map_some (ended user keep at id) (lookup id m)
  unfolding revoke_loop lookup
  lookup-revoke_loop id [] = refl
  lookup-revoke_loop id ((i, x) ∷ m) = ground (arith, nat_beq_iff i id, lookup-revoke_loop id m)

  -- A session that the loop revokes is named by the answer.
  pub names_revoked :
      (id : Uuid) (m : Assoc Uuid Session) (x : Session)
      → lookup id m ≡ some x
      → skipped user keep at id x ≡ false
      → contains (revoke_loop user keep at m).1 id ≡ true
  unfolding revoke_loop lookup
  names_revoked id [] x e live = absurd (cc e)
  names_revoked id ((i, y) ∷ m) x e live =
      ground (arith, nat_beq_iff i id, beq_refl id, names_revoked id m x)

  pub row-revoke_by_user_id_except :
      (s : SessionStore) (id : Uuid)
      → row (revoke_by_user_id_except user keep at s).1 id
        ≡ map_some (ended user keep at id) (row s id)
  unfolding revoke_by_user_id_except
  row-revoke_by_user_id_except s id = lookup-revoke_loop id s.sessions

  -- With one session under each key, the answer names no session that the loop skips.
  skips_unnamed :
      (id : Uuid) (m : Assoc Uuid Session)
      → lookup id m ≡ none
      → contains (revoke_loop user keep at m).1 id ≡ false
  unfolding revoke_loop lookup
  skips_unnamed id [] e = refl
  skips_unnamed id ((i, y) ∷ m) e = ground (arith, e, nat_beq_iff i id, skips_unnamed id m)

  pub skipped_unnamed :
      (id : Uuid) (m : Assoc Uuid Session) (x : Session)
      → OneEach m
      → lookup id m ≡ some x
      → skipped user keep at id x ≡ true
      → contains (revoke_loop user keep at m).1 id ≡ false
  unfolding revoke_loop lookup OneEach
  skipped_unnamed id [] x k e dead = absurd (cc e)
  skipped_unnamed id ((i, y) ∷ m) x (apart, k) e dead =
      ground
        (arith, e, dead, apart, nat_beq_iff i id, skips_unnamed i m apart, skipped_unnamed id m x k)
