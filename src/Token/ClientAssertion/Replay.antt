-- ===== src/Token/ClientAssertion/Replay.antt =====
-- What the replay cache of client assertions refuses, and for how long.
use authserver_go.Base.{
  ◌≤◌, ◌<◌, String, ◌≡◌, ◌≢◌, refl, ◌∙◌, ap, sym, Bool, true, false, Option, none, some, List, [],
  ◌∷◌, All, string_eq, eq_iff, arith, Bool-cases, Option-cases, inl, inr, ltb, le→not_ltb, lt→ltb,
}
use authserver_go.Base.Assoc.{Assoc, lookup, insert, prune, lookup-insert, lookup-insert_self}
use authserver_go.Domain.Time.{Time}
use authserver_go.Token.ClientAssertion.{
  MemAssertionCache, cache_key, check_and_store, Jwx, ClientAssertionParams, AssertionToken,
  accepted, any_audience_match, shape_error, claims_error, burn, verify_claims,
  verify_client_assertion,
}

module _ {V : Type 0} (drop : V → Bool) (k : String) where
  -- A value that is not dropped is still found.
  lookup-prune_kept :
      (v : V) (m : Assoc String V)
      → lookup k m ≡ some v
      → drop v ≡ false
      → lookup k (prune drop m) ≡ some v
  unfolding lookup prune
  lookup-prune_kept v [] e d = absurd (cc e)
  lookup-prune_kept v ((j, w) ∷ m) e d = ground (arith, e, d, eq_iff j k, lookup-prune_kept v m)

  lookup-prune_absent : (m : Assoc String V) → lookup k m ≡ none → lookup k (prune drop m) ≡ none
  unfolding lookup prune
  lookup-prune_absent [] e = refl
  lookup-prune_absent ((j, w) ∷ m) e = ground (arith, e, eq_iff j k, lookup-prune_absent m)

  -- A new key whose value is dropped is not found.
  lookup-prune_dropped :
      (v : V) (m : Assoc String V)
      → lookup k m ≡ none
      → drop v ≡ true
      → lookup k (prune drop (insert k v m)) ≡ none
  unfolding lookup prune insert
  lookup-prune_dropped v [] e d = ground (arith, d)
  lookup-prune_dropped v ((j, w) ∷ m) e d =
      ground (arith, e, d, eq_iff j k, lookup-prune_dropped v m)

-- One call of CheckAndStore.
pub record Call : Type 0 where
  pub client_id : String
  pub jti : String
  pub exp : Time
  pub now : Time

unfoldable pub run : List Call → MemAssertionCache → MemAssertionCache
run [] c = c
run (x ∷ xs) c = run xs (check_and_store x.client_id x.jti x.exp x.now c).1

module _ (client_id jti : String) (c : MemAssertionCache) where
  -- The cache after its lazy clean-up, at the pair's key.
  abbrev pub live_at : Time → Option Time
  live_at now = lookup (cache_key client_id jti) (prune (λ t. ltb t now) c.seen)

  fresh_stored :
      (exp now : Time)
      → (check_and_store client_id jti exp now c).0 ≡ true
      → (live_at now ≡ none)
        × ((check_and_store client_id jti exp now c).1.seen
            ≡ insert (cache_key client_id jti) exp (prune (λ t. ltb t now) c.seen))
  unfolding check_and_store
  fresh_stored exp now w = elim (Option-cases (live_at now)) [
    | inr (t, seen) ↦ absurd (ground (arith, seen, w))
    | inl new ↦ (new, ground (arith, new))
  ]

  refuses_live :
      (exp old now : Time)
      → lookup (cache_key client_id jti) c.seen ≡ some old
      → now ≤ old
      → (check_and_store client_id jti exp now c).0 ≡ false
  unfolding check_and_store
  refuses_live exp old now e bound = ground (
    arith,
    lookup-prune_kept (λ t. ltb t now) (cache_key client_id jti) old c.seen e
        (le→not_ltb old now bound),
  )

-- A pair stays in the cache through a call at a time that is not past its expiry.
stays :
    (key : String) (exp : Time) (x : Call) (c : MemAssertionCache)
    → lookup key c.seen ≡ some exp
    → x.now ≤ exp
    → lookup key (check_and_store x.client_id x.jti x.exp x.now c).1.seen ≡ some exp
unfolding check_and_store
stays key exp x c e bound =
    let other : String = cache_key x.client_id x.jti in
    let kept = lookup-prune_kept (λ t. ltb t x.now) key exp c.seen e (le→not_ltb exp x.now bound) in
    elim (Option-cases (live_at x.client_id x.jti c x.now)) [
      | inr (t, seen) ↦ ground (arith, seen, kept)
      | inl new ↦ ground (
        arith,
        new,
        kept,
        eq_iff other key,
        lookup-insert other key x.exp (prune (λ t. ltb t x.now) c.seen),
      )
    ]

run-stays :
    (key : String) (exp : Time) (xs : List Call) (c : MemAssertionCache)
    → lookup key c.seen ≡ some exp
    → All (λ x. x.now ≤ exp) xs
    → lookup key (run xs c).seen ≡ some exp
unfolding run
run-stays key exp [] c e b = e
run-stays key exp (x ∷ xs) c e b =
    run-stays key exp xs (check_and_store x.client_id x.jti x.exp x.now c).1
      (stays key exp x c e b.0) b.1

-- A pair that CheckAndStore has taken is refused from then on until its expiry has passed, whatever
-- other calls come between, as long as they come by that expiry too.
pub refused_until_expiry :
    (client_id jti : String) (exp now later exp' : Time) (between : List Call)
    (c : MemAssertionCache)
    → (check_and_store client_id jti exp now c).0 ≡ true
    → All (λ x. x.now ≤ exp) between
    → later ≤ exp
    → (check_and_store client_id jti exp' later
        (run between (check_and_store client_id jti exp now c).1)).0
      ≡ false
refused_until_expiry client_id jti exp now later exp' between c w times bound =
    let key : String = cache_key client_id jti in
    let after : MemAssertionCache = (check_and_store client_id jti exp now c).1 in
    let (_, shape) = fresh_stored client_id jti c exp now w in
    let stored : lookup key after.seen ≡ some exp =
      ap (lookup key) shape ∙ lookup-insert_self key exp (prune (λ t. ltb t now) c.seen) in
    refuses_live client_id jti (run between after) exp' exp later
      (run-stays key exp between after stored times) bound

-- But as soon as the expiry has passed, the next call takes the pair again.
pub taken_after_expiry :
    (client_id jti : String) (exp now later exp' : Time) (c : MemAssertionCache)
    → (check_and_store client_id jti exp now c).0 ≡ true
    → exp < later
    → (check_and_store client_id jti exp' later (check_and_store client_id jti exp now c).1).0
      ≡ true
taken_after_expiry client_id jti exp now later exp' c w past =
    let key : String = cache_key client_id jti in
    let live = prune (λ t. ltb t now) c.seen in
    let (new, shape) = fresh_stored client_id jti c exp now w in
    takes key exp' later (check_and_store client_id jti exp now c).1 (
      ap (λ m. lookup key (prune (λ t. ltb t later) m)) shape
      ∙ lookup-prune_dropped (λ t. ltb t later) key exp live new (lt→ltb exp later past))
  where
    takes :
        (key : String) (exp' later : Time) (c : MemAssertionCache)
        → lookup (cache_key client_id jti) (prune (λ t. ltb t later) c.seen) ≡ none
        → (check_and_store client_id jti exp' later c).0 ≡ true
    takes key exp' later c e = unfold check_and_store in ground (arith, e)

-- What VerifyClientAssertion demands of an assertion that it accepts.
pub record Vouched (jwx : Jwx) (p : ClientAssertionParams) (parsed : Time) (t : AssertionToken)
    : Type 0 where
  pub parsed_as : jwx.parse_jwt p.assertion p.jwks_json p.skew parsed ≡ some t
  pub issuer : t.issuer ≡ p.expected_issuer
  pub subject : t.subject ≡ p.expected_subject
  pub audience : any_audience_match jwx t.audience p.audience ≡ true
  pub expires : t.expiration ≢ 0
  pub named : t.jwt_id ≢ ""

burn-accepted :
    (p : ClientAssertionParams) (t u : AssertionToken) (now : Time) (c c' : MemAssertionCache)
    → burn p t now c ≡ (accepted u, c')
    → (t ≡ u)
      × ((check_and_store p.expected_issuer t.jwt_id t.expiration now c).0 ≡ true)
      × (c' ≡ (check_and_store p.expected_issuer t.jwt_id t.expiration now c).1)
unfolding burn
burn-accepted p t u now c c' h =
    elim (Bool-cases (check_and_store p.expected_issuer t.jwt_id t.expiration now c).0) [
      | inl fresh ↦ (ground (arith, h, fresh), fresh, ground (arith, h, fresh))
      | inr used ↦ absurd (ground (arith, h, used))
    ]

claims_error-none :
    (jwx : Jwx) (p : ClientAssertionParams) (t : AssertionToken) (parsed : Time)
    → jwx.parse_jwt p.assertion p.jwks_json p.skew parsed ≡ some t
    → claims_error jwx p t ≡ none
    → Vouched jwx p parsed t
unfolding claims_error
claims_error-none jwx p t parsed e h = record {
  parsed_as = e;
  issuer = ground (arith, h, eq_iff t.issuer p.expected_issuer);
  subject = ground (arith, h, eq_iff t.subject p.expected_subject);
  audience = ground (arith, h);
  expires = λ q. ground (arith, h, q);
  named = λ q. ground (arith, h, q, eq_iff t.jwt_id "");
}

verify_claims-accepted :
    (jwx : Jwx) (p : ClientAssertionParams) (o : Option AssertionToken) (now : Time)
    (t : AssertionToken) (c c' : MemAssertionCache)
    → verify_claims jwx p o now c ≡ (accepted t, c')
    → (o ≡ some t) × (claims_error jwx p t ≡ none) × (burn p t now c ≡ (accepted t, c'))
unfolding verify_claims
verify_claims-accepted jwx p none now t c c' h = absurd (cc)
verify_claims-accepted jwx p (some u) now t c c' h = elim (Option-cases (claims_error jwx p u)) [
  | inr (e, q) ↦ absurd (ground (arith, h, q))
  | inl n ↦
      let b : burn p u now c ≡ (accepted t, c') = ground (arith, h, n) in
      let (same, _, _) = burn-accepted p u t now c c' b in
      (
        ap some same,
        ap (claims_error jwx p) (sym same) ∙ n,
        ap (λ x. burn p x now c) (sym same) ∙ b,
      )
]

-- An entry of the cache that does not keep a pair out has expired.
taken_expired :
    (client_id jti : String) (c : MemAssertionCache) (exp old now : Time)
    → (check_and_store client_id jti exp now c).0 ≡ true
    → lookup (cache_key client_id jti) c.seen ≡ some old
    → old < now
taken_expired client_id jti c exp old now w e = elim (Bool-cases (ltb old now)) [
  | inl past ↦ ground (arith, past)
  | inr within ↦
      absurd (cc (sym w ∙ refuses_live client_id jti c exp old now e (ground (arith, within))))
]

-- An assertion is accepted only if the JWT parses under the client's own keys, is issued by and about
-- the expected client, names an accepted audience, and has an expiry and a jti, and only if the cache
-- had no entry for the pair of client and jti, or one whose expiry had passed. Afterwards the cache
-- has the pair with the assertion's expiry, and a later call for the pair is refused if it is made by
-- that expiry, whatever calls come in between, as long as they are made by then too.
pub accepted-Vouched :
    (jwx : Jwx) (p : ClientAssertionParams) (parsed now : Time) (t : AssertionToken)
    (c c' : MemAssertionCache)
    → verify_client_assertion jwx p parsed now c ≡ (accepted t, c')
    → Vouched jwx p parsed t
      × ((old : Time) → lookup (cache_key p.expected_issuer t.jwt_id) c.seen ≡ some old → old < now)
      × (lookup (cache_key p.expected_issuer t.jwt_id) c'.seen ≡ some t.expiration)
      × ((between : List Call) (exp' later : Time)
          → All (λ x. x.now ≤ t.expiration) between
          → later ≤ t.expiration
          → (check_and_store p.expected_issuer t.jwt_id exp' later (run between c')).0 ≡ false)
unfolding verify_client_assertion
accepted-Vouched jwx p parsed now t c c' h = elim (Option-cases (shape_error jwx p)) [
  | inr (e, q) ↦ absurd (ground (arith, h, q))
  | inl n ↦
      let key : String = cache_key p.expected_issuer t.jwt_id in
      let (e, fine, b) =
        verify_claims-accepted jwx p (jwx.parse_jwt p.assertion p.jwks_json p.skew parsed) now t c
          c' (ground (arith, h, n)) in
      let (_, fresh, left) = burn-accepted p t t now c c' b in
      let (_, shape) = fresh_stored p.expected_issuer t.jwt_id c t.expiration now fresh in
      let stored : lookup key c'.seen ≡ some t.expiration =
        ap (λ (x : MemAssertionCache). lookup key x.seen) left
        ∙ ap (lookup key) shape
        ∙ lookup-insert_self key t.expiration (prune (λ x. ltb x now) c.seen) in
      (
        claims_error-none jwx p t parsed e fine,
        λ old seen. taken_expired p.expected_issuer t.jwt_id c t.expiration old now fresh seen,
        stored,
        λ between exp' later times bound.
            refuses_live p.expected_issuer t.jwt_id (run between c') exp' t.expiration later
              (run-stays key t.expiration between c' stored times) bound,
      )
]
