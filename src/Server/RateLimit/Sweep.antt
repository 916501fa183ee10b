-- ===== src/Server/RateLimit/Sweep.antt =====
-- How long a bucket stays after the last request of its address.
use authserver_go.Base.{
  ℕ, ◌+◌, ◌*◌, ◌≤◌, ◌<◌, String, ◌≡◌, refl, sym, ◌∙◌, Option, none, some, List, [], ◌∷◌, string_eq,
  arith, Bool-cases, inl, inr, ltb, ap,
}
use authserver_go.Base.Assoc.{lookup, insert}
use authserver_go.Base.Assoc.Single.{
  OneEach, OneEach-insert, OneEach-prune, kept, lookup-prune, lookup-insert_cases, lookup-nil,
}
use authserver_go.Domain.Time.{Time}
use authserver_go.Server.RateLimit.{
  Rate, IpBucket, LoginRateLimiter, is_idle, sweep, take_token, allow,
}
use authserver_go.Server.RateLimit.History.{Request, InOrder, after_all, last_at}

module _ {L : Type 0} (r : Rate L) (idle : ℕ) where
  -- What holds between requests, at a time.
  record Swept (t : Time) (l : LoginRateLimiter L) : Type 0 where
    same : l.max_idle ≡ idle
    past : l.last_sweep ≤ t
    single : OneEach l.buckets
    seen :
        (ip : String) (b : IpBucket L)
        → lookup ip l.buckets ≡ some b
        → l.last_sweep < b.last_seen + idle

  -- A bucket that a sweep leaves was asked for within the idle time.
  kept-recent :
      (l : LoginRateLimiter L) (t : Time) (o : Option (IpBucket L)) (b : IpBucket L)
      → l.max_idle ≡ idle
      → kept (is_idle l t) o ≡ some b
      → t < b.last_seen + idle
  unfolding is_idle
  kept-recent l t none b i e = cc
  kept-recent l t (some x) b i e = ground (arith, e, i)

  sweep-Swept :
      (s t : Time) (l : LoginRateLimiter L)
      → s ≤ t
      → 0 < idle
      → Swept s l
      → Swept t (sweep t l) × (t < (sweep t l).last_sweep + idle)
  unfolding sweep
  sweep-Swept s t l h positive w = elim (Bool-cases (ltb t (l.last_sweep + l.max_idle))) [
    | inl soon ↦ rw soon (
      record { same = w.same; past = omega (arith, w.past); single = w.single; seen = w.seen },
      ground (arith, soon, w.same),
    )
    | inr due ↦ rw due (
      record {
        same = w.same;
        past = omega arith;
        single = OneEach-prune (is_idle l t) l.buckets w.single;
        seen = λ ip b e.
            kept-recent l t (lookup ip l.buckets) b w.same
              (sym (lookup-prune (is_idle l t) ip l.buckets w.single) ∙ e);
      },
      omega arith,
    )
  ]

  -- The bound, at a time.
  abbrev Recent : Time → LoginRateLimiter L → Type 0
  Recent t l =
      (ip : String) (b : IpBucket L) → lookup ip l.buckets ≡ some b → t < b.last_seen + 2 * idle

  take_token-Swept :
      (ip : String) (t : Time) (l : LoginRateLimiter L)
      → 0 < idle
      → Swept t l
      → t < l.last_sweep + idle
      → Swept t (take_token r ip t l).1 × Recent t (take_token r ip t l).1
  unfolding take_token
  take_token-Swept ip t l positive w soon = (
    record {
      same = w.same;
      past = w.past;
      single = OneEach-insert ip _ l.buckets w.single;
      seen = λ j b e. (bounds j b _ refl e).0;
    },
    λ j b e. (bounds j b _ refl e).1,
  )
    where
      bounds :
          (j : String) (b new : IpBucket L)
          → new.last_seen ≡ t
          → lookup j (insert ip new l.buckets) ≡ some b
          → (l.last_sweep < b.last_seen + idle) × (t < b.last_seen + 2 * idle)
      bounds j b new seen e = elim (lookup-insert_cases ip j new b l.buckets e) [
        | inl same ↦
            let at : b.last_seen ≡ t = ap (λ (x : IpBucket L). x.last_seen) same ∙ seen in
            (omega (arith, at, w.past), omega (arith, at))
        | inr old ↦
            let late : l.last_sweep < b.last_seen + idle = w.seen j b old in
            (late, omega (arith, soon, late))
      ]

  after_all-Recent :
      (s : Time) (reqs : List Request) (l : LoginRateLimiter L)
      → 0 < idle
      → InOrder s reqs
      → Swept s l
      → Recent s l
      → Recent (last_at s reqs) (after_all (allow r) reqs l)
  unfolding after_all last_at InOrder allow
  after_all-Recent s [] l positive o w b = b
  after_all-Recent s (x ∷ xs) l positive (h, o) w b =
      let (w', soon) = sweep-Swept s x.at l h positive w in
      let (w'', b') = take_token-Swept x.ip x.at (sweep x.at l) positive w' soon in
      after_all-Recent x.at xs _ positive o w'' b'

-- The map of buckets does not keep what is long idle: after a row of requests at times in order, on
-- a limiter without buckets and with an idle time above zero, each bucket that is left was asked for
-- less than two idle times before the last request.
pub bucket_seen :
    {L : Type 0} (r : Rate L) (l : LoginRateLimiter L) (start : Time) (reqs : List Request)
    (ip : String) (b : IpBucket L)
    → l.buckets ≡ []
    → 0 < l.max_idle
    → l.last_sweep ≤ start
    → InOrder start reqs
    → lookup ip (after_all (allow r) reqs l).buckets ≡ some b
    → last_at start reqs < b.last_seen + 2 * l.max_idle
bucket_seen {L} r l start reqs ip b none_yet positive past o =
    after_all-Recent r l.max_idle start reqs l positive o
      (record {
        same = refl;
        past = past;
        single = rw none_yet (unfold OneEach in tt);
        seen = λ j x e. absurd (empty j x e);
      })
      (λ j x e. absurd (empty j x e)) ip b
  where
    empty : (j : String) (x : IpBucket L) → lookup j l.buckets ≡ some x → ⊥
    empty j x e = cc (sym e ∙ lookup-nil j l.buckets none_yet)
