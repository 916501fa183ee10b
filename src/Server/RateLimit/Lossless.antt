-- ===== src/Server/RateLimit/Lossless.antt =====
-- Sweeping buckets away changes no answer of the limiter.
use authserver_go.Base.{
  ℕ, ◌+◌, ◌≤◌, String, ◌≡◌, refl, sym, ap, subst, Bool, Option, none, some, List, [], ◌∷◌,
  string_eq, arith, Bool-cases, inl, inr, ltb, ◌==◌,
}
use authserver_go.Base.Assoc.{lookup, insert, lookup-insert}
use authserver_go.Base.Assoc.Single.{OneEach, OneEach-insert, OneEach-prune, kept, lookup-prune}
use authserver_go.Domain.Time.{Time}
use authserver_go.Server.RateLimit.{
  Rate, IpBucket, LoginRateLimiter, is_idle, sweep, limiter_of, take_token, allow,
}
use authserver_go.Server.RateLimit.History.{Request, InOrder, answers}

-- A limiter that was made with a rate and a burst, and asked for one token at times in order, the
-- last one at the latest at the index.
pub data Used {L : Type 0} (r : Rate L) (rate burst : ℕ) : Time → L → Type 0 where
  fresh : {t : Time} {lim : L} → lim ≡ r.new_limiter rate burst → Used r rate burst t lim
  asked :
      {s t : Time} {old lim : L}
      → Used r rate burst s old
      → s ≤ t
      → lim ≡ (r.allow_n t 1 old).1
      → Used r rate burst t lim

-- A limiter that has not been asked for the idle time answers as a new one.
abbrev pub Refills : {L : Type 0} → Rate L → ℕ → ℕ → ℕ → Type 0
Refills {L} r rate burst idle =
    (t now : Time) (lim : L)
    → Used r rate burst t lim
    → t + idle ≤ now
    → r.allow_n now 1 lim ≡ r.allow_n now 1 (r.new_limiter rate burst)

module _ {L : Type 0} (r : Rate L) (rate burst idle : ℕ) where
  -- The buckets of one address with and without sweeps, at a time.
  abbrev pub Match : Time → Option (IpBucket L) → Option (IpBucket L) → Type 0
  Match t none none = Unit
  Match t none (some y) = Used r rate burst y.last_seen y.lim × (y.last_seen + idle ≤ t)
  Match t (some x) none = ⊥
  Match t (some x) (some y) = (x ≡ y) × Used r rate burst x.last_seen x.lim × (x.last_seen ≤ t)

  Match-later : (s t : Time) (a b : Option (IpBucket L)) → s ≤ t → Match s a b → Match t a b
  Match-later s t none none h m = tt
  Match-later s t none (some y) h (u, i) = (u, omega arith)
  Match-later s t (some x) none h m = m
  Match-later s t (some x) (some y) h (e, u, i) = (e, u, omega arith)

  Match-kept :
      (l : LoginRateLimiter L) (t : Time) (a b : Option (IpBucket L))
      → l.max_idle ≡ idle
      → Match t a b
      → Match t (kept (is_idle l t) a) b
  unfolding is_idle
  Match-kept l t none b i m = m
  Match-kept l t (some x) none i m = absurd m
  Match-kept l t (some x) (some y) i (e, u, seen) =
      elim (Bool-cases (ltb t (x.last_seen + l.max_idle))) [
        | inl recent ↦ rw recent (e, u, seen)
        | inr idle_now ↦ rw idle_now (
          subst (λ (z : IpBucket L). Used r rate burst z.last_seen z.lim) e u,
          ground (arith, idle_now, i, ap (λ (z : IpBucket L). z.last_seen) e),
        )
      ]

  -- Two limiters that answer alike: one of them may lack buckets that have been idle.
  record Alike (t : Time) (l k : LoginRateLimiter L) : Type 0 where
    l_rate : l.rate ≡ rate
    l_burst : l.burst ≡ burst
    k_rate : k.rate ≡ rate
    k_burst : k.burst ≡ burst
    l_idle : l.max_idle ≡ idle
    single : OneEach l.buckets
    match : (ip : String) → Match t (lookup ip l.buckets) (lookup ip k.buckets)

  sweep-Alike :
      (s t : Time) (l k : LoginRateLimiter L) → s ≤ t → Alike s l k → Alike t (sweep t l) k
  unfolding sweep
  sweep-Alike s t l k h a = elim (Bool-cases (ltb t (l.last_sweep + l.max_idle))) [
    | inl soon ↦ rw soon (record {
      l_rate = a.l_rate;
      l_burst = a.l_burst;
      k_rate = a.k_rate;
      k_burst = a.k_burst;
      l_idle = a.l_idle;
      single = a.single;
      match = λ ip. Match-later s t (lookup ip l.buckets) (lookup ip k.buckets) h (a.match ip);
    })
    | inr due ↦ rw due (record {
      l_rate = a.l_rate;
      l_burst = a.l_burst;
      k_rate = a.k_rate;
      k_burst = a.k_burst;
      l_idle = a.l_idle;
      single = OneEach-prune (is_idle l t) l.buckets a.single;
      match = λ ip.
          subst (λ x. Match t x (lookup ip k.buckets))
            (sym (lookup-prune (is_idle l t) ip l.buckets a.single))
            (Match-kept l t (lookup ip l.buckets) (lookup ip k.buckets) a.l_idle
              (Match-later s t (lookup ip l.buckets) (lookup ip k.buckets) h (a.match ip)));
    })
  ]

  insert-Match :
      (j ip : String) (t : Time) (x y : IpBucket L) (l k : LoginRateLimiter L)
      → x ≡ y
      → Used r rate burst x.last_seen x.lim
      → x.last_seen ≤ t
      → Match t (lookup j l.buckets) (lookup j k.buckets)
      → Match t (lookup j (insert ip x l.buckets)) (lookup j (insert ip y k.buckets))
  insert-Match j ip t x y l k e u h m =
      rw (lookup-insert ip j x l.buckets, lookup-insert ip j y k.buckets)
        (elim (Bool-cases (ip == j)) [ inl same ↦ rw same (e, u, h) | inr differs ↦ rw differs m ])

  -- What the rate package answers for two buckets that match.
  ask-Match :
      (t : Time) (l k : LoginRateLimiter L) (x y : Option (IpBucket L))
      → Refills r rate burst idle
      → Alike t l k
      → Match t x y
      → (r.allow_n t 1 (limiter_of r l x) ≡ r.allow_n t 1 (limiter_of r k y))
        × Used r rate burst t (r.allow_n t 1 (limiter_of r l x)).1
  unfolding limiter_of
  ask-Match t l k none none refills a m =
      rw (a.l_rate, a.l_burst, a.k_rate, a.k_burst)
        (refl, asked (fresh {t = t} refl) (omega arith) refl)
  ask-Match t l k none (some y) refills a (u, i) =
      rw (a.l_rate, a.l_burst)
        (sym (refills y.last_seen t y.lim u i), asked (fresh {t = t} refl) (omega arith) refl)
  ask-Match t l k (some x) none refills a m = absurd m
  ask-Match t l k (some x) (some y) refills a (e, u, h) =
      (ap (λ (z : IpBucket L). r.allow_n t 1 z.lim) e, asked u h refl)

  -- A request is answered alike, and leaves alike limiters.
  take_token-Alike :
      (ip : String) (t : Time) (l k : LoginRateLimiter L)
      → Refills r rate burst idle
      → Alike t l k
      → ((take_token r ip t l).0 ≡ (take_token r ip t k).0)
        × Alike t (take_token r ip t l).1 (take_token r ip t k).1
  unfolding take_token
  take_token-Alike ip t l k refills a =
      let (same, used) =
        ask-Match t l k (lookup ip l.buckets) (lookup ip k.buckets) refills a (a.match ip) in
      (
        ap (λ x. x.0) same,
        record {
          l_rate = a.l_rate;
          l_burst = a.l_burst;
          k_rate = a.k_rate;
          k_burst = a.k_burst;
          l_idle = a.l_idle;
          single = OneEach-insert ip _ l.buckets a.single;
          match = λ j.
              insert-Match j ip t _ _ l k
                (ap
                  (λ (x : Bool × L). let b : IpBucket L = record { lim = x.1; last_seen = t } in b)
                  same)
                used (omega arith) (a.match j);
        },
      )

  answers-Alike :
      (s : Time) (reqs : List Request) (l k : LoginRateLimiter L)
      → Refills r rate burst idle
      → InOrder s reqs
      → Alike s l k
      → answers (allow r) reqs l ≡ answers (take_token r) reqs k
  unfolding answers InOrder allow
  answers-Alike s [] l k refills o a = refl
  answers-Alike s (x ∷ xs) l k refills (h, o) a =
      let (same, next) =
        take_token-Alike x.ip x.at (sweep x.at l) k refills (sweep-Alike s x.at l k h a) in
      let rest = answers-Alike x.at xs _ _ refills o next in cc (same, rest)

-- Sweeping away idle buckets changes no answer: for every row of requests at times in order, a
-- limiter without buckets answers as one that keeps a bucket for each address for ever, if a limiter
-- of the rate package that has not been asked for the idle time answers as a new one.
pub sweep_lossless :
    {L : Type 0} (r : Rate L) (l : LoginRateLimiter L) (start : Time) (reqs : List Request)
    → l.buckets ≡ []
    → Refills r l.rate l.burst l.max_idle
    → InOrder start reqs
    → answers (allow r) reqs l ≡ answers (take_token r) reqs l
sweep_lossless r l start reqs none_yet refills o =
    answers-Alike r l.rate l.burst l.max_idle start reqs l l refills o (record {
      l_rate = refl;
      l_burst = refl;
      k_rate = refl;
      k_burst = refl;
      l_idle = refl;
      single = rw none_yet (unfold OneEach in tt);
      match = λ ip. rw none_yet (unfold lookup in tt);
    })
