-- ===== src/Server/RateLimit.antt =====
-- internal/server/ratelimit.go: the limiter of sign-in requests, one token bucket for each address.
-- `now.Sub(t) < d` is `now < t + d`, since the idle time is positive.
pub mod History
pub mod Lossless
pub mod Sweep
use Prim.Native.Char.{code}
use authserver_go.Base.{
  ℕ, ◌+◌, ◌*◌, String, Bool, true, not, Option, none, some, List, [], ◌∷◌, string_eq, ltb,
  if◌then◌else◌, nat_beq, ◌==◌,
}
use authserver_go.Base.Int.{ℤ, nonpos, pos_part}
use authserver_go.Base.Assoc.{Assoc, lookup, insert, prune}
use authserver_go.Domain.Time.{Time, second}

-- What the limiter takes from golang.org/x/time/rate: NewLimiter with a rate each second and a burst,
-- and AllowN.
pub record Rate (L : Type 0) : Type 0 where
  pub new_limiter : ℕ → ℕ → L
  pub allow_n : Time → ℕ → L → Bool × L

pub record IpBucket (L : Type 0) : Type 0 where
  pub lim : L
  pub last_seen : Time

pub record LoginRateLimiter (L : Type 0) : Type 0 where
  pub buckets : Assoc String (IpBucket L)
  pub rate : ℕ
  pub burst : ℕ
  pub max_idle : ℕ
  pub last_sweep : Time

abbrev pub ten_minutes : ℕ
ten_minutes = 600 * second

unfoldable pub new_login_rate_limiter : {L : Type 0} → ℤ → ℤ → LoginRateLimiter L
new_login_rate_limiter rps burst = record {
  buckets = [];
  rate = if nonpos rps then 10 else pos_part rps;
  burst = if nonpos burst then 5 else pos_part burst;
  max_idle = ten_minutes;
  last_sweep = 0;
}

module _ {L : Type 0} where
  -- A bucket that a sweep at a time drops.
  unfoldable pub is_idle : LoginRateLimiter L → Time → IpBucket L → Bool
  is_idle l now b = not (ltb now (b.last_seen + l.max_idle))

  unfoldable pub sweep : Time → LoginRateLimiter L → LoginRateLimiter L
  unfolding is_idle
  sweep now l =
      if ltb now (l.last_sweep + l.max_idle)
      then l
      else record l { last_sweep = now; buckets = prune (is_idle l now) l.buckets }

module _ {L : Type 0} (r : Rate L) where
  -- The limiter of an address, a new one where it has none.
  unfoldable pub limiter_of : LoginRateLimiter L → Option (IpBucket L) → L
  limiter_of l none = r.new_limiter l.rate l.burst
  limiter_of l (some b) = b.lim

  -- What `allow` does once it has swept.
  unfoldable pub take_token : String → Time → LoginRateLimiter L → Bool × LoginRateLimiter L
  unfolding limiter_of
  take_token ip now l =
      let (allowed, lim) = r.allow_n now 1 (limiter_of l (lookup ip l.buckets)) in
      (allowed, record l { buckets = insert ip (record { lim = lim; last_seen = now }) l.buckets })

  unfoldable pub allow : String → Time → LoginRateLimiter L → Bool × LoginRateLimiter L
  unfolding take_token sweep
  allow ip now l = take_token ip now (sweep now l)

  -- A server without a limiter lets every request through.
  unfoldable pub allow_opt :
      String → Time → Option (LoginRateLimiter L) → Bool × Option (LoginRateLimiter L)
  unfolding allow
  allow_opt ip now none = (true, none)
  allow_opt ip now (some l) = let (allowed, l') = allow ip now l in (allowed, some l')

-- What stands before the first comma.
unfoldable pub up_to_comma : String → String
up_to_comma String.[] = String.[]
up_to_comma (String.◌∷◌ c s) =
    let rest = up_to_comma s in if nat_beq (code c) b',' then String.[] else String.◌∷◌ c rest

-- ClientIP, of the X-Forwarded-For header and RemoteAddr. `split_host` is net.SplitHostPort's host.
unfoldable pub client_ip : (String → Option String) → String → String → String
unfolding up_to_comma
client_ip split_host forwarded remote_addr =
    if forwarded == ""
    then elim (split_host remote_addr) [ none ↦ remote_addr | some host ↦ host ]
    else up_to_comma forwarded
