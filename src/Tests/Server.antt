-- ===== src/Tests/Server.antt =====
-- The limiter of sign-in requests at a row of requests, with a limiter of one token each second.
use authserver_go.Base.{
  ◌+◌, ◌*◌, ◌≤◌, ◌≡◌, refl, sym, ◌∙◌, Bool, true, false, Option, none, some, List, [], ◌∷◌,
  string_eq, arith, if◌then◌else◌, leb,
}
use authserver_go.Base.Int.{pos}
use authserver_go.Base.Assoc.{lookup, insert, prune}
use authserver_go.Domain.Time.{Time, second}
use authserver_go.Server.RateLimit.{
  Rate, LoginRateLimiter, new_login_rate_limiter, allow, take_token, client_ip, ten_minutes,
}
use authserver_go.Server.RateLimit.History.{Request, InOrder, answers, after_all}
use authserver_go.Server.RateLimit.Lossless.{Used, fresh, asked, Refills, sweep_lossless}

-- The time of the last token, a second after which there is another.
abbrev tick : Time → Option Time → Bool × Option Time
tick now none = (true, some now)
tick now (some t) = if leb (t + second) now then (true, some now) else (false, some t)

abbrev one_token : Rate (Option Time)
one_token = record { new_limiter = λ rate burst. none; allow_n = λ now n lim. tick now lim }

abbrev limiter : LoginRateLimiter (Option Time)
limiter = record { buckets = []; rate = 1; burst = 1; max_idle = ten_minutes; last_sweep = 0 }

tick-last :
    (now : Time) (lim : Option Time)
    → (((u : Time) → lim ≡ some u → u ≤ now))
    → (u : Time) → (tick now lim).1 ≡ some u
    → u ≤ now
tick-last now none h u e = ground (arith, e)
tick-last now (some t) h u e = ground (arith, e, h t)

last_tick : (t u : Time) (lim : Option Time) → Used one_token 1 1 t lim → lim ≡ some u → u ≤ t
last_tick t u lim (fresh made) e = absurd (cc (made, e))
last_tick t u lim (asked {s} {old = old} before later made) e =
    tick-last t old (λ v f. omega (arith, last_tick s v old before f)) u (sym made ∙ e)

one_token-Refills : Refills one_token 1 1 ten_minutes
one_token-Refills t now none used late = refl
one_token-Refills t now (some u) used late = ground (arith, last_tick t u (some u) used refl)

-- Two requests of one address, and one of it after the buckets have been swept away.
abbrev requests : List Request
requests =
    record { ip = "a"; at = second }
    ∷ record { ip = "a"; at = second + 1 }
    ∷ record { ip = "b"; at = 700 * second }
    ∷ record { ip = "a"; at = 1200 * second }
    ∷ []

sweep_lossless_example :
    answers (allow one_token) requests limiter ≡ answers (take_token one_token) requests limiter
unfolding InOrder
sweep_lossless_example =
    sweep_lossless one_token limiter 0 requests refl one_token-Refills (omega arith)

answers_run : answers (allow one_token) requests limiter ≡ true ∷ false ∷ true ∷ true ∷ []
unfolding answers allow lookup insert prune
answers_run = refl

-- The bucket of "b" is left, that of "a" is new.
left_over :
    lookup "b" (after_all (allow one_token) requests limiter).buckets
    ≡ some (record { lim = some (700 * second); last_seen = 700 * second })
unfolding after_all allow lookup insert prune
left_over = refl

first_forwarded : client_ip (λ addr. none) "10.0.0.1,proxy" "peer:1" ≡ "10.0.0.1"
unfolding client_ip
first_forwarded = refl

defaults : (new_login_rate_limiter {L = Option Time} (pos 0) (pos 0)).burst ≡ 5
unfolding new_login_rate_limiter
defaults = refl
