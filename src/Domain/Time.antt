-- ===== src/Domain/Time.antt =====
-- Go's time.Time and time.Duration as the server uses them, in nanoseconds. A time counts from the
-- zero Time, so `IsZero` is 0; a duration is an int64. Differences between two times are taken to
-- lie within the 292 years of a Duration, so `a.Sub(b) < d` is an order of two times.
use authserver_go.Base.{ℕ, ◌+◌, ◌-◌, ◌*◌, ◌≡◌, refl, Bool, arith, ltb, leb}
use authserver_go.Base.Int.{ℤ, pos, negsuc, pos_part, neg_part, wrap64}

abbrev pub Time : Type 0
Time = ℕ

-- A uuid.UUID, as its 128-bit number; uuid.Nil is 0.
abbrev pub Uuid : Type 0
Uuid = ℕ

abbrev pub uuid_nil : Uuid
uuid_nil = 0

-- t.Before(u), t.After(u), t.IsZero()
abbrev pub before : Time → Time → Bool
before t u = ltb t u

abbrev pub after : Time → Time → Bool
after t u = ltb u t

abbrev pub is_zero : Time → Bool
is_zero t = leb t 0

-- t.Add(d)
unfoldable pub add : Time → ℤ → Time
add t d = t + pos_part d - neg_part d

abbrev pub second : ℕ
second = 1000000000

-- time.Duration(n) * time.Second for n >= 0: the product is an int64 and wraps.
unfoldable pub seconds : ℕ → ℤ
unfolding wrap64
seconds n = wrap64 (n * second)

seconds_hour : seconds 3600 ≡ pos 3600000000000
unfolding seconds
seconds_hour = refl

seconds_wrap : seconds 10000000000 ≡ negsuc 8446744073709551615
unfolding seconds
seconds_wrap = refl

-- Adding a positive duration moves forward.
pub add_pos : (t n : ℕ) → add t (pos n) ≡ t + n
unfolding add
add_pos t n = omega arith
