-- ===== src/Store/LoginAttempts.antt =====
-- internal/store/memory/loginattempt.go: LoginAttemptTracker. The clock reading is an argument.
-- `now.Sub(t) < d` is `now < t + d` and `now.Sub(t) > d` is `t + d < now`; the durations that the
-- constructor sets are positive.
pub mod Lockout
use authserver_go.Base.{
  ℕ, ◌+◌, ◌*◌, String, Bool, true, false, ◌&&◌, not, Option, none, some, [], string_eq, ltb, leb,
  if◌then◌else◌,
}
use authserver_go.Base.Assoc.{Assoc, lookup, insert, erase}
use authserver_go.Domain.Time.{Time, second, is_zero}

pub record Attempt : Type 0 where
  pub failures : ℕ
  pub first_at : Time
  pub locked_at : Time

pub record LoginAttemptTracker : Type 0 where
  pub attempts : Assoc String Attempt
  pub max_failures : ℕ
  pub lockout_duration : ℕ
  pub reset_after : ℕ

abbrev pub minute : ℕ
minute = 60 * second

abbrev pub new : LoginAttemptTracker
new = record {
  attempts = [];
  max_failures = 5;
  lockout_duration = 15 * minute;
  reset_after = 15 * minute;
}

-- The lock that an attempt is under, and the window that it has left.
unfoldable pub is_locked : LoginAttemptTracker → Time → Attempt → Bool
is_locked t now a = not (is_zero a.locked_at) && ltb now (a.locked_at + t.lockout_duration)

unfoldable pub is_past_window : LoginAttemptTracker → Time → Attempt → Bool
is_past_window t now a = ltb (a.first_at + t.reset_after) now

unfoldable pub is_locked_out : String → Time → LoginAttemptTracker → Bool × LoginAttemptTracker
unfolding is_locked is_past_window
is_locked_out key now t = elim (lookup key t.attempts) [
  | none ↦ (false, t)
  | some a ↦
      if is_locked t now a
      then (true, t)
      else if is_past_window t now a
      then (false, record t { attempts = erase key t.attempts })
      else (false, t)
]

-- The attempt that RecordFailure leaves.
unfoldable pub count_failure : LoginAttemptTracker → Time → Attempt → Attempt
unfolding is_past_window
count_failure t now a =
    if is_past_window t now a
    then record { failures = 1; first_at = now; locked_at = 0 }
    else let failures = a.failures + 1 in
      if leb t.max_failures failures && is_zero a.locked_at
      then record { failures = failures; first_at = a.first_at; locked_at = now }
      else record { failures = failures; first_at = a.first_at; locked_at = a.locked_at }

unfoldable pub record_failure : String → Time → LoginAttemptTracker → LoginAttemptTracker
unfolding count_failure
record_failure key now t = elim (lookup key t.attempts) [
  | none ↦ record t {
    attempts = insert key (record { failures = 1; first_at = now; locked_at = 0 }) t.attempts;
  }
  | some a ↦ record t { attempts = insert key (count_failure t now a) t.attempts }
]

unfoldable pub reset : String → LoginAttemptTracker → LoginAttemptTracker
reset key t = record t { attempts = erase key t.attempts }
