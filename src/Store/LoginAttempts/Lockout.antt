-- ===== src/Store/LoginAttempts/Lockout.antt =====
-- When the LoginAttemptTracker locks a key, and until when.
use authserver_go.Base.{
  ℕ, ◌+◌, ◌≤◌, ◌<◌, String, ◌≡◌, ◌≢◌, refl, ap, ◌∙◌, false, Option, none, some, List, [], ◌∷◌,
  arith, ltb, string_eq, length, All,
}
use authserver_go.Base.Assoc.{lookup, lookup-insert_self}
use authserver_go.Domain.Time.{Time}
use authserver_go.Store.LoginAttempts.{
  LoginAttemptTracker, Attempt, is_locked, is_past_window, is_locked_out, count_failure,
  record_failure,
}

-- Failures at these times, one after the other.
unfoldable pub fail_all : String → List Time → LoginAttemptTracker → LoginAttemptTracker
fail_all key [] t = t
fail_all key (now ∷ times) t = fail_all key times (record_failure key now t)

-- `n` failures since `first`, and no lock.
abbrev pub counted : ℕ → Time → Attempt
counted n first = record { failures = n; first_at = first; locked_at = 0 }

-- The settings that no method changes.
pub record Same (t u : LoginAttemptTracker) : Type 0 where
  pub max : u.max_failures ≡ t.max_failures
  pub lockout : u.lockout_duration ≡ t.lockout_duration
  pub window : u.reset_after ≡ t.reset_after

module _ (key : String) where
  Same-record_failure : (now : Time) (t : LoginAttemptTracker) → Same t (record_failure key now t)
  unfolding record_failure
  Same-record_failure now t = go (lookup key t.attempts) refl
    where
      go : (o : Option Attempt) → lookup key t.attempts ≡ o → Same t (record_failure key now t)
      go none e = record {
        max = rw (e, record_failure) refl;
        lockout = rw (e, record_failure) refl;
        window = rw (e, record_failure) refl;
      }
      go (some a) e = record {
        max = rw (e, record_failure) refl;
        lockout = rw (e, record_failure) refl;
        window = rw (e, record_failure) refl;
      }

  first_failure :
      (now : Time) (t : LoginAttemptTracker)
      → lookup key t.attempts ≡ none
      → lookup key (record_failure key now t).attempts ≡ some (counted 1 now)
  unfolding record_failure
  first_failure now t e = rw (e, record_failure) (lookup-insert_self key (counted 1 now) t.attempts)

  later_failure :
      (now : Time) (a : Attempt) (t : LoginAttemptTracker)
      → lookup key t.attempts ≡ some a
      → lookup key (record_failure key now t).attempts ≡ some (count_failure t now a)
  unfolding record_failure
  later_failure now a t e =
      rw (e, record_failure) (lookup-insert_self key (count_failure t now a) t.attempts)

  next_failure :
      (now first : Time) (n : ℕ) (t : LoginAttemptTracker)
      → lookup key t.attempts ≡ some (counted n first)
      → now ≤ first + t.reset_after
      → n + 1 < t.max_failures
      → lookup key (record_failure key now t).attempts ≡ some (counted (n + 1) first)
  unfolding count_failure is_past_window
  next_failure now first n t e within below = later_failure now (counted n first) t e ∙ ground arith

  last_failure :
      (now first : Time) (n : ℕ) (t : LoginAttemptTracker)
      → lookup key t.attempts ≡ some (counted n first)
      → now ≤ first + t.reset_after
      → t.max_failures ≤ n + 1
      → lookup key (record_failure key now t).attempts
        ≡ some (record { failures = n + 1; first_at = first; locked_at = now })
  unfolding count_failure is_past_window
  last_failure now first n t e within reached =
      later_failure now (counted n first) t e ∙ ground arith

  within_kept :
      (first : Time) (t u : LoginAttemptTracker) (times : List Time)
      → Same t u
      → All (λ now. now ≤ first + t.reset_after) times
      → All (λ now. now ≤ first + u.reset_after) times
  within_kept first t u [] same w = tt
  within_kept first t u (x ∷ xs) same w =
      (omega (arith, w.0, same.window), within_kept first t u xs same w.1)

  fail_all-All :
      (times : List Time) (first : Time) (n : ℕ) (t : LoginAttemptTracker)
      → lookup key t.attempts ≡ some (counted n first)
      → All (λ now. now ≤ first + t.reset_after) times
      → n + length times < t.max_failures
      → (lookup key (fail_all key times t).attempts ≡ some (counted (n + length times) first))
        × Same t (fail_all key times t)
  unfolding fail_all
  fail_all-All [] first n t e within below = (
    e ∙ ap (λ k. some (counted k first)) (omega arith),
    record { max = refl; lockout = refl; window = refl },
  )
  fail_all-All (now ∷ times) first n t e (w, within) below =
      let same = Same-record_failure now t in
      let (found, same') =
        fail_all-All times first (n + 1) (record_failure key now t)
          (next_failure now first n t e w (omega (arith, below)))
          (within_kept first t (record_failure key now t) times same within)
          (omega (arith, below, same.max)) in
      (
        found ∙ ap (λ k. some (counted k first)) (omega arith),
        record {
          max = same'.max ∙ same.max;
          lockout = same'.lockout ∙ same.lockout;
          window = same'.window ∙ same.window;
        },
      )

  -- The answer of IsLockedOut on an attempt without a lock, and on one with a lock.
  open_attempt :
      (at first : Time) (n : ℕ) (t : LoginAttemptTracker)
      → lookup key t.attempts ≡ some (counted n first)
      → (is_locked_out key at t).0 ≡ false
  unfolding is_locked_out is_locked is_past_window
  open_attempt at first n t e = ground (arith, e)

  locked_attempt :
      (at : Time) (a : Attempt) (t : LoginAttemptTracker)
      → lookup key t.attempts ≡ some a
      → a.locked_at ≢ 0
      → (is_locked_out key at t).0 ≡ ltb at (a.locked_at + t.lockout_duration)
  unfolding is_locked_out is_locked is_past_window
  locked_attempt at a t e set = ground (arith, e)

  -- A key with no record that fails fewer times than the maximum, all inside the window that its
  -- first failure opens, is not locked out at any time.
  pub open_below_max :
      (first at : Time) (times : List Time) (t : LoginAttemptTracker)
      → lookup key t.attempts ≡ none
      → All (λ now. now ≤ first + t.reset_after) times
      → 1 + length times < t.max_failures
      → (is_locked_out key at (fail_all key (first ∷ times) t)).0 ≡ false
  unfolding fail_all
  open_below_max first at times t e within below =
      let same = Same-record_failure first t in
      let (found, _) =
        fail_all-All times first 1 (record_failure key first t) (first_failure first t e)
          (within_kept first t (record_failure key first t) times same within)
          (omega (arith, below, same.max)) in
      open_attempt at first (1 + length times) (fail_all key times (record_failure key first t))
        found

  -- The failure that brings the count to the maximum, inside the window, locks the key from then on
  -- for exactly the lockout duration: IsLockedOut answers true before it has passed and false after.
  -- The last failure is not at Go's zero time.
  pub locks_at_max :
      (first last at : Time) (times : List Time) (t : LoginAttemptTracker)
      → lookup key t.attempts ≡ none
      → All (λ now. now ≤ first + t.reset_after) times
      → last ≤ first + t.reset_after
      → last ≢ 0
      → 2 + length times ≡ t.max_failures
      → (is_locked_out key at (record_failure key last (fail_all key (first ∷ times) t))).0
        ≡ ltb at (last + t.lockout_duration)
  unfolding fail_all
  locks_at_max first last at times t e within near set reached =
      let t1 = record_failure key first t in
      let t2 = fail_all key times t1 in
      let same = Same-record_failure first t in
      let (found, same') =
        fail_all-All times first 1 t1 (first_failure first t e)
          (within_kept first t t1 times same within) (omega (arith, reached, same.max)) in
      let locked =
        last_failure last first (1 + length times) t2 found
          (omega (arith, near, same.window, same'.window))
          (omega (arith, reached, same.max, same'.max)) in
      locked_attempt at
        (record { failures = 1 + length times + 1; first_at = first; locked_at = last })
        (record_failure key last t2) locked set
      ∙ ap (λ d. ltb at (last + d))
          ((Same-record_failure last t2).lockout ∙ same'.lockout ∙ same.lockout)
