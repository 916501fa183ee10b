-- ===== src/Tests/Stores.antt =====
-- The stores: who wins a token, what clean-ups leave, and when a login is locked.
use authserver_go.Base.{
  ◌≡◌, refl, ◌+◌, ◌*◌, none, some, List, [], ◌∷◌, map, true, arith, string_eq, nat_eq,
}
use authserver_go.Base.Assoc.{lookup}
use authserver_go.Domain.Time.{Time, second}
use authserver_go.Domain.Entities.{RefreshToken, PasswordResetToken}
use authserver_go.Store.Error.{ok}
use authserver_go.Store.Contract.{winners}
use authserver_go.Store.RefreshTokens.Laws.{row}
use authserver_go.Store.RefreshTokens.Ops.{
  Op, marks_consumed, revokes_session, run, refresh_cas, turn_of,
}
use authserver_go.Store.RefreshTokens.Ops.History.{one_winner, Evolves, run-Evolves}
use authserver_go.Store.AuthCodes.Laws
use authserver_go.Store.PasswordResets.{PasswordResetStore, delete_expired}
use authserver_go.Store.PasswordResets.Keyed.{Keyed}
use authserver_go.Store.LoginAttempts.{new, is_locked_out, record_failure, minute}
use authserver_go.Store.LoginAttempts.Lockout.{fail_all, locks_at_max}
use authserver_go.Tests.Data.{noon, live_token, test_refresh, test_codes}

-- Two requests for token 7, and a revocation between them.
abbrev calls : List Op
calls = marks_consumed 7 noon ∷ revokes_session 5 noon ∷ marks_consumed 7 (noon + 1) ∷ []

unused : authserver_go.Store.RefreshTokens.Laws.consumed_row test_refresh 7 ≡ some none
unfolding lookup
unused = refl

one_winner_example : winners refresh_cas 7 (map turn_of calls) test_refresh ≡ 1
one_winner_example = one_winner 7 calls test_refresh tt unused

stored : row test_refresh 7 ≡ some live_token
unfolding lookup
stored = refl

run-Evolves_example :
    (u : RefreshToken) × (row (run calls test_refresh) 7 ≡ some u) × Evolves live_token u
run-Evolves_example = run-Evolves calls test_refresh 7 live_token tt stored

abbrev code_calls : List Laws.CodeOp
code_calls = Laws.CodeOp.marks_consumed 3 noon ∷ Laws.CodeOp.marks_consumed 3 (noon + 1) ∷ []

unused_code : Laws.consumed_row test_codes 3 ≡ some none
unfolding lookup
unused_code = refl

-- A failed sign-in of "ada" every minute.
abbrev failures : List Time
failures = (noon + minute) ∷ (noon + 2 * minute) ∷ (noon + 3 * minute) ∷ []

none_known : lookup "ada" new.attempts ≡ none
unfolding lookup
none_known = refl

locks_at_max_example :
    (is_locked_out "ada"
      (noon + 10 * minute)
      (record_failure "ada" (noon + 4 * minute) (fail_all "ada" (noon ∷ failures) new))).0
    ≡ true
locks_at_max_example =
    locks_at_max "ada" noon (noon + 4 * minute) (noon + 10 * minute) failures new none_known
      (omega arith, (omega arith, (omega arith, tt))) (omega arith) (λ e. omega (arith, e)) refl

-- A reset token that has expired, and one that has not.
abbrev expired_link : PasswordResetToken
expired_link = record {
  id = 1;
  user_id = "ada";
  token_hash = "h1";
  created_at = noon;
  expires_at = noon + 1;
  consumed_at = none;
}

abbrev live_link : PasswordResetToken
live_link = record expired_link { id = 2; token_hash = "h2"; expires_at = noon + 3600 * second }

abbrev links : PasswordResetStore
links = record { tokens = (1, expired_link) ∷ (2, live_link) ∷ [] }

abbrev left : PasswordResetStore
left = record { tokens = (2, live_link) ∷ [] }

cleaned : delete_expired (noon + second) links ≡ (ok 1, left)
unfolding delete_expired
cleaned = refl

keyed : Keyed links.tokens
unfolding Keyed lookup
keyed = (refl, refl, (refl, refl, tt))
