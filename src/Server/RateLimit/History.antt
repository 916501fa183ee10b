-- ===== src/Server/RateLimit/History.antt =====
-- Requests to the limiter in the order in which its mutex lets them through.
use authserver_go.Base.{◌≤◌, String, Bool, List, [], ◌∷◌}
use authserver_go.Domain.Time.{Time}

pub record Request : Type 0 where
  pub ip : String
  pub at : Time

-- The clock does not go back, from a time on.
unfoldable pub InOrder : Time → List Request → Type 0
InOrder t [] = Unit
InOrder t (x ∷ xs) = (t ≤ x.at) × InOrder x.at xs

-- The answers to a row of requests, and the state that they leave.
unfoldable pub answers {ℓ} :
    {S : Type ℓ} → (String → Time → S → Bool × S) → List Request → S → List Bool
answers ask [] s = []
answers ask (x ∷ xs) s = let (allowed, s') = ask x.ip x.at s in allowed ∷ answers ask xs s'

unfoldable pub after_all {ℓ} : {S : Type ℓ} → (String → Time → S → Bool × S) → List Request → S → S
after_all ask [] s = s
after_all ask (x ∷ xs) s = after_all ask xs (ask x.ip x.at s).1

-- The time of the last request.
unfoldable pub last_at : Time → List Request → Time
last_at t [] = t
last_at t (x ∷ xs) = last_at x.at xs
