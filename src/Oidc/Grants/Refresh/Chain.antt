-- ===== src/Oidc/Grants/Refresh/Chain.antt =====
-- chainRootCreatedAt: the walk along ParentTokenID, against the chain itself.
use authserver_go.Base.{ℕ, zero, suc, ◌≤◌, ◌≡◌, ◌∙◌, some, none, arith}
use authserver_go.Domain.Time.{Time, Uuid}
use authserver_go.Domain.Entities.{RefreshToken}
use authserver_go.Store.RefreshTokens.{RefreshTokenStore, find_by_id}
use authserver_go.Store.RefreshTokens.Laws.{row}
use authserver_go.Oidc.Grants.Refresh.{chain_walk, chain_root_created_at, max_depth}

-- `t` is `n` rotations away from a token without a parent that was created at `root`.
pub data Chain (s : RefreshTokenStore) : ℕ → RefreshToken → Time → Type 0 where
  first :
      {t : RefreshToken} {root : Time}
      → t.parent_token_id ≡ none
      → t.created_at ≡ root
      → Chain s zero t root
  next :
      {n : ℕ} {t : RefreshToken} {root : Time} (p : Uuid) (u : RefreshToken)
      → t.parent_token_id ≡ some p
      → row s p ≡ some u
      → Chain s n u root
      → Chain s (suc n) t root

chain_walk-root :
    (s : RefreshTokenStore) (k n : ℕ) (t : RefreshToken) (root : Time)
    → n ≤ k
    → Chain s n t root
    → chain_walk s k t ≡ root
unfolding chain_walk find_by_id
chain_walk-root s zero n t root h (first e c) = c
chain_walk-root s zero n t root h (next p u e r ch) = absurd (omega arith)
chain_walk-root s (suc k) n t root h (first e c) = rw (e, chain_walk) c
chain_walk-root s (suc k) n t root h (next {n = m} p u e r ch) =
    ground (arith, e, r, chain_walk-root s k m u root (omega arith) ch)

-- A chain of at most `max_depth` rotations is walked to its root.
pub chain_root_created_at-root :
    (s : RefreshTokenStore) (n : ℕ) (t : RefreshToken) (root : Time)
    → n ≤ max_depth
    → Chain s n t root
    → chain_root_created_at s t ≡ root
unfolding chain_root_created_at
chain_root_created_at-root s n t root h c = chain_walk-root s max_depth n t root h c

-- A row with the parent and the creation time of another.
pub record Like (t u : RefreshToken) : Type 0 where
  pub parent : u.parent_token_id ≡ t.parent_token_id
  pub created : u.created_at ≡ t.created_at

-- Each row of one store has its like in the other.
abbrev pub Carries : RefreshTokenStore → RefreshTokenStore → Type 0
Carries s s' =
    (id : Uuid) (t : RefreshToken)
    → row s id ≡ some t
    → (u : RefreshToken) × (row s' id ≡ some u) × Like t u

pub Chain-carried :
    {s : RefreshTokenStore} {n : ℕ} {t : RefreshToken} {root : Time} (s' : RefreshTokenStore)
    (u : RefreshToken)
    → Carries s s'
    → Like t u
    → Chain s n t root
    → Chain s' n u root
Chain-carried s' u k l (first e c) = first (l.parent ∙ e) (l.created ∙ c)
Chain-carried s' u k l (next p v e r ch) =
    let (v', r', l') = k p v r in next p v' (l.parent ∙ e) r' (Chain-carried s' v' k l' ch)
