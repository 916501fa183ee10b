-- ===== src/Oidc/Http.antt =====
-- What a handler answers, and the checks that answer early: internal/oidc/errors.go and the error
-- writers of internal/oidc/grants.
use authserver_go.Base.{ℕ, String, ◌≡◌, refl, Bool, true, false, Option, none, some, ◌⊎◌, inl, inr}
use authserver_go.Store.Error.{Result, ok, err}

-- A body, a JSON error with its status, code and description, or a Go panic.
pub data Response {ℓ} (A : Type ℓ) : Type ℓ where
  reply : A → Response A
  fail : ℕ → String → String → Response A
  panics : Response A

abbrev pub is_reply {ℓ} : {A : Type ℓ} → Response A → Bool
is_reply (reply a) = true
is_reply (fail status code desc) = false
is_reply panics = false

-- A check goes on with a value, or ends the request.
pub data Check {ℓ} (A : Type ℓ) : Type ℓ where
  pass : A → Check A
  reject : ℕ → String → String → Check A
  crash : Check A

infixl 5 ◌>>=◌ ◌>>◌
abbrev pub ◌>>=◌ {ℓ κ} : {A : Type ℓ} {B : Type κ} → Check A → (A → Check B) → Check B
pass a >>= f = f a
reject status code desc >>= f = reject status code desc
crash >>= f = crash

abbrev pub ◌>>◌ {ℓ} : {B : Type ℓ} → Check (Unit {0}) → Check B → Check B
m >> k = m >>= λ _. k

-- if bad { writeError(…); return }
abbrev pub refuse_if : Bool → ℕ → String → String → Check (Unit {0})
refuse_if true status code desc = reject status code desc
refuse_if false status code desc = pass tt

abbrev pub some_or {ℓ} : {A : Type ℓ} → Option A → ℕ → String → String → Check A
some_or none status code desc = reject status code desc
some_or (some a) status code desc = pass a

abbrev pub ok_or {ℓ} : {A : Type ℓ} → Result A → ℕ → String → String → Check A
ok_or (err e) status code desc = reject status code desc
ok_or (ok a) status code desc = pass a

abbrev pub bad_request : ℕ
bad_request = 400

abbrev pub unauthorized : ℕ
unauthorized = 401

abbrev pub forbidden : ℕ
forbidden = 403

abbrev pub method_not_allowed : ℕ
method_not_allowed = 405

abbrev pub internal_error : ℕ
internal_error = 500

-- The answer of a request that a check has ended; `pass` goes on.
abbrev pub finish {ℓ κ} : {A : Type ℓ} {B : Type κ} → Check A → (A → Response B) → Response B
finish (pass a) k = k a
finish (reject status code desc) k = fail status code desc
finish crash k = panics

module _ {ℓ κ} {S : Type κ} {A B : Type ℓ} where
  -- The same with a state: a request that ends leaves the state alone.
  abbrev pub finish_at : S → Check A → (A → Response B × S) → Response B × S
  finish_at s (pass a) k = k a
  finish_at s (reject status code desc) k = (fail status code desc, s)
  finish_at s crash k = (panics, s)

module _ {ℓ κ} {S : Type κ} {A B : Type ℓ} where
  -- A request that is answered with a body has passed its checks.
  pub finish_at-reply :
      (s : S) (c : Check A) (k : A → Response B × S) (b : B) (s' : S)
      → finish_at s c k ≡ (reply b, s')
      → (a : A) × (c ≡ pass a) × (k a ≡ (reply b, s'))
  finish_at-reply s (pass a) k b s' h = (a, refl, h)
  finish_at-reply s (reject status code desc) k b s' h = cc
  finish_at-reply s crash k b s' h = cc

module _ {ℓ κ} {S : Type κ} {A B : Type ℓ} where
  -- A request either ends at its checks, with the state it had, or goes on.
  pub finish_at-cases :
      (s : S) (c : Check A) (k : A → Response B × S)
      → ((is_reply (finish_at s c k).0 ≡ false) × ((finish_at s c k).1 ≡ s))
        ⊎ ((a : A) × (c ≡ pass a) × (finish_at s c k ≡ k a))
  finish_at-cases s (pass a) k = inr (a, refl, refl)
  finish_at-cases s (reject status code desc) k = inl (refl, refl)
  finish_at-cases s crash k = inl (refl, refl)

module _ {ℓ κ} {S : Type κ} {A B : Type ℓ} where
  -- A request that panics does so at its checks, or in what follows.
  pub finish_at-panics :
      (s : S) (c : Check A) (k : A → Response B × S)
      → (finish_at s c k).0 ≡ panics
      → (c ≡ crash) ⊎ ((a : A) × (c ≡ pass a) × ((k a).0 ≡ panics))
  finish_at-panics s (pass a) k h = inr (a, refl, h)
  finish_at-panics s (reject status code desc) k h = absurd (cc)
  finish_at-panics s crash k h = inl refl

-- A chain of checks that passes has passed its first one.
pub >>=-pass {ℓ κ} :
    {A : Type ℓ} {B : Type κ} (m : Check A) (f : A → Check B) (b : B)
    → (m >>= f) ≡ pass b
    → (a : A) × (m ≡ pass a) × (f a ≡ pass b)
>>=-pass (pass a) f b h = (a, refl, h)
>>=-pass (reject status code desc) f b h = cc
>>=-pass crash f b h = cc

pub some_or-pass {ℓ} :
    {A : Type ℓ} (o : Option A) (status : ℕ) (code desc : String) (a : A)
    → some_or o status code desc ≡ pass a
    → o ≡ some a
some_or-pass none status code desc a h = cc
some_or-pass (some x) status code desc a h = cc

pub finish-reply {ℓ κ} :
    {A : Type ℓ} {B : Type κ} (c : Check A) (k : A → Response B) (b : B)
    → finish c k ≡ reply b
    → (a : A) × (c ≡ pass a) × (k a ≡ reply b)
finish-reply (pass a) k b h = (a, refl, h)
finish-reply (reject status code desc) k b h = cc
finish-reply crash k b h = cc

pub ok_or-pass {ℓ} :
    {A : Type ℓ} (x : Result A) (status : ℕ) (code desc : String) (a : A)
    → ok_or x status code desc ≡ pass a
    → x ≡ ok a
ok_or-pass (err e) status code desc a h = cc
ok_or-pass (ok y) status code desc a h = cc

pub refuse_if-pass :
    (bad : Bool) (status : ℕ) (code desc : String) (x : Unit {0})
    → refuse_if bad status code desc ≡ pass x
    → bad ≡ false
refuse_if-pass true status code desc x h = cc
refuse_if-pass false status code desc x h = refl
