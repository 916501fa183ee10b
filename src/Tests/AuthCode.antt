-- ===== src/Tests/AuthCode.antt =====
-- The authorization_code grant, on the code "ac".
use authserver_go.Base.{
  ◌≡◌, ◌≢◌, refl, Option, none, some, [], ◌∷◌, ◌+◌, true, false, arith, string_eq,
}
use authserver_go.Base.Assoc.{lookup}
use authserver_go.Base.Int.{pos}
use authserver_go.Domain.Time.{Time, second}
use authserver_go.Domain.Entities.{AuthorizationCode}
use authserver_go.Domain.Client.{Client}
use authserver_go.Store.AuthCodes.Laws.{row, IsIndexed}
use authserver_go.Oidc.Http.{reply, panics}
use authserver_go.Oidc.Stores.{Stores}
use authserver_go.Oidc.Grants.{TokenResponse}
use authserver_go.Oidc.Grants.AuthCode.{AuthCodeGrant, AuthCodeForm, Moment, handle}
use authserver_go.Oidc.Grants.AuthCode.Outcome.{Presented, PkceHolds, code_redeems}
use authserver_go.Oidc.Grants.AuthCode.Rejected.{code_single_use}
use authserver_go.Oidc.Grants.AuthCode.Panic.{NilMethod, handle-panics}
use authserver_go.Tests.Data.{
  test_crypto, test_issuer, noon, app, verifier, live_code, test_codes, test_stores,
}

abbrev grant : AuthCodeGrant
grant = record { crypto = test_crypto; issuer = test_issuer; id_token_lifetime = pos second }

abbrev form : AuthCodeForm
form = record {
  client_id = "app";
  code = "ac";
  redirect_uri = "https://app/cb";
  code_verifier = verifier;
}

abbrev moment : Moment
moment = record {
  checked = noon + second;
  consumed = noon + second;
  minted = noon + second;
  token_id = 8;
  opaque = some "rt1";
}

abbrev answer : TokenResponse
answer = record {
  access_token = "access";
  token_type = "Bearer";
  expires_in = pos 3600;
  refresh_token = "rt1";
  id_token = "id";
  scope = "openid offline_access";
}

abbrev after : Stores
after = (handle grant (some app) form moment test_stores).1

answered : handle grant (some app) form moment test_stores ≡ (reply answer, after)
unfolding handle authserver_go.Oidc.Grants.AuthCode.first_token
    authserver_go.Oidc.Grants.AuthCode.check_pkce authserver_go.Oidc.Grants.AuthCode.present
    authserver_go.Oidc.Grants.AuthCode.access_claims authserver_go.Oidc.Grants.AuthCode.sign_access
    authserver_go.Oidc.Grants.AuthCode.sign_id authserver_go.Oidc.Grants.AuthCode.mint_refresh
    authserver_go.Oidc.Grants.AuthCode.minted authserver_go.Oidc.Grants.AuthCode.mint
    authserver_go.Oidc.Grants.AuthCode.deliver authserver_go.Oidc.Grants.AuthCode.redeem
    authserver_go.Store.AuthCodes.find_by_hash authserver_go.Store.AuthCodes.mark_consumed
    authserver_go.Store.RefreshTokens.store lookup authserver_go.Base.Assoc.insert
    authserver_go.Base.Int.wrap64 authserver_go.Token.Pkce.verify_s256
    authserver_go.Base.Text.byte_len authserver_go.Base.Text.rune_len
    authserver_go.Base.Text.is_space authserver_go.Base.Text.push_word authserver_go.Base.Text.words
    authserver_go.Base.Text.fields authserver_go.Domain.Client.access_token_lifetime
    authserver_go.Domain.Client.effective
    authserver_go.Domain.Client.refresh_token_absolute_lifetime
    authserver_go.Domain.Client.refresh_token_lifetime authserver_go.Domain.Time.add
    authserver_go.Domain.Time.seconds authserver_go.Oidc.Grants.build_id_claims
    authserver_go.Oidc.Grants.copy_claim authserver_go.Oidc.Grants.id_claims_loop
    authserver_go.Oidc.Grants.scope_claims authserver_go.Oidc.Grants.whole_seconds
    authserver_go.Store.Users.find_by_id authserver_go.Store.Users.build_claims_map
    authserver_go.Store.Users.claims_map authserver_go.Store.Users.with_user_claims
    authserver_go.Token.Crypto.hash_token authserver_go.Token.Crypto.hash_access_token
    authserver_go.Token.Crypto.new_opaque_token
answered = refl

indexed : IsIndexed test_codes
unfolding lookup
indexed = record {
  hash_leads = λ hash id e. ground (arith, e);
  id_keys = λ id c e. ground (arith, e);
}

code_redeems_example :
    (c : Client) × (code : AuthorizationCode) × Presented grant
      (some app)
      form
      (noon + second)
      test_codes
      c
      code
    × PkceHolds test_crypto code verifier
    × (row test_codes code.id ≡ some code)
    × (code.consumed_at ≡ none)
    × (row after.codes code.id ≡ some (record code { consumed_at = some (noon + second) }))
code_redeems_example =
    code_redeems grant (some app) form moment test_stores answer after indexed answered

code_single_use_example : handle grant (some app) form moment after ≢ (reply answer, after)
code_single_use_example =
    code_single_use grant form (some app) (some app) moment moment test_stores answer answer after
      after indexed answered

-- The same code without a method.
abbrev bare_code : AuthorizationCode
bare_code = record live_code { code_challenge_method = none }

abbrev bare_stores : Stores
bare_stores = record test_stores {
  codes = record { codes = (3, bare_code) ∷ []; by_hash = ("hac", 3) ∷ [] };
}

bare-NilMethod : NilMethod grant (some app) form moment.checked bare_stores.codes app bare_code
unfolding lookup authserver_go.Store.AuthCodes.find_by_hash authserver_go.Token.Crypto.hash_token
bare-NilMethod = record {
  complete = refl;
  client = refl;
  named = refl;
  found = refl;
  within = omega arith;
  owned = refl;
  same_redirect = refl;
  challenged = refl;
  no_method = refl;
}

handle-panics_example : handle grant (some app) form moment bare_stores ≡ (panics, bare_stores)
handle-panics_example =
    (handle-panics grant (some app) form moment bare_stores bare_stores).1
      (refl, app, bare_code, bare-NilMethod)
