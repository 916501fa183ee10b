-- ===== src/Tests/Refresh.antt =====
-- The refresh_token grant, on the refresh token "rt".
use authserver_go.Base.{
  ◌≡◌, ◌≢◌, ◌⊎◌, ◌&&◌, refl, String, List, contains, Option, none, some, [], ◌∷◌, ◌+◌, ◌*◌, ◌≤◌,
  true, false, eq_iff, arith, is_some, not_beq→ne, string_eq,
}
use authserver_go.Base.Assoc.{lookup}
use authserver_go.Base.Int.{pos}
use authserver_go.Domain.Time.{Time, second}
use authserver_go.Domain.Entities.{RefreshToken}
use authserver_go.Domain.Client.{Client, access_token_lifetime}
use authserver_go.Store.RefreshTokens.{RefreshTokenStore, find_by_hash}
use authserver_go.Store.Error.{ok}
use authserver_go.Store.RefreshTokens.Laws.{row, IsIndexed}
use authserver_go.Oidc.Http.{reply, pass, fail, bad_request}
use authserver_go.Oidc.Stores.{Stores}
use authserver_go.Oidc.Grants.{TokenResponse}
use authserver_go.Oidc.Grants.Refresh.{
  RefreshGrant, RefreshForm, Draws, handle, rotated, access_claims, down_scope,
}
use authserver_go.Oidc.Grants.Refresh.Outcome.{Presented}
use authserver_go.Oidc.Grants.Refresh.Chain.{Chain, first}
use authserver_go.Oidc.Grants.Refresh.Success.{refresh_redeems}
use authserver_go.Oidc.Grants.Refresh.Rotation.{Rotation, refresh_rotates, refresh_within_ceiling}
use authserver_go.Oidc.Grants.Refresh.Rejected.{refresh_token_single_use, reuse_revokes_session}
use authserver_go.Oidc.Grants.Refresh.AuthTime.{refresh_signs_auth_time, refresh_extends-Chain}
use authserver_go.Token.Crypto.{hash_token}
use authserver_go.Tests.Data.{
  test_crypto, test_issuer, noon, app, live_token, test_refresh, test_stores,
}

abbrev pub grant : RefreshGrant
grant = record {
  crypto = test_crypto;
  issuer = test_issuer;
  uuid_string = λ id. "id";
  audited = true;
  id_token_lifetime = pos second;
  detect_reuse = true;
}

abbrev form : RefreshForm
form = record { refresh_token = "rt"; client_id = "app"; scope = "" }

abbrev draws : Draws
draws = record { token_id = 8; audit_id = 9; opaque = some "rt2" }

abbrev now : Time
now = noon + second

abbrev answer : TokenResponse
answer = record {
  access_token = "access";
  token_type = "Bearer";
  expires_in = pos 3600;
  refresh_token = "rt2";
  id_token = "id";
  scope = "openid offline_access";
}

abbrev after : Stores
after = (handle grant (some app) form draws now test_stores).1

answered : handle grant (some app) form draws now test_stores ≡ (reply answer, after)
unfolding authserver_go.Oidc.Grants.Refresh.present authserver_go.Oidc.Grants.Refresh.check_usable
    authserver_go.Oidc.Grants.Refresh.redeem authserver_go.Oidc.Grants.Refresh.mint
    authserver_go.Oidc.Grants.Refresh.user_of authserver_go.Oidc.Grants.Refresh.down_scope
    authserver_go.Oidc.Grants.Refresh.subset authserver_go.Oidc.Grants.Refresh.sign_access
    authserver_go.Oidc.Grants.Refresh.mint_id_token authserver_go.Oidc.Grants.Refresh.mint_refresh
    authserver_go.Oidc.Grants.Refresh.deliver authserver_go.Oidc.Grants.Refresh.minted
    authserver_go.Oidc.Grants.Refresh.chain_root_created_at
    authserver_go.Oidc.Grants.Refresh.chain_walk authserver_go.Oidc.Grants.Refresh.rotated_expiry
    authserver_go.Oidc.Grants.Refresh.handle_reuse authserver_go.Oidc.Grants.Refresh.reuse_entry
    authserver_go.Oidc.Grants.Refresh.reuse_metadata authserver_go.Oidc.Grants.Refresh.revoke_chain
    handle rotated access_claims authserver_go.Store.RefreshTokens.store
    authserver_go.Store.RefreshTokens.find_by_hash authserver_go.Store.RefreshTokens.find_by_id
    authserver_go.Store.RefreshTokens.mark_consumed authserver_go.Store.RefreshTokens.revoke
    authserver_go.Store.RefreshTokens.revoke_by_session_id
    authserver_go.Store.RefreshTokens.revoke_in authserver_go.Store.RefreshTokens.in_session lookup
    authserver_go.Base.Assoc.insert authserver_go.Base.Assoc.update_all
    authserver_go.Base.Int.wrap64 authserver_go.Base.Text.concat authserver_go.Base.Text.is_space
    authserver_go.Base.Text.join authserver_go.Base.Text.push_word authserver_go.Base.Text.words
    authserver_go.Base.Text.fields authserver_go.Domain.Client.access_token_lifetime
    authserver_go.Domain.Client.effective
    authserver_go.Domain.Client.refresh_token_absolute_lifetime
    authserver_go.Domain.Client.refresh_token_lifetime authserver_go.Domain.Time.add
    authserver_go.Domain.Time.seconds authserver_go.Oidc.Grants.build_id_claims
    authserver_go.Oidc.Grants.copy_claim authserver_go.Oidc.Grants.id_claims_loop
    authserver_go.Oidc.Grants.scope_claims authserver_go.Oidc.Grants.whole_seconds
    authserver_go.Store.AuditLogs.store authserver_go.Store.Users.find_by_id
    authserver_go.Store.Users.build_claims_map authserver_go.Store.Users.claims_map
    authserver_go.Store.Users.with_user_claims authserver_go.Token.Crypto.hash_token
    authserver_go.Token.Crypto.hash_access_token authserver_go.Token.Crypto.new_opaque_token
answered = refl

indexed : IsIndexed test_refresh
unfolding lookup
indexed = record {
  hash_leads = λ hash id e. ground (arith, e);
  id_keys = λ id t e. ground (arith, e);
}

-- The id that the request draws is new.
fresh : row test_refresh 8 ≡ none
unfolding lookup
fresh = refl

refresh_redeems_example :
    (c : Client) × (t : RefreshToken) × Presented grant (some app) form now test_refresh c t
    × (row test_refresh t.id ≡ some t)
    × (t.consumed_at ≡ none)
    × (row after.refresh t.id ≡ some (record t { consumed_at = some now }))
refresh_redeems_example =
    refresh_redeems grant (some app) form draws now test_stores answer after indexed fresh answered

-- The token that the rotation stores.
abbrev next_token : RefreshToken
next_token = rotated app live_token now "openid offline_access" 8 "hrt2"

next_stored : row after.refresh 8 ≡ some next_token
unfolding authserver_go.Oidc.Grants.Refresh.present authserver_go.Oidc.Grants.Refresh.check_usable
    authserver_go.Oidc.Grants.Refresh.redeem authserver_go.Oidc.Grants.Refresh.mint
    authserver_go.Oidc.Grants.Refresh.user_of authserver_go.Oidc.Grants.Refresh.down_scope
    authserver_go.Oidc.Grants.Refresh.subset authserver_go.Oidc.Grants.Refresh.sign_access
    authserver_go.Oidc.Grants.Refresh.mint_id_token authserver_go.Oidc.Grants.Refresh.mint_refresh
    authserver_go.Oidc.Grants.Refresh.deliver authserver_go.Oidc.Grants.Refresh.minted
    authserver_go.Oidc.Grants.Refresh.chain_root_created_at
    authserver_go.Oidc.Grants.Refresh.chain_walk authserver_go.Oidc.Grants.Refresh.rotated_expiry
    authserver_go.Oidc.Grants.Refresh.handle_reuse authserver_go.Oidc.Grants.Refresh.reuse_entry
    authserver_go.Oidc.Grants.Refresh.reuse_metadata authserver_go.Oidc.Grants.Refresh.revoke_chain
    handle rotated access_claims authserver_go.Store.RefreshTokens.store
    authserver_go.Store.RefreshTokens.find_by_hash authserver_go.Store.RefreshTokens.find_by_id
    authserver_go.Store.RefreshTokens.mark_consumed authserver_go.Store.RefreshTokens.revoke
    authserver_go.Store.RefreshTokens.revoke_by_session_id
    authserver_go.Store.RefreshTokens.revoke_in authserver_go.Store.RefreshTokens.in_session lookup
    authserver_go.Base.Assoc.insert authserver_go.Base.Assoc.update_all
    authserver_go.Base.Int.wrap64 authserver_go.Base.Text.concat authserver_go.Base.Text.is_space
    authserver_go.Base.Text.join authserver_go.Base.Text.push_word authserver_go.Base.Text.words
    authserver_go.Base.Text.fields authserver_go.Domain.Client.access_token_lifetime
    authserver_go.Domain.Client.effective
    authserver_go.Domain.Client.refresh_token_absolute_lifetime
    authserver_go.Domain.Client.refresh_token_lifetime authserver_go.Domain.Time.add
    authserver_go.Domain.Time.seconds authserver_go.Oidc.Grants.build_id_claims
    authserver_go.Oidc.Grants.copy_claim authserver_go.Oidc.Grants.id_claims_loop
    authserver_go.Oidc.Grants.scope_claims authserver_go.Oidc.Grants.whole_seconds
    authserver_go.Store.AuditLogs.store authserver_go.Store.Users.find_by_id
    authserver_go.Store.Users.build_claims_map authserver_go.Store.Users.claims_map
    authserver_go.Store.Users.with_user_claims authserver_go.Token.Crypto.hash_token
    authserver_go.Token.Crypto.hash_access_token authserver_go.Token.Crypto.new_opaque_token
next_stored = refl

refresh_rotates_example :
    (c : Client) × (t : RefreshToken) × Presented grant (some app) form now test_refresh c t
    × (granted : List String) × (down_scope t.scope "" ≡ pass ("openid offline_access", granted))
    × ((((c.allow_refresh_tokens && contains granted "offline_access") ≡ false)
          × (answer.refresh_token ≡ ""))
        ⊎ (((c.allow_refresh_tokens && contains granted "offline_access") ≡ true)
            × (r : RefreshToken) × (find_by_hash after.refresh
                  (hash_token test_crypto answer.refresh_token)
                ≡ ok r)
            × Rotation grant c t r now answer))
refresh_rotates_example =
    refresh_rotates grant (some app) form draws now test_stores answer after answered

found_live : find_by_hash test_refresh (hash_token test_crypto "rt") ≡ ok live_token
unfolding find_by_hash hash_token lookup
found_live = refl

refresh_within_ceiling_example :
    (next_token.expires_at ≤ noon + 9000 * second)
    × (next_token.absolute_expires_at ≡ noon + 9000 * second)
refresh_within_ceiling_example =
    refresh_within_ceiling grant (some app) form draws now test_stores answer after app live_token
      next_token indexed fresh refl refl found_live answered next_stored

refresh_signs_auth_time_example :
    (c : Client) × (test_issuer.issue_access_token (record {
      subject = "ada";
      client_id = c.client_id;
      scope = answer.scope;
      auth_time = some noon;
      expires_in = access_token_lifetime c;
    })
      ≡ some "access")
refresh_signs_auth_time_example =
    refresh_signs_auth_time grant (some app) form draws now test_stores answer after 0 noon
      live_token indexed found_live (first refl refl) (omega arith) answered

refresh_extends-Chain_example : Chain after.refresh 1 next_token noon
refresh_extends-Chain_example =
    refresh_extends-Chain grant (some app) form draws now test_stores answer after 0 noon live_token
      next_token indexed fresh found_live (first refl refl) answered next_stored

abbrev second_draws : Draws
second_draws = record { token_id = 10; audit_id = 11; opaque = some "rt3" }

-- The hashes of what the client gets and of what it presented differ.
apart : hash_token test_crypto "rt2" ≢ hash_token test_crypto "rt"
unfolding hash_token
apart = not_beq→ne (hash_token test_crypto "rt2") (hash_token test_crypto "rt") refl

-- Another client presents the same token for less.
abbrev stolen_form : RefreshForm
stolen_form = record { refresh_token = "rt"; client_id = "other"; scope = "openid" }

refresh_token_single_use_example :
    handle grant
      (some (record app { client_id = "other" }))
      stolen_form
      second_draws
      (now + 1)
      after
    ≢ (reply answer, after)
refresh_token_single_use_example =
    refresh_token_single_use grant form stolen_form (some app)
      (some (record app { client_id = "other" })) draws second_draws now (now + 1) test_stores
      answer answer after after indexed fresh apart answered refl

-- "rt" has been used, and the session's next token "rt2" is live.
abbrev used_token : RefreshToken
used_token = record live_token { consumed_at = some now }

abbrev stolen : Stores
stolen = record test_stores {
  refresh = record {
    tokens = (7, used_token) ∷ (8, next_token) ∷ [];
    by_hash = ("hrt", 7) ∷ ("hrt2", 8) ∷ [];
  };
}

stolen-IsIndexed : IsIndexed stolen.refresh
unfolding lookup rotated
stolen-IsIndexed = record {
  hash_leads = λ hash id e. ground (arith, e);
  id_keys = λ id t e. ground (arith, e);
}

stolen-Presented : Presented grant (some app) form now stolen.refresh app used_token
unfolding find_by_hash hash_token lookup
stolen-Presented = record {
  complete = refl;
  client = refl;
  named = refl;
  found = refl;
  owned = refl;
  not_revoked = refl;
  within_absolute = omega arith;
  within_sliding = omega arith;
}

-- The row of "rt2" in the stolen store.
stolen_next : row stolen.refresh 8 ≡ some next_token
unfolding lookup
stolen_next = refl

next_session : next_token.session_id ≡ some 5
unfolding rotated
next_session = refl

reuse_revokes_session_example :
    ((handle grant (some app) form draws now stolen).0
      ≡ fail bad_request "invalid_grant" "refresh token reuse detected")
    × (r : RefreshToken) × (row (handle grant (some app) form draws now stolen).1.refresh 8
        ≡ some r)
    × (is_some r.revoked_at ≡ true)
reuse_revokes_session_example =
    reuse_revokes_session grant (some app) form draws now stolen app used_token now 5 8 next_token
      stolen-IsIndexed stolen-Presented refl refl refl stolen_next next_session
