-- ===== src/Store/Users/Tokens.antt =====
-- internal/store/memory/users.go: the tokens of accounts, under one key for user, provider and name.
use authserver_go.Base.{String, none, some, string_eq}
use authserver_go.Base.Assoc.{lookup, insert, erase}
use authserver_go.Base.Text.{concat}
use authserver_go.Domain.Entities.{UserToken}
use authserver_go.Store.Error.{Result, ok, err, Update, not_found}
use authserver_go.Store.Users.{UserStore}

unfoldable pub token_key : String → String → String → String
token_key user_id provider name = concat user_id (concat ":" (concat provider (concat ":" name)))

unfoldable pub set_user_token : UserToken → Update UserStore Unit
unfolding token_key
set_user_token token s = elim (lookup token.user_id s.users) [
  | none ↦ (err not_found, s)
  | some _ ↦ (
    ok tt,
    record s {
      tokens = insert (token_key token.user_id token.login_provider token.name) token s.tokens;
    },
  )
]

unfoldable pub get_user_token : UserStore → String → String → String → Result UserToken
unfolding token_key
get_user_token s user_id provider name = elim (lookup (token_key user_id provider name) s.tokens) [
  | none ↦ err not_found
  | some t ↦ ok t
]

unfoldable pub remove_user_token : String → String → String → Update UserStore Unit
unfolding token_key
remove_user_token user_id provider name s =
    elim (lookup (token_key user_id provider name) s.tokens) [
      | none ↦ (err not_found, s)
      | some _ ↦ (ok tt, record s { tokens = erase (token_key user_id provider name) s.tokens })
    ]
