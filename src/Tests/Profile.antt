-- ===== src/Tests/Profile.antt =====
-- A password change at concrete data.
use Prim.Native.String.{String}
use authserver_go.Base.{◌≡◌, ◌≢◌, ◌==◌, refl, true, none, some, [], ◌∷◌, string_eq, nat_eq}
use authserver_go.Base.Assoc.{lookup}
use authserver_go.Base.Text.{trim_space, equal_fold}
use authserver_go.Domain.Entities.{Session, UserInfo}
use authserver_go.Store.Users.{first_user, identifies}
use authserver_go.Store.LoginAttempts.{is_locked_out}
use authserver_go.Oidc.Http.{reply}
use authserver_go.Oidc.Stores.{Stores}
use authserver_go.Store.Users.{validate_credentials, set_password, find_user_by_id}
use authserver_go.Domain.PasswordPolicy.{validate_password}
use authserver_go.Base.Text.{rune_count, byte_len}
use authserver_go.Base.{◌⊎◌}
use authserver_go.Domain.Entities.{User}
use authserver_go.Oidc.Profile.{Profile, ProfileRequest, ProfileMoment, ChangePasswordBody, status}
use authserver_go.Oidc.Profile.Password.{change_password}
use authserver_go.Oidc.Profile.Guard.{Admitted, Untouched, change_needs_password}
use authserver_go.Oidc.Profile.Others.{change_ends_others}
use authserver_go.Oidc.SignedOut.{SignedOutElsewhere}
use authserver_go.Tests.Data.{noon, test_stores, live_session}

abbrev other_session : Session
other_session = record live_session { id = 6 }

abbrev at_home : Stores
at_home = record test_stores {
  sessions = record { sessions = (5, live_session) ∷ (6, other_session) ∷ [] };
}

abbrev account : Profile
account = record {
  bcrypt = record { generate = λ pw. some pw; matches = λ stored pw. stored == pw };
  base_path = "/profile";
  parse_uuid = λ t. none;
  uuid_string = λ id. "";
  throttled = true;
  audited = true;
}

abbrev passwords : ChangePasswordBody
passwords = record {
  current_password = "old";
  new_password = "long enough";
  password_confirm = "long enough";
}

abbrev change : ProfileRequest
change = record {
  method = "POST";
  path = "/profile/password";
  csrf = true;
  session_body = none;
  password_body = some passwords;
  ip = "10.0.0.1";
  logged_ip = "10.0.0.1";
  user_agent = "ua";
}

abbrev at_noon : ProfileMoment
at_noon = record {
  checked = noon;
  recorded = noon;
  updated = noon;
  now = noon;
  audited = noon;
  stamp = "s1";
  audit_id = 30;
}

abbrev after_change : Stores
after_change = (change_password account change at_noon live_session at_home).1

changed :
    change_password account change at_noon live_session at_home
    ≡ (reply (status "password_changed"), after_change)
unfolding change_password validate_credentials is_locked_out lookup equal_fold validate_password
    trim_space rune_count byte_len set_password find_user_by_id first_user identifies
changed = refl

change_needs_password_example :
    Untouched account change at_noon live_session at_home after_change
    ⊎ ((b : ChangePasswordBody) × (user : User) × (info : UserInfo) × Admitted account change
          at_noon live_session at_home b user info)
change_needs_password_example = change_needs_password account change at_noon live_session at_home

change_ends_others_example :
    (b : ChangePasswordBody) × (user : User) × (info : UserInfo) × Admitted account change at_noon
      live_session at_home b user info
    × (status "password_changed" ≡ status "password_changed")
    × ((b.new_password ≡ b.password_confirm)
        × (validate_password b.new_password ≡ none)
        × (b.new_password ≢ b.current_password))
    × ((hash : String) × (account.bcrypt.generate b.new_password ≡ some hash)
        × (lookup user.id after_change.users.hashes ≡ some hash))
    × SignedOutElsewhere "ada" 5 noon at_home after_change
change_ends_others_example =
    change_ends_others account change at_noon live_session at_home after_change
      (status "password_changed") changed
