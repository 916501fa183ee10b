-- ===== src/Domain/Client/Profile.antt =====
-- ApplyProfile against Profile.
use authserver_go.Base.{◌≡◌, ◌≢◌, refl}
use authserver_go.Domain.Client.{
  Client, ClientProfile, spa, web, m2m, custom, apply_profile, profile, is_empty,
}

-- A client that a profile other than custom has been applied to is of that profile, whatever it was
-- before.
pub profile-apply_profile :
    (p : ClientProfile) (c : Client) → p ≢ custom → profile (apply_profile p c) ≡ p
unfolding profile apply_profile is_empty
profile-apply_profile spa c n = refl
profile-apply_profile web c n = refl
profile-apply_profile m2m c n = refl
profile-apply_profile custom c n = absurd (n refl)
