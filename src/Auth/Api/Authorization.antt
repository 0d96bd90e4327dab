-- ===== src/Auth/Api/Authorization.antt =====
-- Who may manage the local users in backend/app/api/auth.py.
use ot_soc_fusion_x.Base.{◌≡◌, ok, Text, Bool, true, some, str_eq, any}
use ot_soc_fusion_x.Auth.Model.{AuthSession, Role, manage_users, role_permissions, permission_value}
use ot_soc_fusion_x.Auth.Store.{Primitives, Settings}
use ot_soc_fusion_x.Auth.Security.{keyed_token_digest}
use ot_soc_fusion_x.Auth.Guards.{Request, is_allowed_origin, double_submitted}
use ot_soc_fusion_x.Auth.Users.{UserUpdate, PasswordReset}
use ot_soc_fusion_x.Auth.Api.{AccountRequest, create_user, patch_user, reset_user_password}
use ot_soc_fusion_x.Auth.Registration.{UserCreation}

-- The request manages users.
pub data IsManagement (web : Request) : AccountRequest → Type 0 where
  created : (creation : UserCreation) → IsManagement web (create_user web creation)
  patched : (update : UserUpdate) → IsManagement web (patch_user web update)
  given_password : (reset : PasswordReset) → IsManagement web (reset_user_password web reset)

abbrev may_manage : Role → Bool
may_manage role =
    any (λ p. str_eq (permission_value p) (permission_value manage_users)) (role_permissions role)

module _ (primitives : Primitives) (settings : Settings) where
  -- The token of the header and of the cookie is the one of the session, and the origin is approved.
  pub record IsSubmitted (web : Request) (session : AuthSession) : Type 0 where
    pub token : Text
    pub origin : is_allowed_origin settings (web.header "Origin") ≡ true
    pub doubled :
        double_submitted (web.header "X-CSRF-Token") (web.cookie settings.auth_csrf_cookie_name)
        ≡ some token
    pub digested :
        keyed_token_digest primitives settings.auth_session_secret token ≡ ok session.csrf_digest
