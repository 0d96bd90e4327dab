-- ===== src/Tests/Accounts.antt =====
-- The theorems on local users and sessions at concrete inputs.
use ot_soc_fusion_x.Base.{
  ◌≡◌, ◌≢◌, ◌↔◌, refl, true, codes, none, some, List, [], ◌∷◌, ok, Result, arith, Text, err,
}
use ot_soc_fusion_x.Platform.{Datetime}
use ot_soc_fusion_x.Auth.Model.{AuthSession, LocalUser}
use ot_soc_fusion_x.Auth.Store.{AuthStore, AuthError, Draws, find_session, find_user}
use ot_soc_fusion_x.Auth.Guards.{
  AuthPrincipal, require_authenticated, require_csrf_protection, require_mutation_permission,
  check_permission,
}
use ot_soc_fusion_x.Auth.Guards.Accepted.{
  IsAuthenticated, require_authenticated_iff, principal_of, seen_store,
}
use ot_soc_fusion_x.Auth.Login.{
  authenticate_and_create_session, revoke_session, named_user, is_admitted, issue_session,
}
use ot_soc_fusion_x.Auth.Sessions.{IsKeyed}
use ot_soc_fusion_x.Auth.Api.{AccountRequest, logout, patch_user, handle, after_commit, serve}
use ot_soc_fusion_x.Auth.Api.Administrators.{serve-HasAdministrator}
use ot_soc_fusion_x.Auth.Api.Logout.{logout_ends}
use ot_soc_fusion_x.Auth.Api.Lockout.{lockout, disabled}
use ot_soc_fusion_x.Auth.Api.Opened.{IsAdmitted, login_iff, login_opens}
use ot_soc_fusion_x.Auth.Passwords.{hash_password, verify_password_or_dummy, join_fields}
use ot_soc_fusion_x.Auth.Passwords.Checked.{verify-hash}
use ot_soc_fusion_x.Tests.Office.{
  primitives, primitives-IsLibrary, settings, draws, office, web, root_token, new_token,
  login_request, disable, root, root_session, guest, guest_session, guest_token, repeated,
  repeated-AreBytes, csrf_token,
}
use ot_soc_fusion_x.Auth.Security.{is_token, keyed_token_digest, validate_password}
use ot_soc_fusion_x.Auth.Audit.{validated_details, reject_sensitive_keys}
use ot_soc_fusion_x.Auth.Users.{
  update_local_user, locked_user, next_display_name, changed_fields, write_update,
}
use ot_soc_fusion_x.Auth.Passwords.Base64.{encode}
use ot_soc_fusion_x.Auth.Users.Administrators.{HasAdministrator}
use ot_soc_fusion_x.Auth.Attempts.{IssuedSession, LoginAttempt, issued_row}

-- The requests of root to disable the only administrator and the guest.
abbrev attempts : List (Draws × Datetime × AccountRequest)
attempts =
    (draws, 100, patch_user (web root_token) (disable "user-1"))
    ∷ (draws, 110, patch_user (web root_token) (disable "user-2"))
    ∷ []

serve-HasAdministrator_example :
    HasAdministrator (serve primitives settings attempts office).local_users
serve-HasAdministrator_example = serve-HasAdministrator primitives settings attempts office refl

abbrev logged_out : AuthStore
logged_out =
    after_commit primitives settings office
      (handle primitives settings draws 100 (logout (web root_token) "request-3") office)

logout_accepted :
    handle primitives settings draws 100 (logout (web root_token) "request-3") office
    ≡ ok logged_out
unfolding handle require_authenticated require_csrf_protection revoke_session validated_details
    reject_sensitive_keys
logout_accepted = refl

office-IsKeyed : IsKeyed office.auth_sessions
office-IsKeyed = (refl, refl)

abbrev root_principal : AuthPrincipal
root_principal = principal_of 200 root_session root

-- Root logs out; the guest disables nothing after that; the token of root is dead.
logout_ends_example :
    require_authenticated primitives settings 200
      (web root_token)
      (serve primitives settings attempts logged_out)
    ≢ ok (root_principal, logged_out)
logout_ends_example =
    logout_ends primitives settings draws 100 (web root_token) "request-3" office attempts 200
      (web root_token) office-IsKeyed logout_accepted refl (root_principal, logged_out)

abbrev guest_out : AuthStore
guest_out =
    after_commit primitives settings office
      (handle primitives settings draws 100 (patch_user (web root_token) (disable "user-2")) office)

disable_accepted :
    handle primitives settings draws 100 (patch_user (web root_token) (disable "user-2")) office
    ≡ ok guest_out
unfolding handle require_mutation_permission require_authenticated require_csrf_protection
    check_permission update_local_user locked_user next_display_name changed_fields
    validated_details reject_sensitive_keys write_update
disable_accepted = refl

root-IsAuthenticated :
    IsAuthenticated primitives settings 200 (web root_token) office root_session root
unfolding is_token keyed_token_digest find_session find_user
root-IsAuthenticated = record {
  token = root_token;
  cookie = refl;
  shape = refl;
  digest = "root";
  digested = refl;
  found = refl;
  owner = refl;
  unrevoked = refl;
  current = omega arith;
  active = refl;
}

require_authenticated_iff_example :
    ((r : AuthPrincipal × AuthStore) × (require_authenticated primitives settings 200
          (web root_token)
          office
        ≡ ok r))
    ↔ ((session : AuthSession) × (user : LocalUser) × IsAuthenticated primitives settings 200
          (web root_token)
          office
          session
          user)
require_authenticated_iff_example =
    require_authenticated_iff primitives settings 200 (web root_token) office

abbrev guest_principal : AuthPrincipal
guest_principal = principal_of 200 guest_session guest

-- The guest is disabled, and enabled again; the token that the guest had stays dead.
abbrev enabled_again : List (Draws × Datetime × AccountRequest)
enabled_again =
    (
      draws,
      150,
      patch_user (web root_token)
          (record (disable "user-2") { active = some true; expected_version = 2 }),
    )
    ∷ []

lockout_example :
    require_authenticated primitives settings 200
      (web guest_token)
      (serve primitives settings enabled_again guest_out)
    ≢ ok (guest_principal, guest_out)
unfolding keyed_token_digest find_session
lockout_example =
    lockout primitives settings "user-2" draws 100 (patch_user (web root_token) (disable "user-2"))
      office enabled_again 200 (web guest_token) guest_token "guest" guest_session
      (disabled (web root_token) (disable "user-2") refl refl) office-IsKeyed disable_accepted refl
      refl refl refl (guest_principal, guest_out)

abbrev or_refused : Result AuthError (LoginAttempt × AuthStore) → LoginAttempt × AuthStore
or_refused (ok r) = r
or_refused (err e) = (none, office)

abbrev root_login : LoginAttempt × AuthStore
root_login =
    or_refused (authenticate_and_create_session primitives settings draws 100 login_request office)

root_login_returns :
    authenticate_and_create_session primitives settings draws 100 login_request office
    ≡ ok root_login
unfolding authenticate_and_create_session named_user is_admitted join_fields encode issue_session
    validated_details reject_sensitive_keys
root_login_returns = refl

login_iff_example :
    ((issued : IssuedSession) × (root_login.0 ≡ some issued))
    ↔ ((user : LocalUser) × IsAdmitted primitives settings login_request office user)
login_iff_example = login_iff primitives settings draws 100 login_request office root_login_returns

abbrev root_issued : IssuedSession
root_issued = record {
  user = root;
  auth_session = issued_row settings draws 100 root "new" "csrf";
  raw_session_token = new_token;
  raw_csrf_token = csrf_token;
}

root_login_issues : root_login.0 ≡ some root_issued
unfolding authenticate_and_create_session named_user is_admitted join_fields encode issue_session
    validated_details reject_sensitive_keys
root_login_issues = refl

login_opens_example :
    IsAdmitted primitives settings login_request office root
    × (require_authenticated primitives settings 200 (web new_token) root_login.1
        ≡ ok (
          principal_of 200 root_issued.auth_session root,
          seen_store 200 root_issued.auth_session root_login.1,
        ))
login_opens_example =
    login_opens primitives settings draws 100 login_request office root_issued 200 (web new_token)
      root_login_returns root_login_issues refl refl refl (omega arith)

abbrev password : Text
password = codes "correct horse battery"

password_hashed : hash_password primitives (repeated 16 0) password ≡ ok root.password_hash
unfolding hash_password validate_password join_fields encode
password_hashed = refl

verify-hash_example : verify_password_or_dummy primitives password (some root.password_hash) ≡ true
verify-hash_example =
    verify-hash primitives primitives-IsLibrary (repeated 16 0) password root.password_hash refl
      (repeated-AreBytes 16) password_hashed
