-- ===== src/Tests/Office.antt =====
-- Two local users with their sessions, for the tests of backend/app/auth.
use ot_soc_fusion_x.Base.{
  ℕ, ◌≡◌, refl, true, false, String, Text, codes, none, some, List, [], ◌∷◌, if◌then◌else◌,
  same_text, str_eq, pos, suc, zero, length, arith, Option, ap, ℤ, ◌++◌, str_int,
}
use ot_soc_fusion_x.Platform.{Sha256}
use ot_soc_fusion_x.Auth.Model.{admin, read_only, LocalUser, AuthSession}
use ot_soc_fusion_x.Auth.Store.{Primitives, Settings, Draws, AuthStore}
use ot_soc_fusion_x.Auth.Passwords.{join_fields, fields}
use ot_soc_fusion_x.Auth.Passwords.Base64.{encode}
use ot_soc_fusion_x.Auth.Passwords.Base64.Decoded.{AreBytes}
use ot_soc_fusion_x.Auth.Passwords.Checked.{IsLibrary}
use ot_soc_fusion_x.Auth.Guards.{Request}
use ot_soc_fusion_x.Auth.Users.{UserUpdate}
use ot_soc_fusion_x.Auth.Attempts.{LoginRequest}

abbrev pub repeated : ℕ → ℕ → List ℕ
repeated zero n = []
repeated (suc k) n = n ∷ repeated k n

pub length-repeated : (k n : ℕ) → length (repeated k n) ≡ k
length-repeated zero n = refl
length-repeated (suc k) n = ap suc (length-repeated k n)

pub repeated-AreBytes : (k : ℕ) → AreBytes (repeated k 0)
repeated-AreBytes zero = tt
repeated-AreBytes (suc k) = (omega arith, repeated-AreBytes k)

-- Tokens of one letter each.
abbrev pub root_token : Text
root_token = repeated 43 97

abbrev pub guest_token : Text
guest_token = repeated 43 98

abbrev pub csrf_token : Text
csrf_token = repeated 43 99

abbrev pub new_token : Text
new_token = repeated 43 100

-- A digest names the token.
abbrev digest_of : Text → Sha256
digest_of token =
    if same_text token root_token
    then "root"
    else if same_text token guest_token
    then "guest"
    else if same_text token csrf_token
    then "csrf"
    else "new"

abbrev number_of : Text → Option ℤ
number_of text =
    if same_text text (codes "1")
    then some (pos 1)
    else if same_text text (codes "32768")
    then some (pos 32768)
    else if same_text text (codes "8")
    then some (pos 8)
    else if same_text text (codes "32")
    then some (pos 32)
    else none

abbrev pub primitives : Primitives
primitives = record {
  casefold = λ text. text;
  upper = λ text. text;
  int_text = number_of;
  hmac_sha256 = λ secret token. digest_of token;
  scrypt = λ password salt n r p dklen. repeated dklen 0;
}

pub primitives-IsLibrary : IsLibrary primitives
unfolding str_int
primitives-IsLibrary = record {
  reads = (refl, (refl, (refl, (refl, tt))));
  derives = λ password salt n r p dklen. (length-repeated dklen 0, repeated-AreBytes dklen);
}

abbrev pub settings : Settings
settings = record {
  auth_session_secret = repeated 32 115;
  auth_session_ttl_minutes = 480;
  auth_session_cookie_name = "otsoc_session";
  auth_csrf_cookie_name = "otsoc_csrf";
  cors_origin_strings = codes "http://localhost" ∷ [];
}

abbrev pub draws : Draws
draws = record {
  session_token = new_token;
  csrf_token = csrf_token;
  session_id = "session-3";
  user_id = "user-3";
  audit_event_id = "audit-1";
  salt = repeated 16 0;
}

abbrev pub root : LocalUser
root = record {
  user_id = "user-1";
  username = codes "root";
  display_name = "Root";
  role = admin;
  password_hash = join_fields (fields ++ encode (repeated 16 0) ∷ encode (repeated 32 0) ∷ []);
  active = true;
  version = 1;
  created_at = 10;
  updated_at = 10;
  password_changed_at = 10;
}

abbrev pub guest : LocalUser
guest = record root {
  user_id = "user-2";
  username = codes "guest";
  display_name = "Guest";
  role = read_only;
}

abbrev pub root_session : AuthSession
root_session = record {
  session_id = "session-1";
  user_id = "user-1";
  token_digest = "root";
  csrf_digest = "csrf";
  created_at = 20;
  expires_at = 1000;
  last_seen_at = 20;
  revoked_at = none;
}

abbrev pub guest_session : AuthSession
guest_session = record root_session {
  session_id = "session-2";
  user_id = "user-2";
  token_digest = "guest";
}

abbrev pub office : AuthStore
office = record {
  local_users = root ∷ guest ∷ [];
  auth_sessions = root_session ∷ guest_session ∷ [];
  soc_audit_events = [];
}

-- A request with the session token and the CSRF token.
abbrev pub web : Text → Request
web token = record {
  method = codes "PATCH";
  cookie = λ name. if str_eq name "otsoc_session" then some token else some csrf_token;
  header =
      λ name. if str_eq name "Origin" then some (codes "http://localhost/") else some csrf_token;
}

abbrev pub login_request : LoginRequest
login_request = record {
  username = " Root ";
  password = codes "correct horse battery";
  request_id = "request-1";
  now = none;
}

-- Disables the user.
abbrev pub disable : String → UserUpdate
disable id = record {
  user_id = id;
  display_name = none;
  role = none;
  active = some false;
  expected_version = 1;
  actor_user_id = "";
  request_id = "request-2";
  now = none;
}
