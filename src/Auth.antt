-- ===== src/Auth.antt =====
-- Sessions and access, backend/app/auth.py. The hash and the random tokens are parameters; times count
-- microseconds, and all readings of the clock in one call are one number. A method is ASCII, as HTTP
-- has it. Rows of the table of sessions stand in the order of insertion.
pub mod Access
pub mod Lifetime
mod Tests
use Prim.Native.Nat.{ℕ, suc, ◌+◌, ◌-◌, ◌*◌, max}
use Prim.Native.String.{String}
use mathlib.Core.Bool.{Bool, true, false, ◌&&◌, ◌||◌, not}
use mathlib.Core.Option.{Option, none, some}
use mathlib.Core.List.{List, [], ◌∷◌, ◌++◌, map}
use drivee_tolmach.Common.{
  Text, codes, leb, ltb, nat_eq, take, elem, is_empty, ◌==◌, same_list, same_ℕ, if◌then◌else◌,
}
use drivee_tolmach.Settings.{Settings}

pub record User : Type 0 where
  pub id : ℕ
  pub role : Text
  pub is_active : Bool

pub record RefreshToken : Type 0 where
  pub id : ℕ
  pub user_id : ℕ
  pub token_hash : Text
  pub device_hint : Text
  pub created_at : ℕ
  pub expires_at : Option ℕ
  pub revoked_at : Option ℕ

pub record Accounts : Type 0 where
  pub users : List User
  pub sessions : List RefreshToken
  pub next_session_id : ℕ

pub record SessionBundle : Type 0 where
  pub session_token : Text
  pub csrf_token : Text
  pub expires_at : ℕ

-- What is read of a request: the cookies and the header by the names that the settings give them.
pub record Request : Type 0 where
  pub method : Text
  pub session_cookie : Option Text
  pub csrf_cookie : Option Text
  pub csrf_header : Option Text

-- A result, or an HTTPException with its status and detail.
pub data Reply {ℓ} (A : Type ℓ) : Type ℓ where
  ok : A → Reply A
  http_error : (status : ℕ) (detail : Text) → Reply A

abbrev ascii_upper : ℕ → ℕ
ascii_upper c = if leb b'a' c && leb c b'z' then c - 32 else c

-- SAFE_HTTP_METHODS
abbrev pub safe_http_methods : List Text
safe_http_methods = codes "GET" ∷ codes "HEAD" ∷ codes "OPTIONS" ∷ []

pub is_safe : Text → Bool
unfolding elem
is_safe method = elem (map ascii_upper method) safe_http_methods

-- `value or ""`
abbrev pub or_empty : Option Text → Text
or_empty none = []
or_empty (some s) = s

-- The tests of require_csrf: true where it raises nothing.
unfoldable pub passes_csrf : Request → Bool
unfolding is_safe
passes_csrf r =
    is_safe r.method
    || (not (is_empty (or_empty r.csrf_cookie))
        && (not (is_empty (or_empty r.csrf_header))
            && (or_empty r.csrf_cookie == or_empty r.csrf_header)))

unfoldable pub find_user : ℕ → List User → Option User
find_user id [] = none
find_user id (user ∷ users) = if nat_eq user.id id then some user else find_user id users

abbrev pub is_none : Option ℕ → Bool
is_none none = true
is_none (some _) = false

unfoldable pub is_live : Text → RefreshToken → Bool
is_live hash s = s.token_hash == hash && is_none s.revoked_at

abbrev pub newest : RefreshToken → Option RefreshToken → RefreshToken
newest s none = s
newest s (some other) = if leb other.created_at s.created_at then s else other

-- The session with a hash that is not revoked, the newest one.
unfoldable pub find_session : Text → List RefreshToken → Option RefreshToken
unfolding is_live
find_session hash [] = none
find_session hash (s ∷ sessions) =
    let rest = find_session hash sessions in if is_live hash s then some (newest s rest) else rest

-- `session.revoked_at = _utcnow()`
revoked : ℕ → ℕ → RefreshToken → RefreshToken
revoked id now s = if nat_eq s.id id then record s { revoked_at = some now } else s

pub revoke : ℕ → ℕ → Accounts → Accounts
unfolding revoked
revoke id now a = record a { sessions = map (revoked id now) a.sessions }

abbrev pub is_expired : ℕ → Option ℕ → Bool
is_expired now none = false
is_expired now (some at) = leb at now

active_user : Option User → Option User
active_user none = none
active_user (some user) = if user.is_active then some user else none

module _ (hash_session_token : Text → Text) (now : ℕ) where
  resolve_found : Accounts → Option RefreshToken → Option User × Accounts
  unfolding active_user find_user revoke
  resolve_found a none = (none, a)
  resolve_found a (some s) =
      if is_expired now s.expires_at
      then (none, revoke s.id now a)
      else (active_user (find_user s.user_id a.users), a)

  unfoldable pub resolve_session_user : Accounts → Text → Option User × Accounts
  unfolding resolve_found find_session
  resolve_session_user a token =
      resolve_found a (find_session (hash_session_token token) a.sessions)

  revoke_found : Accounts → Option RefreshToken → Bool × Accounts
  unfolding revoke
  revoke_found a none = (false, a)
  revoke_found a (some s) = (true, revoke s.id now a)

  revoke_token : Accounts → Text → Bool × Accounts
  unfolding revoke_found find_session
  revoke_token a token =
      if is_empty token
      then (false, a)
      else revoke_found a (find_session (hash_session_token token) a.sessions)

  unfoldable pub revoke_session : Accounts → Option Text → Bool × Accounts
  unfolding revoke_token
  revoke_session a token = revoke_token a (or_empty token)

  unfoldable pub create_session_bundle :
      Settings → Text → Text → User → Text → Accounts → SessionBundle × Accounts
  create_session_bundle settings session_token csrf_token user device_hint a =
      let expires_at = now + (max 1 settings.session_ttl_hours * 3600) * 1000000 in
      (
        record { session_token = session_token; csrf_token = csrf_token; expires_at = expires_at },
        record a {
          sessions =
              a.sessions
              ++ record {
                id = a.next_session_id;
                user_id = user.id;
                token_hash = hash_session_token session_token;
                device_hint = take 255 device_hint;
                created_at = now;
                expires_at = some expires_at;
                revoked_at = none;
              }
                ∷ [];
          next_session_id = suc a.next_session_id;
        },
      )

  user_or_error : Option User × Accounts → Reply User × Accounts
  user_or_error (none, a) = (http_error 401 (codes "Session expired or is no longer valid."), a)
  user_or_error (some user, a) = (ok user, a)

  with_token : Request → Accounts → Text → Reply User × Accounts
  unfolding user_or_error resolve_session_user passes_csrf
  with_token r a token =
      if is_empty token
      then (http_error 401 (codes "Authentication is required."), a)
      else if passes_csrf r
      then user_or_error (resolve_session_user a token)
      else (http_error 403 (codes "CSRF validation failed."), a)

  unfoldable pub get_current_user : Request → Accounts → Reply User × Accounts
  unfolding with_token
  get_current_user r a = with_token r a (or_empty r.session_cookie)

  admin_or_error : Reply User × Accounts → Reply User × Accounts
  admin_or_error (http_error status detail, a) = (http_error status detail, a)
  admin_or_error (ok user, a) =
      if user.role == codes "admin"
      then (ok user, a)
      else (http_error 403 (codes "Admin access is required."), a)

  -- require_admin, which depends on get_current_user
  unfoldable pub require_admin : Request → Accounts → Reply User × Accounts
  unfolding admin_or_error get_current_user
  require_admin r a = admin_or_error (get_current_user r a)
