-- ===== src/Auth/Access.antt =====
-- Who gets through get_current_user and require_admin of backend/app/auth.py.
use Prim.Native.Nat.{ℕ}
use mathlib.Core.Path.{◌≡◌, refl}
use mathlib.Core.Logic.{◌⊎◌, inl, inr}
use mathlib.Core.Bool.{true, false}
use mathlib.Core.Option.{Option, none, some}
use mathlib.Core.List.{List, [], ◌∷◌, Memᴰ}
use native.Mathlib.Omega.{arith}
use drivee_tolmach.Common.{
  Text, codes, leb, Bool-cases, if-cases, is_empty, ◌==◌, same_list, same_ℕ,
}
use drivee_tolmach.Auth.{
  User, RefreshToken, Accounts, Request, Reply, ok, http_error, is_safe, or_empty, passes_csrf,
  find_user, is_none, is_live, find_session, newest, is_expired, active_user, resolve_found,
  resolve_session_user, user_or_error, with_token, get_current_user, admin_or_error, require_admin,
}

-- The method reads only, or the header repeats the cookie, which is not empty.
pub IsCsrfSafe : Request → Type 0
IsCsrfSafe r =
    (is_safe r.method ≡ true)
    ⊎ ((or_empty r.csrf_cookie ≡ or_empty r.csrf_header)
        × (is_empty (or_empty r.csrf_cookie) ≡ false))

-- A session of the table that has the hash, is not revoked and not expired.
pub IsSession : ℕ → Text → Accounts → RefreshToken → Type 0
IsSession now hash a s =
    Memᴰ s a.sessions
    × (s.token_hash ≡ hash)
    × (s.revoked_at ≡ none)
    × (is_expired now s.expires_at ≡ false)

pub IsGranted : (Text → Text) → ℕ → Request → Accounts → User → Type 0
IsGranted hash now r a user =
    IsCsrfSafe r
    × (is_empty (or_empty r.session_cookie) ≡ false)
    × (user.is_active ≡ true)
    × ((s : RefreshToken) × IsSession now (hash (or_empty r.session_cookie)) a s
        × (find_user s.user_id a.users ≡ some user))

passes_csrf-IsCsrfSafe : (r : Request) → passes_csrf r ≡ true → IsCsrfSafe r
unfolding passes_csrf IsCsrfSafe
passes_csrf-IsCsrfSafe r h = elim (Bool-cases (is_safe r.method)) [
  | inl safe ↦ inl safe
  | inr other ↦ inr (
    (same_list.same_iff (or_empty r.csrf_cookie) (or_empty r.csrf_header)).0 (ground arith),
    ground arith,
  )
]

-- What is found is a row with the hash that is not revoked.
IsFound : Text → List RefreshToken → Option RefreshToken → Type 0
IsFound hash sessions none = Unit
IsFound hash sessions (some s) = Memᴰ s sessions × (is_live hash s ≡ true)

module _ (hash : Text) (t : RefreshToken) (sessions : List RefreshToken) where
  IsFound-newest :
      (o : Option RefreshToken)
      → is_live hash t ≡ true
      → IsFound hash sessions o
      → IsFound hash (t ∷ sessions) (some (newest t o))
  unfolding IsFound
  IsFound-newest none live _ = (Memᴰ.head refl, live)
  IsFound-newest (some s) live (at, other) =
      if-cases {A = RefreshToken} (λ x. Memᴰ x (t ∷ sessions) × (is_live hash x ≡ true))
        (leb s.created_at t.created_at) _ _ (λ _. (Memᴰ.head refl, live))
        (λ _. (Memᴰ.tail at, other))

  IsFound-tail : (o : Option RefreshToken) → IsFound hash sessions o → IsFound hash (t ∷ sessions) o
  unfolding IsFound
  IsFound-tail none _ = tt
  IsFound-tail (some s) (at, live) = (Memᴰ.tail at, live)

find_session-IsFound :
    (hash : Text) (sessions : List RefreshToken)
    → IsFound hash sessions (find_session hash sessions)
unfolding find_session IsFound
find_session-IsFound hash [] = tt
find_session-IsFound hash (t ∷ sessions) =
    let rest = find_session-IsFound hash sessions in
    if-cases (IsFound hash (t ∷ sessions)) (is_live hash t) _ _
      (λ e. IsFound-newest hash t sessions (find_session hash sessions) e rest)
      (λ _. IsFound-tail hash t sessions (find_session hash sessions) rest)

is_none_iff : (o : Option ℕ) → is_none o ≡ true → o ≡ none
is_none_iff none _ = refl
is_none_iff (some n) h = absurd (ground arith)

is_live-facts :
    (hash : Text) (s : RefreshToken)
    → is_live hash s ≡ true
    → (s.token_hash ≡ hash) × (s.revoked_at ≡ none)
unfolding is_live
is_live-facts hash s h = (
  (same_list.same_iff s.token_hash hash).0 (ground arith),
  is_none_iff s.revoked_at (ground arith),
)

-- The user of a session.
IsUserOf : ℕ → Text → Accounts → Option User → Type 0
IsUserOf now hash a none = Unit
IsUserOf now hash a (some user) =
    (user.is_active ≡ true)
    × ((s : RefreshToken) × IsSession now hash a s × (find_user s.user_id a.users ≡ some user))

module _ (hash : Text → Text) (now : ℕ) (a : Accounts) where
  active_user-IsUserOf :
      (digest : Text) (s : RefreshToken) (o : Option User)
      → IsSession now digest a s
      → find_user s.user_id a.users ≡ o
      → IsUserOf now digest a (active_user o)
  unfolding active_user IsUserOf
  active_user-IsUserOf digest s none session found = tt
  active_user-IsUserOf digest s (some user) session found =
      if-cases (IsUserOf now digest a) user.is_active _ _ (λ e. (e, (s, session, found))) (λ _. tt)

  resolve_found-IsUserOf :
      (digest : Text) (o : Option RefreshToken)
      → IsFound digest a.sessions o
      → IsUserOf now digest a (resolve_found hash now a o).0
  unfolding resolve_found IsFound IsUserOf IsSession
  resolve_found-IsUserOf digest none _ = tt
  resolve_found-IsUserOf digest (some s) (at, live) =
      let (same, unrevoked) = is_live-facts digest s live in
      if-cases {A = Option User × Accounts} (λ p. IsUserOf now digest a p.0)
        (is_expired now s.expires_at) _ _ (λ _. tt)
        (λ e. active_user-IsUserOf digest s _ (at, same, unrevoked, e) refl)

  abbrev Granted : Request → Reply User × Accounts → Type 0
  Granted r (http_error status detail, b) = Unit
  Granted r (ok user, b) = IsGranted hash now r a user

  user_or_error-Granted :
      (r : Request) (p : Option User × Accounts)
      → IsCsrfSafe r
      → is_empty (or_empty r.session_cookie) ≡ false
      → IsUserOf now (hash (or_empty r.session_cookie)) a p.0
      → Granted r (user_or_error hash now p)
  unfolding user_or_error IsUserOf IsGranted
  user_or_error-Granted r (none, b) safe present user = tt
  user_or_error-Granted r (some u, b) safe present (active, session) =
      (safe, present, active, session)

  get_current_user-Granted : (r : Request) → Granted r (get_current_user hash now r a)
  unfolding get_current_user with_token resolve_session_user
  get_current_user-Granted r =
      if-cases (Granted r) (is_empty (or_empty r.session_cookie)) _ _ (λ _. tt)
        (λ present.
          if-cases (Granted r) (passes_csrf r) _ _
            (λ safe. user_or_error-Granted r _ (passes_csrf-IsCsrfSafe r safe) present (
              resolve_found-IsUserOf (hash (or_empty r.session_cookie)) _
                (find_session-IsFound (hash (or_empty r.session_cookie)) a.sessions)))
            (λ _. tt))

  ok-Granted :
      (r : Request) (p : Reply User × Accounts) (user : User)
      → Granted r p
      → p.0 ≡ ok user
      → IsGranted hash now r a user
  ok-Granted r (http_error status detail, b) user _ h = absurd (ground arith)
  ok-Granted r (ok other, b) user granted h =
      let same : other ≡ user = ground arith in rw (← same) granted

  admin_or_error-ok :
      (p : Reply User × Accounts) (user : User)
      → (admin_or_error hash now p).0 ≡ ok user
      → (p.0 ≡ ok user) × (user.role ≡ codes "admin")
  unfolding admin_or_error
  admin_or_error-ok (http_error status detail, b) user h = absurd (ground arith)
  admin_or_error-ok (ok other, b) user h = elim (Bool-cases (other.role == codes "admin")) [
    | inl e ↦
        let admin : other.role ≡ codes "admin" =
          (same_list.same_iff other.role (codes "admin")).0 e in
        let same : other ≡ user = ground arith in rw (← same) (refl, admin)
    | inr e ↦ absurd (ground arith)
  ]

  -- A user that require_admin lets through is an active administrator; the request carries a session
  -- token whose hash stands in the table with a session of that user, not revoked and not expired, and
  -- it reads only or repeats a CSRF cookie that is not empty in the header.
  pub require_admin-IsGranted :
      (r : Request) (user : User)
      → (require_admin hash now r a).0 ≡ ok user
      → IsGranted hash now r a user × (user.role ≡ codes "admin")
  unfolding require_admin
  require_admin-IsGranted r user h =
      let (found, admin) = admin_or_error-ok (get_current_user hash now r a) user h in
      (ok-Granted r (get_current_user hash now r a) user (get_current_user-Granted r) found, admin)
