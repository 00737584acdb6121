-- ===== src/Auth/Lifetime.antt =====
-- The life of a session, backend/app/auth.py: created, used, ended by its time or revoked.
use Prim.Native.Nat.{ℕ, ◌≤◌, ◌<◌}
use mathlib.Core.Path.{◌≡◌, refl}
use mathlib.Core.Logic.{◌⊎◌, inl, inr}
use mathlib.Core.Bool.{true, false}
use mathlib.Core.Option.{none, some}
use mathlib.Core.List.{List, [], ◌∷◌, ◌++◌, map}
use native.Mathlib.Omega.{arith}
use drivee_tolmach.Common.{
  Text, take, leb, leb→le, nat_eq, nat_eq_iff, Bool-cases, if-cases, is_empty, ◌==◌, same_list,
  same_ℕ,
}
use drivee_tolmach.Settings.{Settings}
use drivee_tolmach.Auth.{
  User, RefreshToken, Accounts, find_user, is_live, find_session, revoked, revoke, active_user,
  resolve_found, resolve_session_user, revoke_found, revoke_token, revoke_session,
  create_session_bundle,
}

-- A new row with a hash that no live session has.
find_session-append :
    (hash : Text) (sessions : List RefreshToken) (s : RefreshToken)
    → find_session hash sessions ≡ none
    → is_live hash s ≡ true
    → find_session hash (sessions ++ s ∷ []) ≡ some s
unfolding find_session
find_session-append hash [] s _ live = rw live refl
find_session-append hash (t ∷ sessions) s h live = elim (Bool-cases (is_live hash t)) [
  | inl e ↦ absurd (ground arith)
  | inr e ↦ rw e (find_session-append hash sessions s (ground arith) live)
]

-- Revoking a row ends the sessions of a hash, if that row is the only live one.
module _ (hash : Text) (id now : ℕ) where
  revoked-dead :
      (s : RefreshToken) → is_live hash s ≡ false → is_live hash (revoked id now s) ≡ false
  unfolding is_live revoked
  revoked-dead s h =
      if-cases {A = RefreshToken} (λ x. is_live hash x ≡ false) (nat_eq s.id id) _ _
        (λ _. ground arith) (λ _. h)

  revoked-own : (s : RefreshToken) → s.id ≡ id → is_live hash (revoked id now s) ≡ false
  unfolding is_live revoked
  revoked-own s same =
      let here : nat_eq s.id id ≡ true = (nat_eq_iff s.id id).1 same in rw here (ground arith)

  find_session-revoked :
      (sessions : List RefreshToken)
      → find_session hash sessions ≡ none
      → find_session hash (map (revoked id now) sessions) ≡ none
  unfolding find_session
  find_session-revoked [] _ = refl
  find_session-revoked (t ∷ sessions) h = elim (Bool-cases (is_live hash t)) [
    | inl e ↦ absurd (ground arith)
    | inr e ↦ rw (revoked-dead t e) (find_session-revoked sessions (ground arith))
  ]

  find_session-ended :
      (sessions : List RefreshToken) (s : RefreshToken)
      → find_session hash sessions ≡ none
      → s.id ≡ id
      → find_session hash (map (revoked id now) (sessions ++ s ∷ [])) ≡ none
  unfolding find_session
  find_session-ended [] s _ same = rw (revoked-own s same) refl
  find_session-ended (t ∷ sessions) s h same = elim (Bool-cases (is_live hash t)) [
    | inl e ↦ absurd (ground arith)
    | inr e ↦ rw (revoked-dead t e) (find_session-ended sessions s (ground arith) same)
  ]

module _ (hash : Text → Text) (settings : Settings) (token csrf : Text) (user : User)
    (device : Text) (now : ℕ) (a : Accounts) where
  abbrev created : Accounts
  created = (create_session_bundle hash now settings token csrf user device a).1

  abbrev expires_at : ℕ
  expires_at = (create_session_bundle hash now settings token csrf user device a).0.expires_at

  abbrev session : RefreshToken
  session = record {
    id = a.next_session_id;
    user_id = user.id;
    token_hash = hash token;
    device_hint = take 255 device;
    created_at = now;
    expires_at = some expires_at;
    revoked_at = none;
  }

  session-live : is_live (hash token) session ≡ true
  unfolding is_live
  session-live =
      let same : (hash token == hash token) ≡ true =
        (same_list.same_iff (hash token) (hash token)).1 refl in
      rw same refl

  module _ (fresh : find_session (hash token) a.sessions ≡ none) (t : ℕ) where
    created-found : find_session (hash token) created.sessions ≡ some session
    unfolding create_session_bundle
    created-found = find_session-append (hash token) a.sessions session fresh session-live

    -- If no live session has the hash of a new token yet and its user is known and active, the new
    -- session gives this user before it expires, and nobody from then on.
    pub create_session_bundle-lifetime :
        user.is_active ≡ true
        → find_user user.id a.users ≡ some user
        → ((t < expires_at) × ((resolve_session_user hash t created token).0 ≡ some user))
          ⊎ ((expires_at ≤ t) × ((resolve_session_user hash t created token).0 ≡ none))
    unfolding resolve_session_user resolve_found active_user create_session_bundle
    create_session_bundle-lifetime active known = elim (Bool-cases (leb expires_at t)) [
      | inl e ↦ inr (leb→le _ _ e, rw (created-found, e) refl)
      | inr e ↦ inl (ground arith, rw (created-found, e, known, active) refl)
    ]

    -- If no live session has the hash of a new token yet and the token is not empty, to revoke the new
    -- session succeeds, and behind that nobody is given for its token at any time.
    pub revoke_session-revoked :
        (later : ℕ)
        → is_empty token ≡ false
        → ((revoke_session hash t created (some token)).0 ≡ true)
          × ((resolve_session_user hash later
                (revoke_session hash t created (some token)).1
                token).0
              ≡ none)
    unfolding revoke_session revoke_token revoke_found revoke resolve_session_user resolve_found
        create_session_bundle
    revoke_session-revoked later present =
        let ended =
          find_session-ended (hash token) a.next_session_id t a.sessions session fresh refl in
        rw (present, created-found) (refl, rw ended refl)
