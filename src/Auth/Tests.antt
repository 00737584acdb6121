-- ===== src/Auth/Tests.antt =====
-- Runs of the sessions, and the theorems at inputs that meet their hypotheses.
use Prim.Native.Nat.{◌≤◌, ◌<◌}
use mathlib.Core.Path.{◌≡◌, refl}
use mathlib.Core.Logic.{◌⊎◌}
use mathlib.Core.Bool.{true}
use mathlib.Core.Option.{none, some}
use mathlib.Core.List.{[], ◌∷◌}
use drivee_tolmach.Common.{Text, codes, elem, same_list, same_ℕ}
use drivee_tolmach.Settings.{default_settings}
use drivee_tolmach.Auth.{
  User, Accounts, Request, ok, http_error, passes_csrf, find_user, find_session,
  resolve_session_user, revoke_session, create_session_bundle, get_current_user, require_admin,
  is_live,
}
use drivee_tolmach.Auth.Access.{IsGranted, require_admin-IsGranted}
use drivee_tolmach.Auth.Lifetime.{create_session_bundle-lifetime, revoke_session-revoked}

abbrev hash : Text → Text
hash s = s

abbrev admin : User
admin = record { id = 4; role = codes "admin"; is_active = true }

abbrev accounts : Accounts
accounts = record { users = admin ∷ []; sessions = []; next_session_id = 1 }

abbrev token : Text
token = codes "t"

abbrev logged_in : Accounts
logged_in = (create_session_bundle hash 0 default_settings token (codes "c") admin [] accounts).1

abbrev post : Text → Request
post header = record {
  method = codes "post";
  session_cookie = some token;
  csrf_cookie = some (codes "c");
  csrf_header = some header;
}

opened : Unit {0}
unfolding elem find_user find_session is_live passes_csrf resolve_session_user revoke_session
    create_session_bundle get_current_user require_admin
opened = tt

posted : (require_admin hash 9 (post (codes "c")) logged_in).0 ≡ ok admin
unfolding opened
posted = refl

forged :
    (require_admin hash 9 (post (codes "d")) logged_in).0
    ≡ http_error 403 (codes "CSRF validation failed.")
unfolding opened
forged = refl

require_admin-IsGranted_example :
    IsGranted hash 9 (post (codes "c")) logged_in admin × (admin.role ≡ codes "admin")
require_admin-IsGranted_example =
    require_admin-IsGranted hash 9 logged_in (post (codes "c")) admin posted

unknown : find_session (hash token) accounts.sessions ≡ none
unfolding opened
unknown = refl

registered : find_user admin.id accounts.users ≡ some admin
unfolding opened
registered = refl

create_session_bundle-lifetime_example :
    ((7
        < (create_session_bundle hash 0 default_settings token
            (codes "c")
            admin
            []
            accounts).0.expires_at)
      × ((resolve_session_user hash 7 logged_in token).0 ≡ some admin))
    ⊎ (((create_session_bundle hash 0 default_settings token
            (codes "c")
            admin
            []
            accounts).0.expires_at
          ≤ 7)
        × ((resolve_session_user hash 7 logged_in token).0 ≡ none))
create_session_bundle-lifetime_example =
    create_session_bundle-lifetime hash default_settings token (codes "c") admin [] 0 accounts
      unknown 7 refl registered

revoke_session-revoked_example :
    ((revoke_session hash 7 logged_in (some token)).0 ≡ true)
    × ((resolve_session_user hash 9 (revoke_session hash 7 logged_in (some token)).1 token).0
        ≡ none)
revoke_session-revoked_example =
    revoke_session-revoked hash default_settings token (codes "c") admin [] 0 accounts unknown 7 9
      refl
