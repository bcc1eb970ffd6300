-- ===== src/Access/Defs.antt =====
-- The access checks of services/api/main.py. `Context` is what they read: the flag
-- WAPSELL_AUTH_REQUIRED, the cookie's token, and the clock.
use wapsell_saas.Prelude.{
  ℕ, Bool, true, false, not, Option, none, some, List, Text, is_text, is_empty, filter, Result, ok,
  err, if◌then◌else◌,
}
use wapsell_saas.Models.{admin, User, Tenant}
use wapsell_saas.Auth.{AuthState, authenticate}

pub record Context : Type 0 where
  pub auth_required : Bool
  pub token : Option Text
  pub now : ℕ

-- The status code of the `HTTPException` that a check raises.
pub data HttpError : Type 0 where
  unauthorized forbidden : HttpError

abbrev pub is_admin : User → Bool
is_admin u = elim u.role [ admin ↦ true | _ ↦ false ]

unfoldable pub optional_current_user : Context → AuthState → Option User × AuthState
unfolding authenticate
optional_current_user c s =
    let (r, s') = authenticate c.token c.now s in
    elim c.token [
      | none ↦ (none, s)
      | some t ↦ if is_empty t then (none, s) else (elim r [ err _ ↦ none | ok u ↦ some u ], s')
    ]

unfoldable pub assert_authenticated :
    Context → AuthState → Result HttpError (Option User) × AuthState
assert_authenticated c s =
    let (user, s') = optional_current_user c s in
    if not c.auth_required
    then (ok user, s')
    else (elim user [ none ↦ err unauthorized | some u ↦ ok (some u) ], s')

-- The tests of `_assert_admin` and `_assert_tenant_access` on the user of the session.
unfoldable pub require_admin : Result HttpError (Option User) → Result HttpError (Option User)
require_admin (err e) = err e
require_admin (ok none) = err forbidden
require_admin (ok (some u)) = if is_admin u then ok (some u) else err forbidden

unfoldable pub require_access :
    Text → Result HttpError (Option User) → Result HttpError (Option User)
require_access tenant_id (err e) = err e
require_access tenant_id (ok none) = err unauthorized
require_access tenant_id (ok (some u)) =
    if is_admin u
    then ok (some u)
    else if not (is_text u.tenant_id tenant_id)
    then err forbidden
    else ok (some u)

unfoldable pub assert_admin : Context → AuthState → Result HttpError (Option User) × AuthState
unfolding assert_authenticated require_admin
assert_admin c s =
    if not c.auth_required
    then (let (user, s') = optional_current_user c s in (ok user, s'))
    else (let (r, s') = assert_authenticated c s in (require_admin r, s'))

unfoldable pub assert_tenant_access :
    Text → Context → AuthState → Result HttpError (Option User) × AuthState
unfolding assert_authenticated require_access
assert_tenant_access tenant_id c s =
    if not c.auth_required
    then (let (user, s') = optional_current_user c s in (ok user, s'))
    else (let (r, s') = assert_authenticated c s in (require_access tenant_id r, s'))

unfoldable pub filter_visible_tenants :
    List Tenant → Context → AuthState → Result HttpError (List Tenant) × AuthState
filter_visible_tenants tenants c s =
    if not c.auth_required
    then (ok tenants, s)
    else (let (user, s') = optional_current_user c s in
        (
          elim user [
            | none ↦ err unauthorized
            | some u ↦
                ok (if is_admin u then tenants else filter (λ t. is_text u.tenant_id t.id) tenants)
          ],
          s',
        ))
