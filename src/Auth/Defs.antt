-- ===== src/Auth/Defs.antt =====
-- The functions of sdk/wapsell/auth/service.py and of the in-memory adapters of
-- sdk/wapsell/auth/repository.py. `Bcrypt` stands for the bcrypt package.
use wapsell_saas.Prelude.{
  ℕ, ◌+◌, Bool, true, false, not, ◌||◌, Option, none, some, [], ◌∷◌, Text, Unicode, codes, ◌==◌,
  contains, strip_by, is_empty, Dict, lookup, insert, erase, values, find, length, Result, ok, err,
  nat_eq, ltb, leb, if◌then◌else◌,
}
use wapsell_saas.Models.{UserRole, User, Session}

pub data AuthError : Type 0 where
  email_invalid email_too_long password_too_short password_too_long email_exists : AuthError
  invalid_credentials not_authenticated session_not_found session_expired user_gone : AuthError

-- `hashpw` with its salt as an argument; `checkpw` gives `none` where it raises on a malformed hash.
pub record Bcrypt : Type 0 where
  pub hashpw : ℕ → Text → Text
  pub checkpw : Text → Text → Option Bool
  pub dummy_hash : Text

pub record AuthState : Type 0 where
  pub users : Dict User
  pub sessions : Dict Session

abbrev pub max_email_length : ℕ
max_email_length = 254

abbrev pub min_password_length : ℕ
min_password_length = 8

abbrev pub max_password_length : ℕ
max_password_length = 128

-- Seven days, in microseconds.
abbrev pub default_session_duration : ℕ
default_session_duration = 604800000000

-- `e.split("@")[-1]`
unfoldable pub after_last_at : Text → Text
unfolding contains
after_last_at [] = []
after_last_at (c ∷ s) =
    if contains s (codes "@") then after_last_at s else if nat_eq c b'@' then s else c ∷ s

unfoldable pub verify_password : Bcrypt → Text → Text → Bool
verify_password b password stored = elim (b.checkpw password stored) [ none ↦ false | some r ↦ r ]

unfoldable pub validate_password : Text → Result AuthError (Unit {0})
validate_password password =
    if ltb (length password) min_password_length
    then err password_too_short
    else if ltb max_password_length (length password)
    then err password_too_long
    else ok tt

module _ (u : Unicode) where
  -- `email.strip().lower()`
  unfoldable pub normalize : Text → Text
  unfolding strip_by
  normalize email = u.lower (strip_by u.is_space email)

  unfoldable pub validate_email : Text → Result AuthError (Unit {0})
  unfolding strip_by contains after_last_at
  validate_email email =
      let e = strip_by u.is_space email in
      if not (contains e (codes "@")) || not (contains (after_last_at e) (codes "."))
      then err email_invalid
      else if ltb max_email_length (length e)
      then err email_too_long
      else ok tt

  abbrev pub has_email : Text → User → Bool
  has_email email user = u.lower user.email == u.lower email

  unfoldable pub by_email : Text → Dict User → Option User
  by_email email d = find (has_email email) (values d)

  -- `InMemoryUserRepository.add`
  unfoldable pub add_user : User → Dict User → Result AuthError User × Dict User
  add_user user d = elim (find (has_email user.email) (values d)) [
    | some _ ↦ (err email_exists, d)
    | none ↦ (ok user, insert user.id user d)
  ]

  unfoldable pub store_user : User → AuthState → Result AuthError User × AuthState
  unfolding add_user
  store_user user s = let (r, users') = add_user user s.users in (r, record s { users = users' })

unfoldable pub open_session :
    Text → ℕ → ℕ → User → AuthState → Result AuthError (User × Session) × AuthState
open_session token now duration user s =
    let session : Session = record {
      token = token;
      user_id = user.id;
      expires_at = now + duration;
      created_at = now;
    } in
    (ok (user, session), record s { sessions = insert token session s.sessions })

module _ (u : Unicode) (b : Bcrypt) where
  -- `id`, `now` and `salt` are what the defaults and `gensalt` draw.
  unfoldable pub register :
      Text
      → ℕ
      → ℕ
      → Text
      → Text
      → UserRole
      → Option Text
      → AuthState
      → Result AuthError User × AuthState
  unfolding validate_email validate_password store_user normalize
  register id now salt email password role tenant_id s = elim (validate_email u email) [
    | err e ↦ (err e, s)
    | ok _ ↦ elim (validate_password password) [
      | err e ↦ (err e, s)
      | ok _ ↦
          store_user u
            (record {
              id = id;
              email = normalize u email;
              password_hash = b.hashpw salt password;
              role = role;
              tenant_id = tenant_id;
              created_at = now;
            })
            s
    ]
  ]

  unfoldable pub login :
      Text → ℕ → ℕ → Text → Text → AuthState → Result AuthError (User × Session) × AuthState
  unfolding by_email verify_password open_session normalize
  login token now duration email password s = elim (by_email u (normalize u email) s.users) [
    | none ↦ (err invalid_credentials, s)
    | some user ↦
        if not (verify_password b password user.password_hash)
        then (err invalid_credentials, s)
        else open_session token now duration user s
  ]

-- `AuthService.logout`, over `InMemorySessionRepository.delete`
unfoldable pub logout : Text → AuthState → Bool × AuthState
logout token s = (
  elim (lookup token s.sessions) [ none ↦ false | some _ ↦ true ],
  record s { sessions = erase token s.sessions },
)

unfoldable pub check_session : Text → ℕ → Session → AuthState → Result AuthError User × AuthState
check_session token now session s =
    let dropped : AuthState = record s { sessions = erase token s.sessions } in
    if leb session.expires_at now
    then (err session_expired, dropped)
    else elim (lookup session.user_id s.users) [
      | none ↦ (err user_gone, dropped)
      | some user ↦ (ok user, s)
    ]

unfoldable pub authenticate : Option Text → ℕ → AuthState → Result AuthError User × AuthState
unfolding check_session
authenticate none now s = (err not_authenticated, s)
authenticate (some token) now s =
    if is_empty token then (err not_authenticated, s) else elim (lookup token s.sessions) [
      | none ↦ (err session_not_found, s)
      | some session ↦ check_session token now session s
    ]
