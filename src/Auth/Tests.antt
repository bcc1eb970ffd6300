-- ===== src/Auth/Tests.antt =====
-- A user who registers, logs in, and is logged out; `bcrypt` keeps the password as its own hash.
use wapsell_saas.Prelude.{
  ℕ, ◌≡◌, ◌⊎◌, refl, ap, eq_refl, nil-AtMostOne, true, false, none, some, [], ◌∷◌, Text, Unicode,
  codes, ◌==◌, lookup, arith, ok, err, insert,
}
use wapsell_saas.Models.{User, admin}
use wapsell_saas.Auth.Defs.{
  Bcrypt, AuthState, register, login, open_session, authenticate, normalize, by_email,
  verify_password, invalid_credentials,
}
use wapsell_saas.Auth.Emails.{IsUserStore, register-IsUserStore, login-register}
use wapsell_saas.Auth.Sessions.{login_sound, authenticate-open_session}

abbrev ascii : Unicode
ascii = record { lower = λ s. s; is_space = λ c. false }

abbrev plain : Bcrypt
plain = record {
  hashpw = λ salt password. password;
  checkpw = λ password hashed. some (password == hashed);
  dummy_hash = codes "dummy";
}

abbrev empty : AuthState
empty = record { users = []; sessions = [] }

abbrev email : Text
email = codes "a@b.c"

abbrev password : Text
password = codes "longenough"

abbrev ana : User
ana = record {
  id = codes "u1";
  email = email;
  password_hash = password;
  role = admin;
  tenant_id = none;
  created_at = 1;
}

abbrev state : AuthState
state = record { users = (codes "u1", ana) ∷ []; sessions = [] }

abbrev salt : ℕ
salt = 7

empty-IsUserStore : IsUserStore ascii []
empty-IsUserStore = record { keyed = tt; emails = λ e. nil-AtMostOne _ }

register-IsUserStore_example :
    IsUserStore ascii
      (register ascii plain (codes "u1") 1 salt email password admin none empty).1.users
register-IsUserStore_example =
    register-IsUserStore ascii plain (codes "u1") 1 salt email password admin none empty
      empty-IsUserStore

registered : (register ascii plain (codes "u1") 1 salt email password admin none empty).0 ≡ ok ana
unfolding register
registered = refl

login-register_example :
    login ascii plain
      (codes "tok")
      5
      10
      email
      password
      (register ascii plain (codes "u1") 1 salt email password admin none empty).1
    ≡ open_session
        (codes "tok")
        5
        10
        ana
        (register ascii plain (codes "u1") 1 salt email password admin none empty).1
login-register_example =
    login-register ascii plain (codes "u1") 1 salt email password admin none empty (codes "tok") 5
      10 email ana empty-IsUserStore registered refl (ap some (eq_refl password))

login_sound_example :
    (login ascii plain (codes "tok") 5 10 email password state ≡ (err invalid_credentials, state))
    ⊎ ((user : User) × (by_email ascii (normalize ascii email) state.users ≡ some user)
        × (verify_password plain password user.password_hash ≡ true)
        × (login ascii plain (codes "tok") 5 10 email password state ≡ (
          ok (
            user,
            record { token = codes "tok"; user_id = user.id; expires_at = 15; created_at = 5 },
          ),
          record state {
            sessions =
                insert
                  (codes "tok")
                  (record {
                    token = codes "tok";
                    user_id = user.id;
                    expires_at = 15;
                    created_at = 5;
                  })
                  state.sessions;
          },
        )))
login_sound_example = login_sound ascii plain (codes "tok") 5 10 email password state

stored : lookup (codes "u1") state.users ≡ some ana
unfolding lookup ◌==◌
stored = refl

authenticate-open_session_example :
    authenticate (some (codes "tok")) 9 (open_session (codes "tok") 5 10 ana state).1
    ≡ (ok ana, (open_session (codes "tok") 5 10 ana state).1)
authenticate-open_session_example =
    (authenticate-open_session (codes "tok") 5 10 9 ana state refl stored).0 (omega arith)

abbrev inside : AuthState
inside = record state {
  sessions =
      (
        codes "tok",
        record { token = codes "tok"; user_id = codes "u1"; expires_at = 15; created_at = 5 },
      )
      ∷ [];
}

authenticated : (authenticate (some (codes "tok")) 9 inside).0 ≡ ok ana
unfolding authenticate lookup ◌==◌
authenticated = refl
