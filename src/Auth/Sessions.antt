-- ===== src/Auth/Sessions.antt =====
-- The life of a session: what a login opens, how long it authenticates, and how it ends.
use wapsell_saas.Prelude.{
  ℕ, ◌+◌, ◌≤◌, ◌<◌, ◌≡◌, ◌≢◌, refl, true, false, Option, none, some, Text, Unicode, is_empty,
  eq_iff, lookup, insert, lookup-insert_self, lookup-erase, ok, err, arith, Option-cases,
  Bool-cases, inl, inr, ◌⊎◌, ◌↔◌,
}
use wapsell_saas.Models.{User, Session}
use wapsell_saas.Auth.Defs.{
  invalid_credentials, session_not_found, session_expired, Bcrypt, AuthState, verify_password,
  normalize, by_email, login, open_session, logout, authenticate,
}

module _ (u : Unicode) (b : Bcrypt) where
  -- A login either fails with one and the same error and changes nothing, or finds a user under the
  -- email whose hash the password verifies against, and opens one session for that user, which
  -- expires `duration` after the call.
  pub login_sound :
      (token : Text) (now duration : ℕ) (email password : Text) (s : AuthState)
      → (login u b token now duration email password s ≡ (err invalid_credentials, s))
        ⊎ ((user : User) × (by_email u (normalize u email) s.users ≡ some user)
            × (verify_password b password user.password_hash ≡ true)
            × (login u b token now duration email password s ≡ (
              ok (
                user,
                record {
                  token = token;
                  user_id = user.id;
                  expires_at = now + duration;
                  created_at = now;
                },
              ),
              record s {
                sessions =
                    insert token
                      (record {
                        token = token;
                        user_id = user.id;
                        expires_at = now + duration;
                        created_at = now;
                      })
                      s.sessions;
              },
            )))
  unfolding login open_session
  login_sound token now duration email password s =
      elim (Option-cases (by_email u (normalize u email) s.users)) [
        | inl e ↦ inl (rw (e, login))
        | inr (user, e) ↦ elim (Bool-cases (verify_password b password user.password_hash)) [
          | inl v ↦ inr (user, e, v, rw (e, login, v))
          | inr v ↦ inl (rw (e, login, v))
        ]
      ]

-- A session that a login opened at `now` authenticates its user exactly at the times before its
-- expiry. From then on it is refused and dropped, so that the token is unknown afterwards.
pub authenticate-open_session :
    (token : Text) (now duration later : ℕ) (user : User) (s : AuthState)
    → is_empty token ≡ false
    → lookup user.id s.users ≡ some user
    → let s' = (open_session token now duration user s).1 in
      (later < now + duration → authenticate (some token) later s' ≡ (ok user, s'))
      × (now + duration ≤ later
          → ((authenticate (some token) later s').0 ≡ err session_expired)
            × ((t : ℕ)
                → (authenticate (some token) t (authenticate (some token) later s').1).0
                  ≡ err session_not_found))
unfolding authenticate open_session
authenticate-open_session token now duration later user s filled known = (
  λ h. ground (arith, lookup-insert_self token (sess now) s.sessions),
  λ h. (
    ground (arith, lookup-insert_self token (sess now) s.sessions),
    λ t. ground (
      arith,
      lookup-insert_self token (sess now) s.sessions,
      lookup-erase token token (insert token (sess now) s.sessions),
      eq_iff token token,
    ),
  ),
)
  where
    sess : ℕ → Session
    sess n = record {
      token = token;
      user_id = user.id;
      expires_at = now + duration;
      created_at = now;
    }

-- A logout says whether there was a session, and ends it; every other session stays.
pub authenticate-logout :
    (token : Text) (now : ℕ) (s : AuthState)
    → is_empty token ≡ false
    → let (was, s') = logout token s in
      (was ≡ true ↔ lookup token s.sessions ≢ none)
      × (authenticate (some token) now s' ≡ (err session_not_found, s'))
      × ((j : Text) → j ≢ token → lookup j s'.sessions ≡ lookup j s.sessions)
unfolding authenticate logout
authenticate-logout token now s filled = (
  (λ h e. ground arith, λ h. ground arith),
  ground (arith, lookup-erase token token s.sessions, eq_iff token token),
  λ j ne. ground (arith, lookup-erase token j s.sessions, eq_iff token j),
)

-- Whoever is authenticated holds a session that has not expired, for a user who is stored.
pub authenticate_sound :
    (token : Option Text) (now : ℕ) (s : AuthState) (user : User)
    → (authenticate token now s).0 ≡ ok user
    → (t : Text) × (session : Session) × (token ≡ some t)
      × (lookup t s.sessions ≡ some session)
      × (now < session.expires_at)
      × (lookup session.user_id s.users ≡ some user)
      × ((authenticate token now s).1 ≡ s)
unfolding authenticate
authenticate_sound none now s user e = cc
authenticate_sound (some t) now s user e = elim (Option-cases (lookup t s.sessions)) [
  | inl l ↦ absurd (ground arith)
  | inr (session, l) ↦ (t, session, refl, l, ground arith, ground arith, ground arith)
]
