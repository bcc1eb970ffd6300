-- ===== src/Auth/Emails.antt =====
-- Emails are unique up to case, and a user who registers can log in.
use wapsell_saas.Prelude.{
  ℕ, ◌≡◌, refl, ap, ◌∙◌, sym, true, Option, some, Text, Unicode, eq_iff, Dict, lookup, insert,
  values, find, lookup-insert_self, IsKeyed, insert-IsKeyed, AtMostOne, AtMostOne-insert, find-none,
  find_unique, ok, arith, Option-cases, inl, inr, eq_refl,
}
use wapsell_saas.Models.{UserRole, User}
use wapsell_saas.Auth.Defs.{
  Bcrypt, AuthState, verify_password, normalize, has_email, by_email, add_user, store_user,
  register, login, open_session,
}

module _ (u : Unicode) where
  -- Users stand under their ids, and no two have one email up to case.
  pub record IsUserStore (d : Dict User) : Type 0 where
    pub keyed : IsKeyed User.id d
    pub emails : (e : Text) → AtMostOne (has_email u e) d

  add_user-IsUserStore :
      (user : User) (d : Dict User) → IsUserStore d → IsUserStore (add_user u user d).1
  unfolding add_user
  add_user-IsUserStore user d h = elim (Option-cases (find (has_email u user.email) (values d))) [
    | inl e ↦
        rw (e, add_user)
          (record {
            keyed = insert-IsKeyed User.id user.id user d refl h.keyed;
            emails = λ x.
                AtMostOne-insert (has_email u x) user.id user d (h.emails x) λ j w l pw pu. cc (
                  find-none (has_email u user.email) j d {v = w} e l,
                  (eq_iff (u.lower w.email) (u.lower user.email)).1 (
                      (eq_iff (u.lower w.email) (u.lower x)).0 pw
                      ∙ sym ((eq_iff (u.lower user.email) (u.lower x)).0 pu)),
                );
          })
    | inr (w, e) ↦ rw (e, add_user) h
  ]

module _ (u : Unicode) (b : Bcrypt) where
  -- A registration, accepted or refused, keeps the emails unique up to case.
  pub register-IsUserStore :
      (id : Text) (now salt : ℕ) (email password : Text) (role : UserRole) (tenant_id : Option Text)
      (s : AuthState)
      → IsUserStore u s.users
      → IsUserStore u (register u b id now salt email password role tenant_id s).1.users
  unfolding register store_user
  register-IsUserStore id now salt email password role tenant_id s h = ground (
    arith,
    add_user-IsUserStore u
        (record {
          id = id;
          email = normalize u email;
          password_hash = b.hashpw salt password;
          role = role;
          tenant_id = tenant_id;
          created_at = now;
        })
        s.users h,
  )

  -- What a registration that returns has stored.
  register_ok :
      (id : Text) (now salt : ℕ) (email password : Text) (role : UserRole) (tenant_id : Option Text)
      (s : AuthState) {user : User}
      → (register u b id now salt email password role tenant_id s).0 ≡ ok user
      → (user.email ≡ normalize u email)
        × (user.password_hash ≡ b.hashpw salt password)
        × (user.id ≡ id)
        × ((register u b id now salt email password role tenant_id s).1
            ≡ record s { users = insert id user s.users })
  unfolding register store_user add_user
  register_ok id now salt email password role tenant_id s e = ground arith

  login_found :
      (token : Text) (now duration : ℕ) (email password : Text) (s : AuthState) (user : User)
      → by_email u (normalize u email) s.users ≡ some user
      → verify_password b password user.password_hash ≡ true
      → login u b token now duration email password s ≡ open_session token now duration user s
  unfolding login
  login_found token now duration email password s user e v = rw (e, login, v)

  -- After a registration that returned, a login under an email that normalizes alike, with the same
  -- password, opens a session for the user, if bcrypt verifies a password against its own hash.
  pub login-register :
      (id : Text) (now salt : ℕ) (email password : Text) (role : UserRole) (tenant_id : Option Text)
      (s : AuthState) (token : Text) (later duration : ℕ) (email' : Text) (user : User)
      → IsUserStore u s.users
      → (register u b id now salt email password role tenant_id s).0 ≡ ok user
      → normalize u email' ≡ normalize u email
      → b.checkpw password (b.hashpw salt password) ≡ some true
      → login u b token later duration email' password
          (register u b id now salt email password role tenant_id s).1
        ≡ open_session token later duration user
            (register u b id now salt email password role tenant_id s).1
  login-register id now salt email password role tenant_id s token later duration email' user h r
        same verifies =
      let s' : AuthState = (register u b id now salt email password role tenant_id s).1 in
      let (em, pw, i, st) =
        register_ok id now salt email password role tenant_id s {user = user} r in
      let h' : IsUserStore u s'.users =
        register-IsUserStore id now salt email password role tenant_id s h in
      let stored : lookup id s'.users ≡ some user = rw st (lookup-insert_self id user s.users) in
      let passes : has_email u (normalize u email') user ≡ true =
        rw (em, same) (eq_refl (u.lower (normalize u email))) in
      let found : by_email u (normalize u email') s'.users ≡ some user =
        unfold by_email in
        find_unique User.id (has_email u (normalize u email')) id s'.users {v = user} h'.keyed
          (h'.emails (normalize u email')) stored passes in
      login_found token later duration email' password s' user found
        (unfold verify_password in ground (arith, ap (b.checkpw password) pw))
