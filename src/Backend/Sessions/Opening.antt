-- ===== src/Backend/Sessions/Opening.antt =====
-- The access token of a login.
use wi_fi_test_orchestrator.Prelude.{
  ℕ, ◌+◌, ◌*◌, ◌≡◌, refl, true, not, ◌&&◌, ◌||◌, Option, none, some, arith, ◌==◌, ==_refl, ltb, leb,
  Bool-cases, Option-cases, inl, inr,
}
use wi_fi_test_orchestrator.Prelude.Table.{find, find-append, find-update}
use wi_fi_test_orchestrator.Prelude.Unique.{Unique, find-key}
use wi_fi_test_orchestrator.Backend.Access.{User, Db, user_id_is}
use wi_fi_test_orchestrator.Backend.Access.Counting.{user_key}
use wi_fi_test_orchestrator.Backend.Sessions.Secrets.{
  AccessClaims, Password, verify_password, decode_access, decode_access-issue_access,
}
use wi_fi_test_orchestrator.Backend.Sessions.{
  AuthService, Drawn, Issued, ok, days, login, login_found, open_session, session_taken,
  token_taken, session_id_is, logged_in, authenticate_access, authenticate_found,
}

abbrev claims_of_login : Drawn → User → AccessClaims
claims_of_login drawn user = record {
  user_id = user.id;
  session_id = drawn.session_id;
  auth_version = user.auth_version;
  jti = drawn.jti;
}

-- A login that is accepted opens a session.
login_found-opens :
    (service : AuthService) (drawn : Drawn) (now : ℕ) (password : Password) (o : Option User)
    (db : Db) (issued : Issued)
    → (login_found service drawn now password o db).0 ≡ ok issued
    → (user : User) × (replacement : Option ℕ) × (o ≡ some user)
      × (user.is_active ≡ true)
      × (find (session_id_is drawn.session_id) db.sessions ≡ none)
      × (login_found service drawn now password o db ≡ (
        ok (open_session service drawn now replacement user db).0,
        (open_session service drawn now replacement user db).1,
      ))
unfolding login_found
login_found-opens service drawn now password none db issued h = absurd (ground (arith, h))
login_found-opens service drawn now password (some user) db issued h =
    elim (Bool-cases (
      not (verify_password service.passwords drawn.salt password user.password_hash).0
      || not user.is_active)) [
        | inl a ↦ absurd (ground (arith, h, a))
        | inr a ↦
            elim (Bool-cases (
              session_taken drawn.session_id db
              || token_taken drawn.token_id (service.tokens.sha256 drawn.refresh_plaintext) db)) [
                | inl b ↦ absurd (ground (arith, h, a, b))
                | inr b ↦ (
                  user,
                  (verify_password service.passwords drawn.salt password user.password_hash).1,
                  refl,
                  ground (arith, a),
                  elim (Option-cases (find (session_id_is drawn.session_id) db.sessions)) [
                    | inl e ↦ e
                    | inr (x, e) ↦ absurd (ground (arith, b, e))
                  ],
                  rw (a, b) refl,
                )
              ]
      ]

authenticate-open_session :
    (service : AuthService) (drawn : Drawn) (now later : ℕ) (replacement : Option ℕ) (user : User)
    (db : Db)
    → find (user_id_is user.id) db.users ≡ some user
    → user.is_active ≡ true
    → find (session_id_is drawn.session_id) db.sessions ≡ none
    → ltb later (now + days service.absolute_days) ≡ true
    → ltb later (now + days service.inactivity_days) ≡ true
    → authenticate_access later
        (claims_of_login drawn user)
        (open_session service drawn now replacement user db).1
      ≡ ok (logged_in now replacement user)
unfolding authenticate_access authenticate_found open_session find
authenticate-open_session service drawn now later replacement user db u a s h h' =
    rw
      (
        find-update (user_id_is user.id) (user_id_is user.id) (logged_in now replacement) db.users
            (λ x. refl),
        u,
        find-append (session_id_is drawn.session_id) db.sessions,
        s,
        ==_refl user.id,
        ==_refl drawn.session_id,
      )
      (ground (arith, a, h, h'))

-- The access token of a login that was accepted is decoded, from the login on and before the token's
-- lifetime is over, to the claims of the user, the new session and the user's version. They are
-- accepted, and give the user of the login, as long as the session has not expired in either of its
-- two ways. The identifiers of users differ, as their primary key has it.
pub login-authenticate_access :
    (service : AuthService) (drawn : Drawn) (now later normalized : ℕ) (password : Password)
    (db : Db) (issued : Issued)
    → Unique user_key db.users
    → (login service drawn now normalized password db).0 ≡ ok issued
    → (leb now later && ltb later (now + service.tokens.ttl_minutes * 60)) ≡ true
    → ltb later (now + days service.absolute_days) ≡ true
    → ltb later (now + days service.inactivity_days) ≡ true
    → let claims = claims_of_login drawn issued.user in
      (decode_access service.tokens later issued.access ≡ some claims)
      × (authenticate_access later claims (login service drawn now normalized password db).1
          ≡ ok issued.user)
unfolding login open_session
login-authenticate_access service drawn now later normalized password db issued w h t b c =
    let (user, replacement, f, a, s, e) =
      login_found-opens service drawn now password _ db issued h in
    rw (opened user replacement e, e)
      (
        decode_access-issue_access service.tokens now later drawn.jti user.id drawn.session_id
            user.auth_version t,
        authenticate-open_session service drawn now later replacement user db
            (find-key user_key (λ u. u.username == normalized) db.users user w f) a s b c,
      )
  where
    opened :
        (user : User) (replacement : Option ℕ)
        → login_found service drawn now password (find (λ u. u.username == normalized) db.users) db
          ≡ (
            ok (open_session service drawn now replacement user db).0,
            (open_session service drawn now replacement user db).1,
          )
        → issued ≡ (open_session service drawn now replacement user db).0
    opened user replacement e = ground (arith, h, e)
