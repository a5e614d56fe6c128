-- ===== src/Backend/Sessions/Chains.antt =====
-- Every call of the two services keeps the chains of refresh tokens.
use wi_fi_test_orchestrator.Prelude.{
  ℕ, false, ◌+◌, ◌≡◌, refl, sym, subst, not, ◌||◌, Option, none, some, List, [], ◌∷◌, arith, ◌==◌,
  ==_refl, ==_iff, leb, is_some, Bool-cases, Option-cases, inl, inr,
}
use wi_fi_test_orchestrator.Prelude.Table.{find, update, find-update, find-eq-some}
use wi_fi_test_orchestrator.Prelude.Unique.{find-key}
use wi_fi_test_orchestrator.Backend.Access.{
  User, AuthSession, RefreshToken, Db, refresh_reuse, session_invalid, Reason, logged_out,
}
use wi_fi_test_orchestrator.Backend.Sessions.Secrets.{Password, verify_password}
use wi_fi_test_orchestrator.Backend.Sessions.{
  AuthService, Drawn, login, login_found, session_taken, token_taken, refresh, refresh_found,
  refresh_session, refresh_family, revoke_family, rotate, invalid_family, logout, logout_found,
  consume, token_id_is, digest_is, session_id_is, min, days, use_session,
}
use wi_fi_test_orchestrator.Backend.Sessions.Calls.{
  Call, log_in, refresh_with, log_out, log_out_all, change_one, administer, call, calls,
}
use wi_fi_test_orchestrator.Backend.Sessions.Evolution.{sessions_append}
use wi_fi_test_orchestrator.Backend.Sessions.Evolving.{
  call-Evolves, revoke_family-Evolves, rotate-Evolves,
}
use wi_fi_test_orchestrator.Backend.Sessions.Tokens.{
  Chain, Chained-sessions, Chained-revoke, Chained-consume, Chained-append, fresh_token,
  open_session-Chain, count-consumed, token_id,
}
use wi_fi_test_orchestrator.Backend.Sessions.Untouched.{
  same_tokens, administer-tokens, logout_all-tokens, change_password-tokens,
}

revoke_family-Chain :
    (now : ℕ) (reason : Reason) (family : AuthSession) (db : Db)
    → Chain db
    → Chain (revoke_family now reason family db)
unfolding revoke_family
revoke_family-Chain now reason family db c =
    Chained-sessions db.sessions _ _ (revoke_family-Evolves now reason family db).sessions
      (Chained-revoke now reason _ db.sessions db.refresh_tokens c)

logout-Chain :
    (now user_id : ℕ) (o : Option AuthSession) (db : Db)
    → Chain db
    → Chain (logout_found now user_id o db)
unfolding logout_found
logout-Chain now user_id none db c = c
logout-Chain now user_id (some session) db c = elim (Bool-cases (session.user_id == user_id)) [
  | inl e ↦ rw e (revoke_family-Chain now logged_out session db c)
  | inr e ↦ rw e c
]

login_found-Chain :
    (service : AuthService) (drawn : Drawn) (now : ℕ) (password : Password) (o : Option User)
    (db : Db)
    → Chain db
    → Chain (login_found service drawn now password o db).1
unfolding login_found
login_found-Chain service drawn now password none db c = c
login_found-Chain service drawn now password (some user) db c =
    elim (Bool-cases (
      not (verify_password service.passwords drawn.salt password user.password_hash).0
      || not user.is_active)) [
        | inl a ↦ rw a c
        | inr a ↦
            elim (Bool-cases (
              session_taken drawn.session_id db
              || token_taken drawn.token_id (service.tokens.sha256 drawn.refresh_plaintext) db)) [
                | inl b ↦ rw (a, b) c
                | inr b ↦
                    rw (a, b)
                      (open_session-Chain service drawn now
                        (verify_password service.passwords drawn.salt password user.password_hash).1
                        user db (absent b) (ground (arith, b)) (sessions_append db.sessions _) c)
              ]
      ]
  where
    absent :
        (session_taken drawn.session_id db
            || token_taken drawn.token_id (service.tokens.sha256 drawn.refresh_plaintext) db)
          ≡ false
        → find (session_id_is drawn.session_id) db.sessions ≡ none
    absent b = elim (Option-cases (find (session_id_is drawn.session_id) db.sessions)) [
      | inl n ↦ n
      | inr (x, n) ↦ absurd (ground (arith, b, n))
    ]

-- The token that is exchanged is the open one of its session.
pub rotate-Chain :
    (service : AuthService) (drawn : Drawn) (now : ℕ) (row : RefreshToken) (family : AuthSession)
    (user : User) (db : Db)
    → Chain db
    → find (token_id_is row.id) db.refresh_tokens ≡ some row
    → is_some row.consumed_at ≡ false
    → find (session_id_is row.session_id) db.sessions ≡ some family
    → token_taken drawn.token_id (service.tokens.sha256 drawn.refresh_plaintext) db ≡ false
    → Chain (rotate service drawn now row family user db).1
unfolding rotate
rotate-Chain service drawn now row family user db c f u s t =
    let fresh = fresh_token drawn.token_id (service.tokens.sha256 drawn.refresh_plaintext) db t in
    Chained-append _ (update (token_id_is row.id) (consume now drawn.token_id) db.refresh_tokens) _
      (rw
        (
          find-update (token_id_is row.id) (token_id_is drawn.token_id) (consume now drawn.token_id)
              db.refresh_tokens (λ x. refl),
          fresh.0,
        )
        refl)
      (rw
        (
          find-update (token_id_is row.id)
              (digest_is (service.tokens.sha256 drawn.refresh_plaintext))
              (consume now drawn.token_id) db.refresh_tokens (λ x. refl),
          fresh.1,
        )
        refl)
      (rw
        (
          find-update (session_id_is family.id) (session_id_is family.id)
              (use_session now
                (min family.absolute_expires_at (now + days service.inactivity_days)))
              db.sessions (λ x. refl),
          found_family,
        )
        refl)
      (count-consumed now drawn.token_id family.id row db.refresh_tokens (c.one family.id) f
        (rw (← of_family, ==_refl row.session_id) (ground (arith, u))))
      (Chained-sessions db.sessions _ _
        (rotate-Evolves service drawn now row family user db).sessions
        (Chained-consume now drawn.token_id _ db.sessions db.refresh_tokens c))
  where
    of_family : row.session_id ≡ family.id
    of_family = sym (
        (==_iff family.id row.session_id).0
          (find-eq-some (session_id_is row.session_id) db.sessions family s))

    found_family : find (session_id_is family.id) db.sessions ≡ some family
    found_family = subst (λ k. find (session_id_is k) db.sessions ≡ some family) of_family s

refresh_family-Chain :
    (service : AuthService) (drawn : Drawn) (now : ℕ) (row : RefreshToken) (family : AuthSession)
    (o : Option User) (db : Db)
    → Chain db
    → find (token_id_is row.id) db.refresh_tokens ≡ some row
    → find (session_id_is row.session_id) db.sessions ≡ some family
    → Chain (refresh_family service drawn now row family o db).1
unfolding refresh_family
refresh_family-Chain service drawn now row family none db c f s = c
refresh_family-Chain service drawn now row family (some user) db c f s =
    elim (Bool-cases (is_some row.consumed_at)) [
      | inl a ↦ rw a (revoke_family-Chain now refresh_reuse family db c)
      | inr a ↦
          elim (Bool-cases
            (invalid_family now family user || is_some row.revoked_at || leb row.expires_at now)) [
              | inl b ↦ rw (a, b) (revoke_family-Chain now session_invalid family db c)
              | inr b ↦
                  elim (Bool-cases (
                    token_taken drawn.token_id (service.tokens.sha256 drawn.refresh_plaintext)
                      db)) [
                        | inl t ↦ rw (a, b, t) c
                        | inr t ↦
                            rw (a, b, t)
                              (rotate-Chain service drawn now row family user db c f a s t)
                      ]
            ]
    ]

refresh_session-Chain :
    (service : AuthService) (drawn : Drawn) (now : ℕ) (row : RefreshToken) (o : Option AuthSession)
    (db : Db)
    → Chain db
    → find (token_id_is row.id) db.refresh_tokens ≡ some row
    → find (session_id_is row.session_id) db.sessions ≡ o
    → Chain (refresh_session service drawn now row o db).1
unfolding refresh_session
refresh_session-Chain service drawn now row none db c f s = c
refresh_session-Chain service drawn now row (some family) db c f s =
    refresh_family-Chain service drawn now row family _ db c f s

refresh_found-Chain :
    (service : AuthService) (drawn : Drawn) (now token : ℕ) (o : Option RefreshToken) (db : Db)
    → Chain db
    → find (digest_is (service.tokens.sha256 token)) db.refresh_tokens ≡ o
    → Chain (refresh_found service drawn now o db).1
unfolding refresh_found
refresh_found-Chain service drawn now token none db c f = c
refresh_found-Chain service drawn now token (some row) db c f =
    refresh_session-Chain service drawn now row _ db c
      (find-key token_id (digest_is (service.tokens.sha256 token)) db.refresh_tokens row c.ids f)
      refl

call-Chain : (service : AuthService) (c : Call) (db : Db) → Chain db → Chain (call service c db)
unfolding call login refresh logout
call-Chain service (log_in drawn now name password) db c =
    login_found-Chain service drawn now password _ db c
call-Chain service (refresh_with drawn now token) db c =
    refresh_found-Chain service drawn now token _ db c refl
call-Chain service (log_out now user_id session_id) db c = logout-Chain now user_id _ db c
call-Chain service (log_out_all now user_id) db c =
    same_tokens db _ (call-Evolves service (log_out_all now user_id) db)
      (logout_all-tokens now user_id db) c
call-Chain service (change_one salt now user_id current new) db c =
    same_tokens db _ (call-Evolves service (change_one salt now user_id current new) db)
      (change_password-tokens service salt now user_id current new db) c
call-Chain service (administer op) db c =
    same_tokens db _ (call-Evolves service (administer op) db) (administer-tokens op db) c

-- From tables in which the refresh tokens have different identifiers and digests, belong to sessions
-- of their table and are, in each session, all consumed but at most one, any calls of the two
-- services lead to such tables.
pub calls-Chain :
    (service : AuthService) (cs : List Call) (db : Db) → Chain db → Chain (calls service cs db)
unfolding calls
calls-Chain service [] db c = c
calls-Chain service (x ∷ xs) db c =
    calls-Chain service xs (call service x db) (call-Chain service x db c)
