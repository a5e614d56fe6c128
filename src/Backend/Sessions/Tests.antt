-- ===== src/Backend/Sessions/Tests.antt =====
-- The theorems on sessions at concrete tables.
mod World
use World.{
  service, password, drawn, second, claims, alone, alone-Unique, user, session, token, with_session,
  issued, with_session-Chain,
}
use wi_fi_test_orchestrator.Prelude.{◌+◌, ◌≡◌, ◌==◌, refl, true, false, some, [], ◌∷◌, arith}
use wi_fi_test_orchestrator.Prelude.Table.{find, count, update}
use wi_fi_test_orchestrator.Backend.Access.Administrators.{disable_one}
use wi_fi_test_orchestrator.Backend.Access.{
  User, RefreshToken, logged_out, user_id_is, revoke_sessions,
}
use wi_fi_test_orchestrator.Backend.Sessions.{
  ok, err, invalid_session, login, login_found, open_session, refresh, refresh_found,
  refresh_session, refresh_family, rotate, logout, logout_found, revoke_family, logout_all,
  logout_locked, change_password, change_found, store_password, authenticate_access, token_taken,
}
use wi_fi_test_orchestrator.Backend.Sessions.Secrets.{
  Password, decode_access, verify_password, hash_password, validate_password, issue_access,
}
use wi_fi_test_orchestrator.Backend.Sessions.Calls.{
  log_in, refresh_with, log_out, log_out_all, change_one, administer, calls, call,
}
use wi_fi_test_orchestrator.Backend.Sessions.Opening.{login-authenticate_access}
use wi_fi_test_orchestrator.Backend.Sessions.Revocation.{Revoked, is_ok, calls_refuse}
use wi_fi_test_orchestrator.Backend.Sessions.Reuse.{refresh-again}
use wi_fi_test_orchestrator.Backend.Sessions.Versions.{
  logout_all-Outdated, change_password-Outdated,
}
use wi_fi_test_orchestrator.Backend.Sessions.Tokens.{Chain}
use wi_fi_test_orchestrator.Backend.Sessions.Chains.{calls-Chain}
use wi_fi_test_orchestrator.Backend.Sessions.Family.{present, view}
use wi_fi_test_orchestrator.Backend.Sessions.Refine.{refresh_refines}

login_is : (login service drawn 100 2 password alone).0 ≡ ok (issued 100 user 50 40)
unfolding login login_found open_session verify_password issue_access find
login_is = refl

login-authenticate_access_example :
    (decode_access service.tokens 600 (issued 100 user 50 40).access ≡ some claims)
    × (authenticate_access 600 claims (login service drawn 100 2 password alone).1 ≡ ok user)
login-authenticate_access_example =
    login-authenticate_access service drawn 100 600 2 password alone (issued 100 user 50 40)
      alone-Unique login_is refl refl refl

refresh_is : (refresh service second 600 40 with_session).0 ≡ ok (issued 600 user 51 41)
unfolding refresh refresh_found refresh_session refresh_family rotate issue_access find
refresh_is = refl

token_found : find (λ t. t.token_digest == 40) with_session.refresh_tokens ≡ some token
unfolding find
token_found = refl

-- The token is used at 600, and once more at 700.
refresh-again_example :
    let reused =
      refresh service second 700 40
        (calls service [] (refresh service second 600 40 with_session).1) in
    let db' = calls service (log_in drawn 750 2 password ∷ []) reused.1 in
    (reused.0 ≡ err invalid_session)
    × (authenticate_access 800 claims db' ≡ err invalid_session)
    × (is_ok (refresh service second 800 41 db').0 ≡ false)
refresh-again_example =
    refresh-again service second second second 600 700 800 40 with_session (issued 600 user 51 41)
      token claims [] (log_in drawn 750 2 password ∷ []) refresh_is token_found refl

user_found : find (user_id_is 1) with_session.users ≡ some user
unfolding find
user_found = refl

logout_all-Outdated_example :
    (authenticate_access 800 claims (calls service [] (logout_all 700 1 with_session).1)
      ≡ err invalid_session)
    × (authenticate_access 800 claims (calls service [] (revoke_sessions 700 1 5 with_session).1)
        ≡ err invalid_session)
logout_all-Outdated_example =
    logout_all-Outdated service [] 700 800 5 claims user with_session user_found (omega arith)

abbrev new_password : Password
new_password = record { text = 98; characters = 13; utf8_bytes = 14 }

change_is : (change_password service 60 700 1 password new_password with_session).0 ≡ ok tt
unfolding change_password change_found store_password logout_locked verify_password hash_password
    validate_password find update
change_is = refl

change_password-Outdated_example :
    let db' = (change_password service 60 700 1 password new_password with_session).1 in
    ((row : User) × (find (user_id_is 1) db'.users ≡ some row)
      × (row.auth_version ≡ 2)
      × (row.must_change_password ≡ false)
      × ((verify_password service.passwords 60 new_password row.password_hash).0 ≡ true))
    × (authenticate_access 800 claims (calls service (log_in drawn 750 2 new_password ∷ []) db')
        ≡ err invalid_session)
change_password-Outdated_example =
    change_password-Outdated service (log_in drawn 750 2 new_password ∷ []) 60 700 800 password
      new_password claims user with_session user_found (omega arith) change_is

calls-Chain_example : Chain (
    calls service
      (refresh_with second 600 40
        ∷ refresh_with second 700 41
        ∷ log_out_all 800 1
        ∷ administer (disable_one 900 1 5)
        ∷ [])
      with_session)
calls-Chain_example =
    calls-Chain service
      (refresh_with second 600 40
        ∷ refresh_with second 700 41
        ∷ log_out_all 800 1
        ∷ administer (disable_one 900 1 5)
        ∷ [])
      with_session with_session-Chain

session-Revoked : Revoked 20 (logout 500 1 20 with_session)
unfolding logout logout_found revoke_family find update
session-Revoked = record {
  row = record session { revoked_at = some 500; revocation_reason = some logged_out };
  found = refl;
  is_revoked = refl;
}

token_kept :
    (t : RefreshToken) × (find
        (λ t. t.token_digest == 40)
        (calls service
          (log_in second 550 2 password ∷ [])
          (logout 500 1 20 with_session)).refresh_tokens
      ≡ some t)
    × (t.session_id ≡ 20)
unfolding calls call login login_found open_session verify_password logout logout_found
    revoke_family find update
token_kept = (_, refl, refl)

calls_refuse_example :
    let db' = calls service (log_in second 550 2 password ∷ []) (logout 500 1 20 with_session) in
    (authenticate_access 600 claims db' ≡ err invalid_session)
    × (is_ok (refresh service second 600 40 db').0 ≡ false)
calls_refuse_example =
    calls_refuse service (log_in second 550 2 password ∷ []) claims (logout 500 1 20 with_session)
      second 600 40 token_kept.0 session-Revoked token_kept.1 token_kept.2

session_found : find (λ s. s.id == 20) with_session.sessions ≡ some session
unfolding find
session_found = refl

not_taken : token_taken 31 41 with_session ≡ false
unfolding find
not_taken = refl

refresh_refines_example :
    (
      is_ok (refresh service second 600 40 with_session).0,
      view 600 20 (refresh service second 600 40 with_session).1,
    )
    ≡ present 40 41 (view 600 20 with_session)
refresh_refines_example =
    refresh_refines service second 600 40 token session user with_session with_session-Chain
      token_found session_found user_found not_taken (omega arith)
