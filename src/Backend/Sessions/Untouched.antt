-- ===== src/Backend/Sessions/Untouched.antt =====
-- The calls that change no refresh token.
use wi_fi_test_orchestrator.Prelude.{ℕ, ◌≡◌, sym, subst, arith}
use wi_fi_test_orchestrator.Backend.Access.{
  Db, create_user, disable_user, disable_found, assign_role, assign_found, revoke_sessions,
  revoke_found, remove_role, remove_found,
}
use wi_fi_test_orchestrator.Backend.Access.Administrators.{
  create, disable_one, assign, revoke, remove,
}
use wi_fi_test_orchestrator.Backend.Access.Administrators
use wi_fi_test_orchestrator.Backend.Sessions.Secrets.{Password}
use wi_fi_test_orchestrator.Backend.Sessions.{
  AuthService, logout_all, logout_locked, change_password, change_found, store_password,
}
use wi_fi_test_orchestrator.Backend.Sessions.Evolution.{Evolves}
use wi_fi_test_orchestrator.Backend.Sessions.Tokens.{Chain, Chained, Chained-sessions}

-- Tables with the same tokens, whose sessions stay.
pub same_tokens :
    (db db' : Db) → Evolves db db' → db'.refresh_tokens ≡ db.refresh_tokens → Chain db → Chain db'
same_tokens db db' e t c =
    subst (λ ts. Chained db'.sessions ts) (sym t)
      (Chained-sessions db.sessions db'.sessions db.refresh_tokens e.sessions c)

pub administer-tokens :
    (op : Administrators.Op) (db : Db)
    → (Administrators.apply op db).refresh_tokens ≡ db.refresh_tokens
unfolding Administrators.apply create_user disable_user disable_found assign_role assign_found
    revoke_sessions revoke_found remove_role remove_found
administer-tokens (create id name email hash actor) db = ground arith
administer-tokens (disable_one now id actor) db = ground arith
administer-tokens (assign id key actor) db = ground arith
administer-tokens (revoke now id actor) db = ground arith
administer-tokens (remove id key actor) db = ground arith

pub logout_all-tokens :
    (now id : ℕ) (db : Db) → (logout_all now id db).1.refresh_tokens ≡ db.refresh_tokens
unfolding logout_all logout_locked
logout_all-tokens now id db = ground arith

pub change_password-tokens :
    (service : AuthService) (salt now id : ℕ) (current new : Password) (db : Db)
    → (change_password service salt now id current new db).1.refresh_tokens ≡ db.refresh_tokens
unfolding change_password change_found store_password logout_locked
change_password-tokens service salt now id current new db = ground arith
