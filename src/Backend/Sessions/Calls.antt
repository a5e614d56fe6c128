-- ===== src/Backend/Sessions/Calls.antt =====
-- Calls of `AuthService` and of the user administration, in any order.
use wi_fi_test_orchestrator.Prelude.{ℕ, List, [], ◌∷◌}
use wi_fi_test_orchestrator.Backend.Access.{Db}
use wi_fi_test_orchestrator.Backend.Access.Administrators
use wi_fi_test_orchestrator.Backend.Sessions.Secrets.{Password}
use wi_fi_test_orchestrator.Backend.Sessions.{
  AuthService, Drawn, login, refresh, logout, logout_all, change_password,
}

pub data Call : Type 0 where
  log_in : Drawn → ℕ → ℕ → Password → Call
  refresh_with : Drawn → ℕ → ℕ → Call
  log_out : ℕ → ℕ → ℕ → Call
  log_out_all : ℕ → ℕ → Call
  change_one : ℕ → ℕ → ℕ → Password → Password → Call
  administer : Administrators.Op → Call

unfoldable pub call : AuthService → Call → Db → Db
call service (log_in drawn now name password) db = (login service drawn now name password db).1
call service (refresh_with drawn now token) db = (refresh service drawn now token db).1
call service (log_out now user_id session_id) db = logout now user_id session_id db
call service (log_out_all now user_id) db = (logout_all now user_id db).1
call service (change_one salt now user_id current new) db =
    (change_password service salt now user_id current new db).1
call service (administer op) db = Administrators.apply op db

unfoldable pub calls : AuthService → List Call → Db → Db
unfolding call
calls service [] db = db
calls service (c ∷ cs) db = calls service cs (call service c db)
