-- ===== src/Backend/Sessions/Consumed.antt =====
-- What a refresh token that was consumed meets.
use wi_fi_test_orchestrator.Prelude.{ℕ, ◌≡◌, refl, true, some, List, ==_refl, is_some}
use wi_fi_test_orchestrator.Prelude.Table.{find, find-update}
use wi_fi_test_orchestrator.Backend.Access.{
  User, AuthSession, RefreshToken, Db, user_id_is, refresh_reuse,
}
use wi_fi_test_orchestrator.Backend.Sessions.{
  AuthService, Drawn, err, invalid_session, refresh, refresh_found, refresh_session, refresh_family,
  revoke_family, revoke_session, session_id_is, digest_is,
}
use wi_fi_test_orchestrator.Backend.Sessions.Calls.{Call, calls}
use wi_fi_test_orchestrator.Backend.Sessions.Evolving.{calls-Evolves}
use wi_fi_test_orchestrator.Backend.Sessions.Revocation.{Revoked}

-- The token with this digest was consumed; its session and the user of that are in their tables.
pub record Consumed (digest session_id : ℕ) (db : Db) : Type 0 where
  pub row : RefreshToken
  pub found : find (digest_is digest) db.refresh_tokens ≡ some row
  pub is_consumed : is_some row.consumed_at ≡ true
  pub of_session : row.session_id ≡ session_id
  pub family : AuthSession
  pub found_family : find (session_id_is session_id) db.sessions ≡ some family
  pub user : User
  pub found_user : find (user_id_is family.user_id) db.users ≡ some user

pub calls-Consumed :
    (service : AuthService) (cs : List Call) (digest session_id : ℕ) (db : Db)
    → Consumed digest session_id db
    → Consumed digest session_id (calls service cs db)
calls-Consumed service cs digest session_id db c =
    let later = calls-Evolves service cs db in
    let row = later.tokens digest c.row c.found in
    let family = later.sessions session_id c.family c.found_family in
    let user = later.users c.family.user_id c.user c.found_user in
    record {
      row = row.row;
      found = row.found;
      is_consumed = row.later.stays_consumed c.is_consumed;
      of_session = rw (row.later.family, c.of_session) refl;
      family = family.row;
      found_family = family.found;
      user = user.row;
      found_user = rw family.later.owner user.found;
    }

-- Presenting it revokes the session.
pub refresh-Consumed :
    (service : AuthService) (drawn : Drawn) (now token session_id : ℕ) (db : Db)
    → Consumed (service.tokens.sha256 token) session_id db
    → ((refresh service drawn now token db).0 ≡ err invalid_session)
      × Revoked session_id (refresh service drawn now token db).1
unfolding refresh refresh_found refresh_session refresh_family revoke_family
refresh-Consumed service drawn now token session_id db c =
    rw (c.found, c.of_session, c.found_family, c.found_user, c.is_consumed)
      (
        refl,
        record {
          row = revoke_session now refresh_reuse c.family;
          found =
              rw
                (
                  find-update (session_id_is c.family.id) (session_id_is session_id)
                      (revoke_session now refresh_reuse) db.sessions (λ x. refl),
                  c.found_family,
                  ==_refl c.family.id,
                )
                refl;
          is_revoked = refl;
        },
      )
