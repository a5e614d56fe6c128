-- ===== src/Backend/Sessions/Revocation.antt =====
-- A session that is revoked, and a refresh token that is presented again.
use wi_fi_test_orchestrator.Prelude.{
  ℕ, ◌≡◌, refl, Bool, true, false, Option, none, some, List, arith, is_some, Bool-cases, inl, inr,
}
use wi_fi_test_orchestrator.Prelude.Table.{find}
use wi_fi_test_orchestrator.Backend.Access.{User, AuthSession, RefreshToken, Db}
use wi_fi_test_orchestrator.Backend.Sessions.Secrets.{AccessClaims}
use wi_fi_test_orchestrator.Backend.Sessions.{
  AuthService, Drawn, Result, ok, err, invalid_session, refresh, refresh_found, refresh_session,
  refresh_family, session_id_is, digest_is, authenticate_access, authenticate_found,
}
use wi_fi_test_orchestrator.Backend.Sessions.Calls.{Call, calls}
use wi_fi_test_orchestrator.Backend.Sessions.Evolving.{calls-Evolves}

abbrev pub is_ok {ℓ} : {A : Type ℓ} → Result A → Bool
is_ok (ok a) = true
is_ok (err e) = false

-- The session that the identifier finds is revoked.
pub record Revoked (session_id : ℕ) (db : Db) : Type 0 where
  pub row : AuthSession
  pub found : find (session_id_is session_id) db.sessions ≡ some row
  pub is_revoked : is_some row.revoked_at ≡ true

authenticate_found-Revoked :
    (now : ℕ) (claims : AccessClaims) (o : Option User) (session : AuthSession)
    → is_some session.revoked_at ≡ true
    → authenticate_found now claims o (some session) ≡ err invalid_session
unfolding authenticate_found
authenticate_found-Revoked now claims none session h = refl
authenticate_found-Revoked now claims (some user) session h = ground (arith, h)

pub authenticate_access-Revoked :
    (now : ℕ) (claims : AccessClaims) (db : Db)
    → Revoked claims.session_id db
    → authenticate_access now claims db ≡ err invalid_session
unfolding authenticate_access
authenticate_access-Revoked now claims db r =
    rw r.found (authenticate_found-Revoked now claims _ r.row r.is_revoked)

refresh_family-Revoked :
    (service : AuthService) (drawn : Drawn) (now : ℕ) (row : RefreshToken) (family : AuthSession)
    (o : Option User) (db : Db)
    → is_some family.revoked_at ≡ true
    → is_ok (refresh_family service drawn now row family o db).0 ≡ false
unfolding refresh_family
refresh_family-Revoked service drawn now row family none db h = refl
refresh_family-Revoked service drawn now row family (some user) db h =
    elim (Bool-cases (is_some row.consumed_at)) [ inl a ↦ rw a refl | inr a ↦ rw (a, h) refl ]

pub refresh-Revoked :
    (service : AuthService) (drawn : Drawn) (now token : ℕ) (row : RefreshToken) (db : Db)
    → find (digest_is (service.tokens.sha256 token)) db.refresh_tokens ≡ some row
    → Revoked row.session_id db
    → is_ok (refresh service drawn now token db).0 ≡ false
unfolding refresh refresh_found refresh_session
refresh-Revoked service drawn now token row db t r =
    rw (t, r.found) (refresh_family-Revoked service drawn now row r.row _ db r.is_revoked)

pub calls-Revoked :
    (service : AuthService) (cs : List Call) (session_id : ℕ) (db : Db)
    → Revoked session_id db
    → Revoked session_id (calls service cs db)
calls-Revoked service cs session_id db r =
    let kept = (calls-Evolves service cs db).sessions session_id r.row r.found in
    record {
      row = kept.row;
      found = kept.found;
      is_revoked = kept.later.stays_revoked r.is_revoked;
    }

-- Once a session is revoked, whatever calls follow, access claims with its identifier are refused at
-- any time, and so is a refresh token that belongs to it then.
pub calls_refuse :
    (service : AuthService) (cs : List Call) (claims : AccessClaims) (db : Db) (drawn : Drawn)
    (now token : ℕ) (row : RefreshToken)
    → Revoked claims.session_id db
    → find (digest_is (service.tokens.sha256 token)) (calls service cs db).refresh_tokens ≡ some row
    → row.session_id ≡ claims.session_id
    → (authenticate_access now claims (calls service cs db) ≡ err invalid_session)
      × (is_ok (refresh service drawn now token (calls service cs db)).0 ≡ false)
calls_refuse service cs claims db drawn now token row r t e =
    let r' = calls-Revoked service cs claims.session_id db r in
    (
      authenticate_access-Revoked now claims (calls service cs db) r',
      refresh-Revoked service drawn now token row (calls service cs db) t (rw e r'),
    )
