-- ===== src/Backend/Sessions/Accepted.antt =====
-- What a `refresh` that was accepted had found, and what it left.
use wi_fi_test_orchestrator.Prelude.{
  ℕ, ◌≡◌, refl, false, ◌||◌, Option, none, some, arith, leb, is_some, Bool-cases, inl, inr,
}
use wi_fi_test_orchestrator.Prelude.Table.{find}
use wi_fi_test_orchestrator.Backend.Access.{User, AuthSession, RefreshToken, Db, user_id_is}
use wi_fi_test_orchestrator.Backend.Sessions.{
  AuthService, Drawn, Issued, ok, refresh, refresh_found, refresh_session, refresh_family, rotate,
  token_taken, invalid_family, session_id_is, digest_is,
}

module _ (service : AuthService) (drawn : Drawn) (now token : ℕ) where
  abbrev pub new_digest : ℕ
  new_digest = service.tokens.sha256 drawn.refresh_plaintext

  pub record Accepted (row : RefreshToken) (db : Db) : Type 0 where
    pub family : AuthSession
    pub user : User
    pub found_family : find (session_id_is row.session_id) db.sessions ≡ some family
    pub found_user : find (user_id_is family.user_id) db.users ≡ some user
    pub unconsumed : is_some row.consumed_at ≡ false
    pub valid :
        (invalid_family now family user || is_some row.revoked_at || leb row.expires_at now) ≡ false
    pub fresh : token_taken drawn.token_id new_digest db ≡ false
    pub rotated : refresh service drawn now token db ≡ (
      ok (rotate service drawn now row family user db).0,
      (rotate service drawn now row family user db).1,
    )

  family_case :
      (row : RefreshToken) (family : AuthSession) (db : Db) (issued : Issued) (o : Option User)
      → find (session_id_is row.session_id) db.sessions ≡ some family
      → find (user_id_is family.user_id) db.users ≡ o
      → refresh service drawn now token db ≡ refresh_family service drawn now row family o db
      → (refresh_family service drawn now row family o db).0 ≡ ok issued
      → Accepted row db
  unfolding refresh_family
  family_case row family db issued none s u e h = absurd (ground (arith, h))
  family_case row family db issued (some user) s u e h =
      elim (Bool-cases (is_some row.consumed_at)) [
        | inl a ↦ absurd (ground (arith, h, a))
        | inr a ↦
            elim (Bool-cases (
              invalid_family now family user || is_some row.revoked_at || leb row.expires_at now)) [
                | inl b ↦ absurd (ground (arith, h, a, b))
                | inr b ↦ elim (Bool-cases (token_taken drawn.token_id new_digest db)) [
                  | inl c ↦ absurd (ground (arith, h, a, b, c))
                  | inr c ↦ record {
                    family = family;
                    user = user;
                    found_family = s;
                    found_user = u;
                    unconsumed = a;
                    valid = b;
                    fresh = c;
                    rotated = rw (e, a, b, c) refl;
                  }
                ]
              ]
      ]

  session_case :
      (row : RefreshToken) (db : Db) (issued : Issued) (o : Option AuthSession)
      → find (session_id_is row.session_id) db.sessions ≡ o
      → refresh service drawn now token db ≡ refresh_session service drawn now row o db
      → (refresh_session service drawn now row o db).0 ≡ ok issued
      → Accepted row db
  unfolding refresh_session
  session_case row db issued none s e h = absurd (ground (arith, h))
  session_case row db issued (some family) s e h =
      family_case row family db issued (find (user_id_is family.user_id) db.users) s refl e h

  token_case :
      (db : Db) (issued : Issued) (o : Option RefreshToken)
      → find (digest_is (service.tokens.sha256 token)) db.refresh_tokens ≡ o
      → refresh service drawn now token db ≡ refresh_found service drawn now o db
      → (refresh_found service drawn now o db).0 ≡ ok issued
      → (row : RefreshToken) × (find (digest_is (service.tokens.sha256 token)) db.refresh_tokens
          ≡ some row)
        × Accepted row db
  unfolding refresh_found
  token_case db issued none t e h = absurd (ground (arith, h))
  token_case db issued (some row) t e h = (
    row,
    t,
    session_case row db issued (find (session_id_is row.session_id) db.sessions) refl e h,
  )

  pub refresh-Accepted :
      (db : Db) (issued : Issued)
      → (refresh service drawn now token db).0 ≡ ok issued
      → (row : RefreshToken) × (find (digest_is (service.tokens.sha256 token)) db.refresh_tokens
          ≡ some row)
        × Accepted row db
  unfolding refresh
  refresh-Accepted db issued h =
      token_case db issued (find (digest_is (service.tokens.sha256 token)) db.refresh_tokens) refl
        refl h
