-- ===== src/Backend/Sessions/Reuse.antt =====
-- A refresh token is accepted once.
use wi_fi_test_orchestrator.Prelude.{
  ℕ, ◌+◌, ◌≡◌, refl, ap, subst, ◌∙◌, Option-cases, sym, false, none, some, List, arith, ==_refl,
  ==_iff, inl, inr,
}
use wi_fi_test_orchestrator.Prelude.Table.{find, update, find-append, find-update, find-eq-some}
use wi_fi_test_orchestrator.Backend.Access.{RefreshToken, Db}
use wi_fi_test_orchestrator.Backend.Sessions.Secrets.{AccessClaims}
use wi_fi_test_orchestrator.Backend.Sessions.{
  AuthService, Drawn, Issued, Result, ok, err, invalid_session, refresh, rotate, session_id_is,
  digest_is, token_id_is, consume, use_session, min, days, new_refresh, authenticate_access,
}
use wi_fi_test_orchestrator.Backend.Sessions.Calls.{Call, refresh_with, call, calls}
use wi_fi_test_orchestrator.Backend.Sessions.Evolving.{call-Evolves, calls-Evolves}
use wi_fi_test_orchestrator.Backend.Sessions.Accepted.{Accepted, new_digest, refresh-Accepted}
use wi_fi_test_orchestrator.Backend.Sessions.Revocation.{
  is_ok, calls-Revoked, authenticate_access-Revoked, refresh-Revoked,
}
use wi_fi_test_orchestrator.Backend.Sessions.Consumed.{Consumed, calls-Consumed, refresh-Consumed}

module _ (service : AuthService) (drawn : Drawn) (now token : ℕ) (row : RefreshToken) (db : Db)
    (found : find (digest_is (service.tokens.sha256 token)) db.refresh_tokens ≡ some row)
    (a : Accepted service drawn now token row db) where
  -- The tables that the call leaves.
  abbrev after : Db
  after = (rotate service drawn now row a.family a.user db).1

  after-Consumed : Consumed (service.tokens.sha256 token) row.session_id after
  unfolding rotate
  after-Consumed = record {
    row = consume now drawn.token_id row;
    found =
        rw
          (
            find-append (digest_is (service.tokens.sha256 token))
                (update (token_id_is row.id) (consume now drawn.token_id) db.refresh_tokens),
            find-update (token_id_is row.id) (digest_is (service.tokens.sha256 token))
                (consume now drawn.token_id) db.refresh_tokens (λ x. refl),
            found,
            ==_refl row.id,
          )
          refl;
    is_consumed = refl;
    of_session = refl;
    family =
        use_session now (min a.family.absolute_expires_at (now + days service.inactivity_days))
          a.family;
    found_family =
        rw
          (
            find-update (session_id_is a.family.id) (session_id_is row.session_id)
                (use_session now
                  (min a.family.absolute_expires_at (now + days service.inactivity_days)))
                db.sessions (λ x. refl),
            a.found_family,
            ==_refl a.family.id,
          )
          refl;
    user = a.user;
    found_user = a.found_user;
  }

  -- The replacement is of the same session.
  find-replacement :
      (replacement : RefreshToken) × (find
          (digest_is (new_digest service drawn now token))
          after.refresh_tokens
        ≡ some replacement)
      × (replacement.session_id ≡ row.session_id)
  unfolding rotate find
  find-replacement = (
    new_refresh drawn.token_id a.family.id (new_digest service drawn now token) (some row.id) now
        (min a.family.absolute_expires_at (now + days service.inactivity_days)),
    rw
        (
          find-append (digest_is (new_digest service drawn now token))
              (update (token_id_is row.id) (consume now drawn.token_id) db.refresh_tokens),
          find-update (token_id_is row.id) (digest_is (new_digest service drawn now token))
              (consume now drawn.token_id) db.refresh_tokens (λ x. refl),
          fresh,
          ==_refl (new_digest service drawn now token),
        )
        refl,
    (==_iff a.family.id row.session_id).0
        (find-eq-some (session_id_is row.session_id) db.sessions a.family a.found_family),
  )
    where
      fresh : find (digest_is (new_digest service drawn now token)) db.refresh_tokens ≡ none
      fresh =
          elim (Option-cases
            (find (digest_is (new_digest service drawn now token)) db.refresh_tokens)) [
              | inl e ↦ e
              | inr (x, e) ↦ absurd (ground (arith, a.fresh, e))
            ]

  after-refresh : after ≡ (refresh service drawn now token db).1
  after-refresh = ap (λ (p : Result Issued × Db). p.1) (sym a.rotated)

-- What a consumed token meets, and the token that it was exchanged for.
again :
    (service : AuthService) (drawn' drawn'' : Drawn) (later last token other : ℕ)
    (claims : AccessClaims) (replacement : RefreshToken) (cs cs' : List Call) (db : Db)
    → Consumed (service.tokens.sha256 token) claims.session_id db
    → find (digest_is (service.tokens.sha256 other)) db.refresh_tokens ≡ some replacement
    → replacement.session_id ≡ claims.session_id
    → let reused = refresh service drawn' later token (calls service cs db) in
      let db' = calls service cs' reused.1 in
      (reused.0 ≡ err invalid_session)
      × (authenticate_access last claims db' ≡ err invalid_session)
      × (is_ok (refresh service drawn'' last other db').0 ≡ false)
unfolding refresh call
again service drawn' drawn'' later last token other claims replacement cs cs' db c f e =
    let reused = refresh service drawn' later token (calls service cs db) in
    let met =
      refresh-Consumed service drawn' later token claims.session_id (calls service cs db)
        (calls-Consumed service cs (service.tokens.sha256 token) claims.session_id db c) in
    let kept = (calls-Evolves service cs db).tokens (service.tokens.sha256 other) replacement f in
    let kept' =
      (call-Evolves service (refresh_with drawn' later token) (calls service cs db)).tokens
        (service.tokens.sha256 other) kept.row kept.found in
    let kept'' =
      (calls-Evolves service cs' reused.1).tokens (service.tokens.sha256 other) kept'.row
        kept'.found in
    let revoked = calls-Revoked service cs' claims.session_id reused.1 met.1 in
    (
      met.0,
      authenticate_access-Revoked last claims (calls service cs' reused.1) revoked,
      refresh-Revoked service drawn'' last other kept''.row (calls service cs' reused.1)
          kept''.found (rw (kept''.later.family, kept'.later.family, kept.later.family, e) revoked),
    )

-- A refresh token that was accepted is refused at its next presentation, at any time and after any
-- calls. From then on, whatever calls follow, access claims with the identifier of its session are
-- refused at any time, and the token that it was exchanged for is not accepted.
pub refresh-again :
    (service : AuthService) (drawn drawn' drawn'' : Drawn) (now later last token : ℕ) (db : Db)
    (issued : Issued) (row : RefreshToken) (claims : AccessClaims) (cs cs' : List Call)
    → (refresh service drawn now token db).0 ≡ ok issued
    → find (digest_is (service.tokens.sha256 token)) db.refresh_tokens ≡ some row
    → claims.session_id ≡ row.session_id
    → let before = calls service cs (refresh service drawn now token db).1 in
      let reused = refresh service drawn' later token before in
      let db' = calls service cs' reused.1 in
      (reused.0 ≡ err invalid_session)
      × (authenticate_access last claims db' ≡ err invalid_session)
      × (is_ok (refresh service drawn'' last drawn.refresh_plaintext db').0 ≡ false)
refresh-again service drawn drawn' drawn'' now later last token db issued row claims cs cs' h t e =
    let (x, f, a) = refresh-Accepted service drawn now token db issued h in
    let same = owner x f in
    let (replacement, f', e') = find-replacement service drawn now token x db f a in
    again service drawn' drawn'' later last token drawn.refresh_plaintext claims replacement cs cs'
      (refresh service drawn now token db).1
      (subst (λ d. Consumed (service.tokens.sha256 token) claims.session_id d)
        (after-refresh service drawn now token x db f a)
        (subst
          (λ i.
            Consumed (service.tokens.sha256 token) i
              (rotate service drawn now x a.family a.user db).1)
          same (after-Consumed service drawn now token x db f a)))
      (rw (← after-refresh service drawn now token x db f a) f') (e' ∙ same)
  where
    owner :
        (x : RefreshToken)
        → find (digest_is (service.tokens.sha256 token)) db.refresh_tokens ≡ some x
        → x.session_id ≡ claims.session_id
    owner x f = ground (arith, f, t, e)
