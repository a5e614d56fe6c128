-- ===== src/Backend/Sessions/Refine.antt =====
-- `refresh` on the tables does what the abstract family does.
use wi_fi_test_orchestrator.Prelude.{
  ℕ, ◌+◌, ◌≤◌, ◌≡◌, refl, sym, subst, true, false, ◌||◌, Option, none, some, arith, ◌==◌, ==_refl,
  ==_iff, leb, is_some, if◌then◌else◌, Bool-cases, inl, inr,
}
use wi_fi_test_orchestrator.Prelude.Table.{find, update, find-append, find-update, find-eq-some}
use wi_fi_test_orchestrator.Prelude.Unique.{find-key}
use wi_fi_test_orchestrator.Prelude.Counts.{find-only, find-none, count-le}
use wi_fi_test_orchestrator.Backend.Access.{
  User, AuthSession, RefreshToken, Reason, Db, user_id_is, refresh_reuse, session_invalid,
}
use wi_fi_test_orchestrator.Backend.Sessions.{
  AuthService, Drawn, refresh, refresh_found, refresh_session, refresh_family, rotate,
  revoke_family, revoke_session, token_taken, invalid_family, session_id_is, digest_is, token_id_is,
  consume, use_session, min, days,
}
use wi_fi_test_orchestrator.Backend.Sessions.Revocation.{is_ok}
use wi_fi_test_orchestrator.Backend.Sessions.Tokens.{
  Chain, token_id, token_digest, open_token, count-consumed,
}
use wi_fi_test_orchestrator.Backend.Sessions.Family.{
  closed, live, present, usable, view_token, view,
}

module _ (service : AuthService) (drawn : Drawn) (now token : ℕ) (row : RefreshToken)
    (family : AuthSession) (user : User) (db : Db) (c : Chain db)
    (f : find (digest_is (service.tokens.sha256 token)) db.refresh_tokens ≡ some row)
    (s : find (session_id_is row.session_id) db.sessions ≡ some family)
    (u : find (user_id_is family.user_id) db.users ≡ some user)
    (t : token_taken drawn.token_id (service.tokens.sha256 drawn.refresh_plaintext) db
      ≡ false) where
  abbrev presented : ℕ
  presented = service.tokens.sha256 token

  abbrev new : ℕ
  new = service.tokens.sha256 drawn.refresh_plaintext

  -- A digest that is not of the usable token closes the family.
  present_unusable :
      (o : Option RefreshToken)
      → find (usable now row.session_id) db.refresh_tokens ≡ o
      → usable now row.session_id row ≡ false
      → present presented new (view_token o) ≡ (false, closed)
  unfolding present
  present_unusable none e n = refl
  present_unusable (some x) e n = elim (Bool-cases (presented == x.token_digest)) [
    | inr d ↦ rw d refl
    | inl d ↦
        let same =
          find-key token_digest (usable now row.session_id) db.refresh_tokens x c.digests e in
        let valid = find-eq-some (usable now row.session_id) db.refresh_tokens x e in
        absurd (ground (arith, moved x d same, valid, n))
  ]
    where
      moved :
          (x : RefreshToken)
          → (presented == x.token_digest) ≡ true
          → find (λ (y : RefreshToken). y.token_digest == x.token_digest) db.refresh_tokens ≡ some x
          → usable now row.session_id x ≡ usable now row.session_id row
      moved x d same =
          let found =
            subst (λ k. find (digest_is k) db.refresh_tokens ≡ some row)
              ((==_iff presented x.token_digest).0 d) f in
          ground (arith, found, same)

  closing :
      (reason : Reason) → view now row.session_id (revoke_family now reason family db) ≡ closed
  unfolding revoke_family
  closing reason =
      rw
        (
          find-update (session_id_is family.id) (session_id_is row.session_id)
              (revoke_session now reason) db.sessions (λ x. refl),
          s,
          ==_refl family.id,
          u,
        )
        refl

  -- The expiry that the session and the replacement take.
  abbrev expiry : ℕ
  expiry = min family.absolute_expires_at (now + days service.inactivity_days)

  later_expiry :
      invalid_family now family user ≡ false → 1 ≤ service.inactivity_days → leb expiry now ≡ false
  later_expiry v d = ground (arith, v, d)

  still_valid :
      invalid_family now family user ≡ false
      → 1 ≤ service.inactivity_days
      → invalid_family now (use_session now expiry family) user ≡ false
  still_valid v d = rw (later_expiry v d) (ground (arith, v))

  of_family : family.id ≡ row.session_id
  of_family =
      (==_iff family.id row.session_id).0
        (find-eq-some (session_id_is row.session_id) db.sessions family s)

  row_by_id : find (token_id_is row.id) db.refresh_tokens ≡ some row
  row_by_id = find-key token_id (digest_is presented) db.refresh_tokens row c.ids f

  used_up :
      is_some row.consumed_at ≡ false
      → find
          (usable now row.session_id)
          (update (token_id_is row.id) (consume now drawn.token_id) db.refresh_tokens)
        ≡ none
  used_up a = find-none (usable now row.session_id) _ (
      omega (
        arith,
        count-consumed now drawn.token_id row.session_id row db.refresh_tokens
            (c.one row.session_id) row_by_id (rw (==_refl row.session_id) (ground (arith, a))),
        count-le (usable now row.session_id) (open_token row.session_id)
            (update (token_id_is row.id) (consume now drawn.token_id) db.refresh_tokens)
            (λ x h. ground (arith, h)),
      ))

  view-rotate :
      is_some row.consumed_at ≡ false
      → invalid_family now family user ≡ false
      → 1 ≤ service.inactivity_days
      → view now row.session_id (rotate service drawn now row family user db).1 ≡ live new
  unfolding rotate find
  view-rotate a v d =
      rw
        (
          find-update (session_id_is family.id) (session_id_is row.session_id)
              (use_session now expiry) db.sessions (λ x. refl),
          s,
          ==_refl family.id,
          u,
          still_valid v d,
          find-append (usable now row.session_id)
              (update (token_id_is row.id) (consume now drawn.token_id) db.refresh_tokens),
          used_up a,
          of_family,
          ==_refl row.session_id,
          later_expiry v d,
        )
        refl

  view-before :
      usable now row.session_id row ≡ true
      → find (usable now row.session_id) db.refresh_tokens ≡ some row
  view-before h =
      find-only (usable now row.session_id) (digest_is presented) db.refresh_tokens row
        (omega (
          arith,
          c.one row.session_id,
          count-le (usable now row.session_id) (open_token row.session_id) db.refresh_tokens
              (λ x g. ground (arith, g)),
        ))
        f h

  -- `refresh_family` from what the statement found.
  family_refines :
      1 ≤ service.inactivity_days
      → (
        is_ok (refresh_family service drawn now row family (some user) db).0,
        view now row.session_id (refresh_family service drawn now row family (some user) db).1,
      )
        ≡ present presented new (
            if invalid_family now family user
            then closed
            else view_token (find (usable now row.session_id) db.refresh_tokens))
  unfolding refresh_family present
  family_refines d = elim (Bool-cases (is_some row.consumed_at)) [
    | inl a ↦ rw (a, closing refresh_reuse) (sym (refused (ground (arith, a))))
    | inr a ↦ elim (Bool-cases (invalid_family now family user)) [
      | inl v ↦ rw (a, v, closing session_invalid) refl
      | inr v ↦ elim (Bool-cases (is_some row.revoked_at || leb row.expires_at now)) [
        | inl b ↦
            rw (a, v, b, closing session_invalid)
              (sym (
                present_unusable (find (usable now row.session_id) db.refresh_tokens) refl
                  (ground (arith, b))))
        | inr b ↦
            rw
              (
                a,
                v,
                b,
                t,
                view-rotate a v d,
                view-before (rw (==_refl row.session_id) (ground (arith, a, b))),
                (==_iff row.token_digest presented).0
                    (find-eq-some (digest_is presented) db.refresh_tokens row f),
                ==_refl presented,
              )
              refl
      ]
    ]
  ]
    where
      refused :
          usable now row.session_id row ≡ false
          → present presented new (
              if invalid_family now family user
              then closed
              else view_token (find (usable now row.session_id) db.refresh_tokens))
            ≡ (false, closed)
      refused n = elim (Bool-cases (invalid_family now family user)) [
        | inl v ↦ rw v refl
        | inr v ↦
            rw v (present_unusable (find (usable now row.session_id) db.refresh_tokens) refl n)
      ]

-- On tables whose refresh tokens are chained, for a token that the tables have, with its session and
-- the user of that, fresh drawn values and an inactivity window of at least a day: `refresh` accepts
-- the token exactly when the family that its session stands for accepts its digest, and leaves the
-- session standing for the family that this leaves, live with the new digest or closed.
pub refresh_refines :
    (service : AuthService) (drawn : Drawn) (now token : ℕ) (row : RefreshToken)
    (family : AuthSession) (user : User) (db : Db)
    → Chain db
    → find (digest_is (service.tokens.sha256 token)) db.refresh_tokens ≡ some row
    → find (session_id_is row.session_id) db.sessions ≡ some family
    → find (user_id_is family.user_id) db.users ≡ some user
    → token_taken drawn.token_id (service.tokens.sha256 drawn.refresh_plaintext) db ≡ false
    → 1 ≤ service.inactivity_days
    → (
      is_ok (refresh service drawn now token db).0,
      view now row.session_id (refresh service drawn now token db).1,
    )
      ≡ present
          (service.tokens.sha256 token)
          (service.tokens.sha256 drawn.refresh_plaintext)
          (view now row.session_id db)
unfolding refresh refresh_found refresh_session
refresh_refines service drawn now token row family user db c f s u t d =
    rw (f, s, u) (family_refines service drawn now token row family user db c f s u t d)
