-- ===== src/Backend/Credentials/Creates.antt =====
-- `create_rotation` gives a revoked agent no credential.
use wi_fi_test_orchestrator.Prelude.{
  ℕ, ◌≡◌, refl, sym, subst, ◌∙◌, true, false, not, Option, none, some, arith, ◌==◌, ==_iff, is_some,
  Bool-cases, Option-cases, inl, inr,
}
use mathlib.Core.Bool.{true≢false}
use wi_fi_test_orchestrator.Prelude.Table.{find, count, count-append}
use wi_fi_test_orchestrator.Prelude.Unique.{Unique-append}
use wi_fi_test_orchestrator.Backend.Idempotency.{
  Start, IdempotencyRecord, begin, secret_replay_expired, idempotency_conflict,
  idempotency_in_progress, secret_unreadable,
}
use wi_fi_test_orchestrator.Backend.Idempotency
use wi_fi_test_orchestrator.Backend.Presence.{agent_is, barred}
use wi_fi_test_orchestrator.Backend.Credentials.{
  Body, Db, AgentCredentialService, Fresh, credential_is, live_of, pending_rotation_of,
  expire_pending, active_found, created_body, activated_body, marker_body,
}
use wi_fi_test_orchestrator.Backend.Credentials.Rotation.{
  create_started, create_replay, create_new, create_checked, store_rotation, rotation_taken,
  new_credential,
}
use wi_fi_test_orchestrator.Backend.Credentials.Gone.{credential_id, Gone, expire_pending-Gone}

module _ {Secret : Type 0} (service : AgentCredentialService Secret) where
  store_rotation-Gone :
      (drawn : Fresh) (now agent_id active_id g : ℕ) (entry : IdempotencyRecord Body)
      (db : Db Secret)
      → Gone g db
      → (agent_id == g) ≡ false
      → find (credential_is drawn.credential_id) db.credentials ≡ none
      → Gone g (store_rotation service drawn now agent_id active_id entry db).1
  unfolding store_rotation count
  store_rotation-Gone drawn now agent_id active_id g entry db w e f = record {
    ids =
        Unique-append credential_id db.credentials (new_credential service drawn now agent_id db)
          w.ids f;
    is_barred = w.is_barred;
    none_live = rw (count-append (live_of g) db.credentials, w.none_live, e) refl;
  }

  create_checked-Gone :
      (drawn : Fresh) (now agent_id active_id g : ℕ) (entry : IdempotencyRecord Body)
      (db before : Db Secret)
      → Gone g db
      → Gone g before
      → (agent_id == g) ≡ false
      → Gone g (create_checked service drawn now agent_id active_id entry db before).1
  unfolding create_checked
  create_checked-Gone drawn now agent_id active_id g entry db before w w' e =
      elim (Bool-cases (is_some (find (pending_rotation_of agent_id) db.rotations))) [
        | inl a ↦ rw a w'
        | inr a ↦
            elim (Bool-cases (not (active_found (find (credential_is active_id) db.credentials)))) [
              | inl b ↦ rw (a, b) w'
              | inr b ↦ elim (Bool-cases (rotation_taken service drawn agent_id db)) [
                | inl c ↦ rw (a, b, c) w'
                | inr c ↦
                    rw (a, b, c)
                      (store_rotation-Gone drawn now agent_id active_id g entry db w e (absent c))
              ]
            ]
      ]
    where
      absent :
          rotation_taken service drawn agent_id db ≡ false
          → find (credential_is drawn.credential_id) db.credentials ≡ none
      absent c = elim (Option-cases (find (credential_is drawn.credential_id) db.credentials)) [
        | inl n ↦ n
        | inr (x, n) ↦ absurd (ground (arith, c, n))
      ]

  create_new-Gone :
      (drawn : Fresh) (now agent_id active_id g : ℕ) (entry : IdempotencyRecord Body)
      (db before : Db Secret)
      → Gone g db
      → Gone g before
      → Gone g (create_new service drawn now agent_id active_id entry db before).1
  unfolding create_new
  create_new-Gone drawn now agent_id active_id g entry db before w w' =
      elim (Bool-cases (barred (find (agent_is agent_id) db.protocol.agents))) [
        | inl a ↦ rw a w'
        | inr a ↦ elim (Bool-cases (agent_id == g)) [
          | inl e ↦
              let h =
                subst (λ i. barred (find (agent_is i) db.protocol.agents) ≡ true)
                  (sym ((==_iff agent_id g).0 e)) w.is_barred in
              absurd (true≢false (sym h ∙ a))
          | inr e ↦ rw a (
              create_checked-Gone drawn now agent_id active_id g entry
                (expire_pending now agent_id db) before (expire_pending-Gone now agent_id g db w) w'
                e)
        ]
      ]

  pub create_started-Gone :
      (drawn : Fresh) (now agent_id active_id g : ℕ) (r : Idempotency.Result (Start Body))
      (db before : Db Secret)
      → Gone g db
      → Gone g before
      → Gone g (create_started service drawn now agent_id active_id r db before).1
  unfolding create_started create_replay
  create_started-Gone drawn now agent_id active_id g (Idempotency.err secret_replay_expired) db
        before w w' =
      expire_pending-Gone now agent_id g db w
  create_started-Gone drawn now agent_id active_id g (Idempotency.err idempotency_conflict) db
        before w w' =
      w'
  create_started-Gone drawn now agent_id active_id g (Idempotency.err idempotency_in_progress) db
        before w w' =
      w'
  create_started-Gone drawn now agent_id active_id g (Idempotency.err secret_unreadable) db before w
        w' =
      w'
  create_started-Gone drawn now agent_id active_id g (Idempotency.ok start) db before w w' =
      elim (Bool-cases (not start.is_new)) [
        | inl e ↦ rw e (replayed start.replay_body)
        | inr e ↦ rw e (create_new-Gone drawn now agent_id active_id g start.entry db before w w')
      ]
    where
      replayed : (o : Option Body) → Gone g (create_replay service agent_id o db before).1
      replayed (some (created_body response)) = w
      replayed (some (activated_body response)) = w'
      replayed (some marker_body) = w'
      replayed none = w'
