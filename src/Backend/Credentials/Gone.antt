-- ===== src/Backend/Credentials/Gone.antt =====
-- An agent that was revoked has no credential any more.
use wi_fi_test_orchestrator.Prelude.{
  ℕ, ◌≡◌, refl, Bool, true, false, not, Option, none, some, List, arith, ◌==◌, ltb, if◌then◌else◌,
  Bool-cases, inl, inr,
}
use wi_fi_test_orchestrator.Prelude.Table.{find, count, update, find-update}
use wi_fi_test_orchestrator.Prelude.Unique.{Unique, Unique-update}
use wi_fi_test_orchestrator.Prelude.Counts.{count-update-le}
use wi_fi_test_orchestrator.Backend.Presence.{Agent, agent_is, barred}
use wi_fi_test_orchestrator.Backend.Credentials.{
  AgentCredential, AgentCredentialRotation, Db, live_of, pending_rotation_of, revoke_by, revoke_row,
  expire_pending, expire_rotation, revoke_owned, revoke_all, agent_revoked,
}

abbrev pub credential_id : AgentCredential → ℕ
credential_id credential = credential.id

-- The agent is barred, and none of its credentials is active or pending.
pub record Without (agent_id : ℕ) (agents : List Agent) (credentials : List AgentCredential)
    : Type 0 where
  pub ids : Unique credential_id credentials
  pub is_barred : barred (find (agent_is agent_id) agents) ≡ true
  pub none_live : count (live_of agent_id) credentials ≡ 0

abbrev pub Gone : {Secret : Type 0} → ℕ → Db Secret → Type 0
Gone agent_id db = Without agent_id db.protocol.agents db.credentials

-- An update that makes no credential live keeps it so.
pub Without-update :
    (agent_id : ℕ) (agents : List Agent) (credentials : List AgentCredential)
    (p : AgentCredential → Bool) (f : AgentCredential → AgentCredential)
    → ((x : AgentCredential) → (f x).id ≡ x.id)
    → ((x : AgentCredential) → live_of agent_id (f x) ≡ false)
    → Without agent_id agents credentials
    → Without agent_id agents (update p f credentials)
Without-update agent_id agents credentials p f keep dead w = record {
  ids = Unique-update credential_id p f credentials keep w.ids;
  is_barred = w.is_barred;
  none_live = omega (arith, w.none_live, count-update-le (live_of agent_id) p f credentials dead);
}

barred_found :
    (o : Option Agent) (f : Agent → Agent) (p : Agent → Bool)
    → ((x : Agent) → barred (some x) ≡ true → barred (some (f x)) ≡ true)
    → barred o ≡ true
    → barred (elim o [ none ↦ none | some a ↦ some (if p a then f a else a) ]) ≡ true
unfolding barred
barred_found none f p keep h = refl
barred_found (some a) f p keep h = elim (Bool-cases (p a)) [
  | inl e ↦ rw e (keep a h)
  | inr e ↦ rw e h
]

pub barred-update :
    (agent_id : ℕ) (agents : List Agent) (p : Agent → Bool) (f : Agent → Agent)
    → ((x : Agent) → (f x).id ≡ x.id)
    → ((x : Agent) → barred (some x) ≡ true → barred (some (f x)) ≡ true)
    → barred (find (agent_is agent_id) agents) ≡ true
    → barred (find (agent_is agent_id) (update p f agents)) ≡ true
barred-update agent_id agents p f keep stays h =
    rw (find-update p (agent_is agent_id) f agents (λ x. rw (keep x) refl))
      (barred_found (find (agent_is agent_id) agents) f p stays h)

module _ {Secret : Type 0} where
  pub expire_pending-Gone :
      (now agent_id g : ℕ) (db : Db Secret) → Gone g db → Gone g (expire_pending now agent_id db)
  unfolding expire_pending expire_rotation
  expire_pending-Gone now agent_id g db w =
      expired (find (pending_rotation_of agent_id) db.rotations)
    where
      expired : (o : Option AgentCredentialRotation) → Gone g (expire_rotation now o db)
      expired none = w
      expired (some rotation) = elim (Bool-cases (ltb now rotation.expires_at)) [
        | inl e ↦ rw e w
        | inr e ↦ rw e (Without-update g _ _ _ _ (λ x. refl) (λ x. ground arith) w)
      ]

  pub revoke_owned-Gone :
      (now agent_id actor_id g : ℕ) (o : Option AgentCredential) (db : Db Secret)
      → Gone g db
      → Gone g (revoke_owned now agent_id actor_id o db).1
  unfolding revoke_owned
  revoke_owned-Gone now agent_id actor_id g none db w = w
  revoke_owned-Gone now agent_id actor_id g (some c) db w =
      elim (Bool-cases (not (c.agent_id == agent_id))) [
        | inl e ↦ rw e w
        | inr e ↦ rw e (Without-update g _ _ _ _ (λ x. refl) (λ x. ground arith) w)
      ]

  pub revoke_all-Gone :
      (now actor_id g : ℕ) (o : Option Agent) (db : Db Secret)
      → Gone g db
      → Gone g (revoke_all now actor_id o db).1
  unfolding revoke_all barred
  revoke_all-Gone now actor_id g none db w = w
  revoke_all-Gone now actor_id g (some agent) db w =
      let kept =
        Without-update g db.protocol.agents db.credentials (live_of agent.id)
          (revoke_by now actor_id agent_revoked) (λ x. refl) (λ x. ground arith) w in
      record {
        ids = kept.ids;
        none_live = kept.none_live;
        is_barred =
            barred-update g db.protocol.agents (agent_is agent.id) (revoke_row now actor_id)
              (λ x. refl) (λ x h. refl) w.is_barred;
      }
