-- ===== src/Backend/Credentials/Expires.antt =====
-- What a rotation that was created leaves, and what its expiry makes of it.
use wi_fi_test_orchestrator.Prelude.{
  ℕ, ◌+◌, ◌≡◌, refl, true, false, not, ◌&&◌, ◌==◌, Option, none, some, [], ◌∷◌, ◌++◌, arith, ltb,
  leb, is_some, ==_refl, Bool-cases, inl, inr,
}
use mathlib.Core.Option
use wi_fi_test_orchestrator.Prelude.Table.{
  find, update, find-append, find-update, update-append, update-none,
}
use wi_fi_test_orchestrator.Backend.Idempotency.{IdempotencyRecord, secret_window}
use wi_fi_test_orchestrator.Backend.Credentials.{
  CredentialState, AgentCredentialRotation, is_pending, expire_credential, RotationCreateResponse,
  Body, Db, AgentCredentialService, Fresh, ok, credential_is, rotation_is, rotation_minutes,
  pending_rotation_of, active_found, expire_pending, expire_rotation, pending, expired,
}
use wi_fi_test_orchestrator.Backend.Credentials.Rotation.{
  create_checked, store_rotation, rotation_taken, new_rotation, new_credential,
}

-- The states of the rotation and of the credential that a response names.
abbrev pub states_of :
    {Secret : Type 0}
    → RotationCreateResponse
    → Db Secret
    → Option CredentialState × Option CredentialState
states_of response db = (
  Option.map (λ r. r.state) (find (rotation_is response.rotation_id) db.rotations),
  Option.map (λ c. c.state) (find (credential_is response.credential_id) db.credentials),
)

module _ {Secret : Type 0} (service : AgentCredentialService Secret) where
  -- The two rows come last, and are the only ones with their identifiers; no other rotation of the
  -- agent is pending.
  pub record Created (drawn : Fresh) (now agent_id active_id : ℕ)
      (response : RotationCreateResponse) (db : Db Secret) : Type 0 where
    pub base : Db Secret
    pub rotations :
        db.rotations ≡ base.rotations ++ new_rotation service drawn now agent_id active_id ∷ []
    pub credentials :
        db.credentials ≡ base.credentials ++ new_credential service drawn now agent_id base ∷ []
    pub settled : find (pending_rotation_of agent_id) base.rotations ≡ none
    pub fresh_rotation : find (rotation_is drawn.rotation_id) base.rotations ≡ none
    pub fresh_credential : find (credential_is drawn.credential_id) base.credentials ≡ none
    pub names_rotation : response.rotation_id ≡ drawn.rotation_id
    pub names_credential : response.credential_id ≡ drawn.credential_id

  pub create_checked-Created :
      (drawn : Fresh) (now agent_id active_id : ℕ) (entry : IdempotencyRecord Body)
      (db before : Db Secret) (response : RotationCreateResponse)
      → (create_checked service drawn now agent_id active_id entry db before).0 ≡ ok response
      → Created drawn now agent_id active_id response
          (create_checked service drawn now agent_id active_id entry db before).1
  unfolding create_checked store_rotation
  create_checked-Created drawn now agent_id active_id entry db before response h =
      elim (Bool-cases (is_some (find (pending_rotation_of agent_id) db.rotations))) [
        | inl a ↦ absurd (ground (arith, h, a))
        | inr a ↦
            elim (Bool-cases (not (active_found (find (credential_is active_id) db.credentials)))) [
              | inl b ↦ absurd (ground (arith, h, a, b))
              | inr b ↦ elim (Bool-cases (rotation_taken service drawn agent_id db)) [
                | inl c ↦ absurd (ground (arith, h, a, b, c))
                | inr c ↦
                    rw (a, b, c)
                      (record {
                        base = db;
                        rotations = refl;
                        credentials = refl;
                        settled = ground (arith, a);
                        fresh_rotation = ground (arith, c);
                        fresh_credential = ground (arith, c);
                        names_rotation = ground (arith, h, a, b, c);
                        names_credential = ground (arith, h, a, b, c);
                      })
              ]
            ]
      ]

  pub before_expiry :
      (drawn : Fresh) (now agent_id active_id : ℕ) (response : RotationCreateResponse)
      (db : Db Secret)
      → Created drawn now agent_id active_id response db
      → (states_of response db ≡ (some pending, some pending))
        × (is_some (find (pending_rotation_of agent_id) db.rotations) ≡ true)
  unfolding find
  before_expiry drawn now agent_id active_id response db c =
      rw
        (
          c.names_rotation,
          c.names_credential,
          c.rotations,
          c.credentials,
          find-append (rotation_is drawn.rotation_id) c.base.rotations
              (new_rotation service drawn now agent_id active_id ∷ []),
          find-append (credential_is drawn.credential_id) c.base.credentials
              (new_credential service drawn now agent_id c.base ∷ []),
          find-append (pending_rotation_of agent_id) c.base.rotations
              (new_rotation service drawn now agent_id active_id ∷ []),
          c.fresh_rotation,
          c.fresh_credential,
          c.settled,
          ==_refl drawn.rotation_id,
          ==_refl drawn.credential_id,
          ==_refl agent_id,
        )
        (refl, refl)

  pub after_expiry :
      (drawn : Fresh) (now later agent_id active_id : ℕ) (response : RotationCreateResponse)
      (db : Db Secret)
      → Created drawn now agent_id active_id response db
      → leb (now + secret_window) later ≡ true
      → (states_of response (expire_pending later agent_id db) ≡ (some expired, some expired))
        × (is_some
              (find (pending_rotation_of agent_id) (expire_pending later agent_id db).rotations)
            ≡ false)
  unfolding expire_pending expire_rotation find update
  after_expiry drawn now later agent_id active_id response db c late =
      rw
        (
          c.names_rotation,
          c.names_credential,
          found,
          is_late,
          switched,
          find-update (λ x. x.id == drawn.credential_id && is_pending x.state)
              (credential_is drawn.credential_id) (expire_credential later) db.credentials
              (λ x. refl),
          c.credentials,
          find-append (rotation_is drawn.rotation_id) c.base.rotations (expired_rotation ∷ []),
          find-append (pending_rotation_of agent_id) c.base.rotations (expired_rotation ∷ []),
          find-append (credential_is drawn.credential_id) c.base.credentials
              (new_credential service drawn now agent_id c.base ∷ []),
          c.fresh_rotation,
          c.fresh_credential,
          c.settled,
          ==_refl drawn.rotation_id,
          ==_refl drawn.credential_id,
          ==_refl agent_id,
        )
        (rw (==_refl drawn.credential_id) refl, refl)
    where
      rotation : AgentCredentialRotation
      rotation = new_rotation service drawn now agent_id active_id

      expired_rotation : AgentCredentialRotation
      expired_rotation = record rotation { state = expired }

      found : find (pending_rotation_of agent_id) db.rotations ≡ some rotation
      found =
          rw
            (
              c.rotations,
              find-append (pending_rotation_of agent_id) c.base.rotations (rotation ∷ []),
              c.settled,
              ==_refl agent_id,
            )
            refl

      is_late : ltb later (now + rotation_minutes) ≡ false
      is_late = ground (arith, late)

      switched :
          update (rotation_is drawn.rotation_id) (λ r. record r { state = expired }) db.rotations
          ≡ c.base.rotations ++ expired_rotation ∷ []
      switched =
          rw
            (
              c.rotations,
              update-append (rotation_is drawn.rotation_id) (λ r. record r { state = expired })
                  c.base.rotations (rotation ∷ []),
              update-none (rotation_is drawn.rotation_id) (λ r. record r { state = expired })
                  c.base.rotations c.fresh_rotation,
              ==_refl drawn.rotation_id,
            )
            refl
