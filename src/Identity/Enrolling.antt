-- ===== src/Identity/Enrolling.antt =====
-- `enroll`, over `ensure_identity` of the store. The name of the device and the texts of its platform,
-- which are constant, are left out; so is the token, which is not kept.
use wi_fi_test_orchestrator.Prelude.{
  ℕ, ◌≡◌, refl, ap, subst, Bool, true, not, ◌&&◌, Option, none, some, List, [], ◌∷◌, false, sym,
  ◌==◌, ==_refl, is_some, if◌then◌else◌, All, Bool-cases, inl, inr,
}
use wi_fi_test_orchestrator.Identity.{
  active_ref, AgentIdentity, SecretStore, Local, Run, no_rotation, secure_store_unavailable,
  identity_not_enrolled, transport_failed, continue_with, and_then, raise, update_identity,
  ensure_secret_value, ensure_found, secret_fits,
}
use wi_fi_test_orchestrator.Identity.Finishing.{Ends}

pub record EnrollmentResponse : Type 0 where
  pub device_id : ℕ
  pub agent_id : ℕ
  pub protocol_version : ℕ
  pub server_received_at : ℕ
  pub credential : ℕ
  pub credential_id : ℕ
  pub credential_version : ℕ
  pub expires_at : ℕ

-- What the payload tells the transport of the row, which finds the enrollment again by its key.
pub record EnrollmentRequest : Type 0 where
  pub idempotency_key : ℕ
  pub installation_id : ℕ
  pub agent_reported_at : ℕ

-- What a run draws, and what the transport returns for a request, or that it raises.
pub record Enrollment : Type 0 where
  pub installation_id : ℕ
  pub idempotency_key : ℕ
  pub reported_at : ℕ
  pub response : EnrollmentRequest → Option EnrollmentResponse

-- The row that `ensure_identity` inserts.
abbrev pub new_identity : Enrollment → AgentIdentity
new_identity enrollment = record {
  installation_id = enrollment.installation_id;
  enrollment_idempotency_key = enrollment.idempotency_key;
  enrollment_reported_at = enrollment.reported_at;
  device_id = none;
  protocol_version = none;
  enrolled_at = none;
  agent_id = none;
  revoked_at = none;
  active_credential_id = none;
  active_credential_version = none;
  active_credential_fingerprint = none;
  active_credential_ref = none;
  active_credential_expires_at = none;
  previous_credential_id = none;
  previous_credential_ref = none;
  pending_credential_id = none;
  pending_credential_version = none;
  pending_credential_fingerprint = none;
  pending_credential_ref = none;
  pending_credential_expires_at = none;
  rotation_id = none;
  rotation_idempotency_key = none;
  activation_idempotency_key = none;
  rotation_state = no_rotation;
}

-- `payload`
abbrev pub request_of : AgentIdentity → EnrollmentRequest
request_of identity = record {
  idempotency_key = identity.enrollment_idempotency_key;
  installation_id = identity.installation_id;
  agent_reported_at = identity.enrollment_reported_at;
}

-- What a start sends: what the row has, or what it draws if there is none.
abbrev pub sent_request : Enrollment → Option AgentIdentity → EnrollmentRequest
sent_request enrollment none = record {
  idempotency_key = enrollment.idempotency_key;
  installation_id = enrollment.installation_id;
  agent_reported_at = enrollment.reported_at;
}
sent_request enrollment (some identity) = request_of identity

module _ {Secrets : Type 0} (store : SecretStore Secrets) (fingerprint : ℕ → ℕ) where
  abbrev pub with_credential : EnrollmentResponse → AgentIdentity → AgentIdentity
  with_credential response identity = record identity {
    device_id = some response.device_id;
    agent_id = some response.agent_id;
    protocol_version = some response.protocol_version;
    enrolled_at = some response.server_received_at;
    active_credential_id = some response.credential_id;
    active_credential_version = some response.credential_version;
    active_credential_fingerprint = some (fingerprint response.credential);
    active_credential_ref = some (active_ref response.credential_id);
    active_credential_expires_at = some response.expires_at;
    rotation_state = no_rotation;
  }

  -- The statements after the call of the transport.
  unfoldable pub enroll_sent :
      Option EnrollmentResponse → AgentIdentity → Local Secrets → Run Secrets
  unfolding ensure_secret_value
  enroll_sent none identity s = raise transport_failed
  enroll_sent (some response) identity s =
      and_then
        (ensure_secret_value store fingerprint (active_ref response.credential_id)
          response.credential s)
        (update_identity (with_credential response identity))

  unfoldable pub enroll_found : Enrollment → Option AgentIdentity → Local Secrets → Run Secrets
  unfolding enroll_sent
  enroll_found enrollment none s = and_then (update_identity (new_identity enrollment) s) (
      enroll_sent (enrollment.response (request_of (new_identity enrollment)))
        (new_identity enrollment))
  enroll_found enrollment (some identity) s =
      if is_some identity.agent_id
      then raise identity_not_enrolled
      else enroll_sent (enrollment.response (request_of identity)) identity s

  unfoldable pub enroll : Bool → Enrollment → Local Secrets → Run Secrets
  unfolding enroll_found
  enroll allow_insecure_development_store enrollment s =
      if not store.secure && not allow_insecure_development_store
      then raise secure_store_unavailable
      else enroll_found enrollment s.identity s

  -- The row has the request.
  abbrev HasRequest : EnrollmentRequest → Local Secrets → Type 0
  HasRequest request s =
      (identity : AgentIdentity) × (s.identity ≡ some identity) × (request_of identity ≡ request)

  -- A run of which every state has the request, and that ends with an available credential or raises.
  abbrev Enrolls : EnrollmentRequest → Run Secrets → Type 0
  Enrolls request run = All (HasRequest request) run.0 × Ends store fingerprint run.1

  ensured-Enrolls :
      (response : EnrollmentResponse) (identity : AgentIdentity) (o : Option ℕ) (s : Local Secrets)
      → s.identity ≡ some identity
      → store.get (active_ref response.credential_id) s.secrets ≡ o
      → Enrolls (request_of identity) (
          and_then
            (ensure_found store fingerprint
              (active_ref response.credential_id)
              response.credential
              o
              s)
            (update_identity (with_credential response identity)))
  unfolding ensure_found continue_with secret_fits
  ensured-Enrolls response identity none s f n =
      let ref = active_ref response.credential_id in
      elim (Bool-cases (store.put_raises ref response.credential s.secrets)) [
        | inl x ↦ rw x (((identity, f, refl), tt), tt)
        | inr x ↦ rw x (
          ((identity, f, refl), ((with_credential response identity, refl, refl), tt)),
          record {
            identity = with_credential response identity;
            found = refl;
            is_enrolled = refl;
            fits =
                rw (store.get-put_same ref response.credential s.secrets x)
                  (==_refl (fingerprint response.credential));
          },
        )
      ]
  ensured-Enrolls response identity (some current) s f n =
      elim (Bool-cases (fingerprint current == fingerprint response.credential)) [
        | inr d ↦ rw d (tt, tt)
        | inl d ↦ rw d (
          ((with_credential response identity, refl, refl), tt),
          record {
            identity = with_credential response identity;
            found = refl;
            is_enrolled = refl;
            fits = rw n d;
          },
        )
      ]

  enroll_sent-Enrolls :
      (o : Option EnrollmentResponse) (identity : AgentIdentity) (s : Local Secrets)
      → s.identity ≡ some identity
      → Enrolls (request_of identity) (enroll_sent o identity s)
  unfolding enroll_sent ensure_secret_value continue_with
  enroll_sent-Enrolls none identity s f = (tt, tt)
  enroll_sent-Enrolls (some response) identity s f =
      let ref = active_ref response.credential_id in
      elim (Bool-cases (store.get_raises ref s.secrets)) [
        | inl k ↦ rw k (tt, tt)
        | inr k ↦ rw k (ensured-Enrolls response identity (store.get ref s.secrets) s f refl)
      ]

  enroll_found-Enrolls :
      (enrollment : Enrollment) (o : Option AgentIdentity) (s : Local Secrets)
      → s.identity ≡ o
      → Enrolls (sent_request enrollment o) (enroll_found enrollment o s)
  unfolding enroll_found continue_with
  enroll_found-Enrolls enrollment none s f =
      let row = new_identity enrollment in
      let sent =
        enroll_sent-Enrolls (enrollment.response (request_of row)) row
          (record s { identity = some row }) refl in
      (((row, refl, refl), sent.0), sent.1)
  enroll_found-Enrolls enrollment (some identity) s f =
      elim (Bool-cases (is_some identity.agent_id)) [
        | inl a ↦ rw a (tt, tt)
        | inr a ↦
            rw a (enroll_sent-Enrolls (enrollment.response (request_of identity)) identity s f)
      ]

  -- A later start goes on with the row that it finds: it refuses one that is enrolled, and else it
  -- sends the request.
  abbrev pub Resumes : Bool → Enrollment → EnrollmentRequest → Local Secrets → Type 0
  Resumes allow_insecure later request s =
      (identity : AgentIdentity) × (s.identity ≡ some identity)
      × (enroll allow_insecure later s ≡ (
          if is_some identity.agent_id
          then raise identity_not_enrolled
          else enroll_sent (later.response request) identity s))

  HasRequest-Resumes :
      (allow_insecure : Bool) (later : Enrollment) (request : EnrollmentRequest) (s : Local Secrets)
      → (not store.secure && not allow_insecure) ≡ false
      → HasRequest request s
      → Resumes allow_insecure later request s
  unfolding enroll enroll_found
  HasRequest-Resumes allow_insecure later request s a (identity, f, e) = (
    identity,
    f,
    rw a (
        subst
          (λ o. enroll_found later o s ≡ (
            if is_some identity.agent_id
            then raise identity_not_enrolled
            else enroll_sent (later.response request) identity s))
          (sym f)
          (ap
            (λ r.
              if is_some identity.agent_id
              then raise identity_not_enrolled
              else enroll_sent (later.response r) identity s)
            e)),
  )

  All-Resumes :
      (allow_insecure : Bool) (later : Enrollment) (request : EnrollmentRequest)
      (xs : List (Local Secrets))
      → (not store.secure && not allow_insecure) ≡ false
      → All (HasRequest request) xs
      → All (Resumes allow_insecure later request) xs
  All-Resumes allow_insecure later request [] a h = tt
  All-Resumes allow_insecure later request (x ∷ xs) a h = (
    HasRequest-Resumes allow_insecure later request x a h.0,
    All-Resumes allow_insecure later request xs a h.1,
  )

  enroll-refused :
      (allow_insecure : Bool) (enrollment : Enrollment) (s : Local Secrets)
      → (not store.secure && not allow_insecure) ≡ true
      → enroll allow_insecure enrollment s ≡ raise secure_store_unavailable
  unfolding enroll
  enroll-refused allow_insecure enrollment s a = rw a refl

  enroll-allowed :
      (allow_insecure : Bool) (enrollment : Enrollment) (s : Local Secrets)
      → (not store.secure && not allow_insecure) ≡ false
      → enroll allow_insecure enrollment s ≡ enroll_found enrollment s.identity s
  unfolding enroll
  enroll-allowed allow_insecure enrollment s a = rw a refl

  -- An enrollment that ends without an exception leaves an enrolled identity that names a secret of the
  -- store with the fingerprint that it has for it. A later start from any state that the enrollment
  -- wrote, whether it ended or raised or was cut off, with insecure stores allowed or not as before,
  -- raises if the row is enrolled already, and else sends the same idempotency key, installation and time of report as this one, whatever it draws: the
  -- ones that were stored before, or the drawn ones if there was no row.
  pub enroll-Resumes :
      (allow_insecure : Bool) (enrollment later : Enrollment) (s : Local Secrets)
      → All
          (Resumes allow_insecure later (sent_request enrollment s.identity))
          (enroll allow_insecure enrollment s).0
        × Ends store fingerprint (enroll allow_insecure enrollment s).1
  enroll-Resumes allow_insecure enrollment later s =
      elim (Bool-cases (not store.secure && not allow_insecure)) [
        | inl a ↦ subst kept (sym (enroll-refused allow_insecure enrollment s a)) (tt, tt)
        | inr a ↦
            let run = enroll_found-Enrolls enrollment s.identity s refl in
            subst kept (sym (enroll-allowed allow_insecure enrollment s a)) (
              All-Resumes allow_insecure later (sent_request enrollment s.identity)
                  (enroll_found enrollment s.identity s).0 a run.0,
              run.1,
            )
      ]
    where
      kept : Run Secrets → Type 0
      kept run =
          All (Resumes allow_insecure later (sent_request enrollment s.identity)) run.0
          × Ends store fingerprint run.1
