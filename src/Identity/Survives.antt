-- ===== src/Identity/Survives.antt =====
-- The active credential is available in every state that a rotation writes.
use wi_fi_test_orchestrator.Prelude.{
  ℕ, ◌≡◌, refl, sym, subst, Bool, not, ◌&&◌, Option, none, some, ◌==◌, is_none, is_some, Bool-cases,
  inl, inr,
}
use wi_fi_test_orchestrator.Identity.{
  Ref, pending_ref, AgentIdentity, SecretStore, Local, Met, RotationState, RotationResponse,
  no_rotation, requested, pending_stored, activation_uncertain, rotation_activated,
  identity_revoked, continue_with, ensure_found, ensure_secret_value, has_active_credential,
  activate_pending, with_pending, store_pending, request_pending, with_keys, rotate_from,
  rotate_found, rotate_credential, and_then, update_identity, read_raises,
}
use wi_fi_test_orchestrator.Identity.Finishing.{
  Available, Safe, Held, written, fits-put, activate_pending-Safe, finalize_activated-Safe,
}

module _ {Secrets : Type 0} (store : SecretStore Secrets) (fingerprint : ℕ → ℕ) where
  store_pending-Safe :
      (met : Met) (o : Option RotationResponse) (identity : AgentIdentity) (s : Local Secrets)
      → Held store fingerprint identity s
      → s.identity ≡ some identity
      → Safe store fingerprint (store_pending store fingerprint met o identity s)
  unfolding store_pending ensure_secret_value ensure_found continue_with
  store_pending-Safe met none identity s h f = (tt, tt)
  store_pending-Safe met (some response) identity s h f =
      elim (Bool-cases (store.get_raises key s.secrets)) [
        | inl k ↦ rw k (tt, tt)
        | inr k ↦ rw k (ensured (store.get key s.secrets) refl)
      ]
    where
      key : Ref
      key = pending_ref response.credential_id

      next : AgentIdentity
      next = with_pending store fingerprint response identity

      rest :
          (s' : Local Secrets)
          → Held store fingerprint identity s'
          → Safe store fingerprint
              (and_then (update_identity next s') (activate_pending store fingerprint met next))
      rest s' h' =
          let run =
            activate_pending-Safe store fingerprint met next (record s' { identity = some next })
              h' in
          ((written store fingerprint next s' h', run.0), run.1)

      ensured :
          (o : Option ℕ)
          → store.get key s.secrets ≡ o
          → Safe store fingerprint (
              and_then (ensure_found store fingerprint key response.credential o s) (λ s'.
                and_then (update_identity next s') (activate_pending store fingerprint met next)))
      ensured none n =
          let fits =
            fits-put store fingerprint identity.active_credential_ref
              identity.active_credential_fingerprint key response.credential s.secrets n h.1 in
          let stored = record s { secrets = store.put key response.credential s.secrets } in
          let run = rest stored (h.0, fits) in
          let put : Available store fingerprint stored = record {
            identity = identity;
            found = f;
            is_enrolled = h.0;
            fits = fits;
          } in
          elim (Bool-cases (store.put_raises key response.credential s.secrets)) [
            | inl x ↦ rw x ((put, tt), tt)
            | inr x ↦ rw x ((put, run.0), run.1)
          ]
      ensured (some current) n =
          elim (Bool-cases (fingerprint current == fingerprint response.credential)) [
            | inl e ↦ rw e (rest s h)
            | inr e ↦ rw e (tt, tt)
          ]

  request_pending-Safe :
      (met : Met) (identity : AgentIdentity) (s : Local Secrets)
      → Held store fingerprint identity s
      → s.identity ≡ some identity
      → Safe store fingerprint (request_pending store fingerprint met identity s)
  unfolding request_pending has_active_credential
  request_pending-Safe met identity s h f = elim (Bool-cases reads_fail) [
    | inl k ↦ rw k (tt, tt)
    | inr k ↦ elim (Bool-cases (has_active_credential store fingerprint identity s.secrets)) [
      | inr e ↦ rw (k, e) (tt, tt)
      | inl e ↦ rw (k, e) (store_pending-Safe met met.created identity s h f)
    ]
  ]
    where
      reads_fail : Bool
      reads_fail =
          is_some identity.agent_id
          && is_none identity.revoked_at
          && read_raises store fingerprint identity.active_credential_ref s.secrets

  rotate_from-Safe :
      (met : Met) (state : RotationState) (identity : AgentIdentity) (s : Local Secrets)
      → Held store fingerprint identity s
      → s.identity ≡ some identity
      → Safe store fingerprint (rotate_from store fingerprint met state identity s)
  unfolding rotate_from continue_with
  rotate_from-Safe met no_rotation identity s h f =
      let next = with_keys met identity in
      let run = request_pending-Safe met next (record s { identity = some next }) h refl in
      ((written store fingerprint next s h, run.0), run.1)
  rotate_from-Safe met requested identity s h f = request_pending-Safe met identity s h f
  rotate_from-Safe met pending_stored identity s h f =
      activate_pending-Safe store fingerprint met identity s h
  rotate_from-Safe met activation_uncertain identity s h f =
      activate_pending-Safe store fingerprint met identity s h
  rotate_from-Safe met rotation_activated identity s h f =
      finalize_activated-Safe store fingerprint identity s h f
  rotate_from-Safe met identity_revoked identity s h f =
      (tt, record { identity = identity; found = f; is_enrolled = h.0; fits = h.1 })

  rotate_found-Safe :
      (met : Met) (identity : AgentIdentity) (s : Local Secrets)
      → Held store fingerprint identity s
      → s.identity ≡ some identity
      → Safe store fingerprint (rotate_found store fingerprint met (some identity) s)
  unfolding rotate_found
  rotate_found-Safe met identity s h f = elim (Bool-cases (is_none identity.agent_id)) [
    | inl n ↦ rw n (tt, tt)
    | inr n ↦ rw n (rotate_from-Safe met identity.rotation_state identity s h f)
  ]

  -- From a state in which the identity is enrolled and names a secret of the store with the fingerprint
  -- that it has for it, every state that a rotation writes is such a state, whatever the transport
  -- and the secret store return or raise, and so is the one in which it ends without an exception.
  pub rotate_credential-Safe :
      (allow_insecure : Bool) (met : Met) (s : Local Secrets)
      → Available store fingerprint s
      → Safe store fingerprint (rotate_credential store fingerprint allow_insecure met s)
  unfolding rotate_credential
  rotate_credential-Safe allow_insecure met s a =
      elim (Bool-cases (not store.secure && not allow_insecure)) [
        | inl e ↦ rw e (tt, tt)
        | inr e ↦ rw e (
            subst (λ o. Safe store fingerprint (rotate_found store fingerprint met o s))
              (sym a.found) (rotate_found-Safe met a.identity s (a.is_enrolled, a.fits) a.found))
      ]
