-- ===== src/Identity/Stuck.antt =====
-- The activation of a rotation that the backend refuses, and the starts after that.
use wi_fi_test_orchestrator.Prelude.{
  ℕ, ◌≡◌, refl, sym, subst, ap, ◌∙◌, Bool, true, false, not, ◌&&◌, some, List, [], ◌∷◌, is_none,
  is_some, All, arith, ◌⊎◌, inl, inr,
}
use wi_fi_test_orchestrator.Identity.{
  AgentIdentity, SecretStore, Local, Met, err, transport_failed, pending_stored,
  activation_uncertain, continue_with, secret_fits, read_raises, with_active, finalize_activated,
  activate_pending, rotate_from, rotate_found, rotate_credential,
}
use wi_fi_test_orchestrator.Identity.Finishing.{Available}

module _ {Secrets : Type 0} (store : SecretStore Secrets) (fingerprint : ℕ → ℕ) where
  -- The state that a run leaves: the last one that it wrote.
  abbrev pub latest : List (Local Secrets) → Local Secrets → Local Secrets
  latest [] s = s
  latest (x ∷ xs) s = latest xs x

  -- The runs of the starts of the agent, one for each of what they meet.
  unfoldable pub restarts : Bool → List Met → Local Secrets → Local Secrets
  restarts allow_insecure [] s = s
  restarts allow_insecure (met ∷ rest) s =
      restarts allow_insecure rest
        (latest (rotate_credential store fingerprint allow_insecure met s).0 s)

  abbrev pub IsRefused : Met → Type 0
  IsRefused met = met.activation_returns ≡ false

  -- The rotation is about to be activated, and the secret of the pending credential can be read.
  pub record PendingStored (s : Local Secrets) : Type 0 where
    pub identity : AgentIdentity
    pub found : s.identity ≡ some identity
    pub is_enrolled : is_some identity.agent_id ≡ true
    pub phase :
        (identity.rotation_state ≡ pending_stored)
        ⊎ (identity.rotation_state ≡ activation_uncertain)
    pub readable : read_raises store fingerprint identity.pending_credential_ref s.secrets ≡ false
    pub fits :
        secret_fits store fingerprint identity.pending_credential_ref
          identity.pending_credential_fingerprint s.secrets
        ≡ true

  abbrev pub uncertain : AgentIdentity → Secrets → Local Secrets
  uncertain identity secrets = record {
    identity = some (record identity { rotation_state = activation_uncertain });
    secrets = secrets;
  }

  abbrev pub switched : AgentIdentity → Secrets → Local Secrets
  switched identity secrets = record { identity = some (with_active identity); secrets = secrets }

  rotate_from-pending :
      (met : Met) (identity : AgentIdentity) (s : Local Secrets)
      → (identity.rotation_state ≡ pending_stored)
        ⊎ (identity.rotation_state ≡ activation_uncertain)
      → rotate_from store fingerprint met identity.rotation_state identity s
        ≡ activate_pending store fingerprint met identity s
  unfolding rotate_from
  rotate_from-pending met identity s (inl e) = rw e refl
  rotate_from-pending met identity s (inr e) = rw e refl

  rotate-pending :
      (allow_insecure : Bool) (met : Met) (s : Local Secrets) (p : PendingStored s)
      → (not store.secure && not allow_insecure) ≡ false
      → rotate_credential store fingerprint allow_insecure met s
        ≡ activate_pending store fingerprint met p.identity s
  unfolding rotate_credential rotate_found
  rotate-pending allow_insecure met s p e =
      let enrolled : is_none p.identity.agent_id ≡ false = ground (arith, p.is_enrolled) in
      rw e (
        subst
          (λ o.
            rotate_found store fingerprint met o s
            ≡ activate_pending store fingerprint met p.identity s)
          (sym p.found) (rw enrolled (rotate_from-pending met p.identity s p.phase)))

  refused :
      (allow_insecure : Bool) (met : Met) (s : Local Secrets) (p : PendingStored s)
      → (not store.secure && not allow_insecure) ≡ false
      → IsRefused met
      → rotate_credential store fingerprint allow_insecure met s
        ≡ (uncertain p.identity s.secrets ∷ [], err transport_failed)
  unfolding activate_pending continue_with
  refused allow_insecure met s p e r =
      rotate-pending allow_insecure met s p e ∙ rw (p.readable, p.fits, r) refl

  returned :
      (allow_insecure : Bool) (met : Met) (s : Local Secrets) (p : PendingStored s)
      → (not store.secure && not allow_insecure) ≡ false
      → met.activation_returns ≡ true
      → (rest : List (Local Secrets)) × ((rotate_credential store fingerprint allow_insecure met
            s).0
          ≡ uncertain p.identity s.secrets ∷ switched p.identity s.secrets ∷ rest)
  unfolding activate_pending continue_with
  returned allow_insecure met s p e r = (
    (finalize_activated store fingerprint (with_active p.identity)
        (switched p.identity s.secrets)).0,
    ap (λ run. run.0) (rotate-pending allow_insecure met s p e) ∙ rw (p.readable, p.fits, r) refl,
  )

  abbrev uncertain-PendingStored :
      (s : Local Secrets) (p : PendingStored s) → PendingStored (uncertain p.identity s.secrets)
  uncertain-PendingStored s p = record {
    identity = record (p.identity) { rotation_state = activation_uncertain };
    found = refl;
    is_enrolled = p.is_enrolled;
    phase = inr refl;
    readable = p.readable;
    fits = p.fits;
  }

  restarts-uncertain :
      (allow_insecure : Bool) (mets : List Met) (s : Local Secrets) (p : PendingStored s)
      → (not store.secure && not allow_insecure) ≡ false
      → All IsRefused mets
      → restarts allow_insecure mets (uncertain p.identity s.secrets)
        ≡ uncertain p.identity s.secrets
  unfolding restarts
  restarts-uncertain allow_insecure [] s p e all = refl
  restarts-uncertain allow_insecure (met ∷ mets) s p e all =
      rw (refused allow_insecure met _ (uncertain-PendingStored s p) e all.0)
        (restarts-uncertain allow_insecure mets s p e all.1)

  -- From a state in which the pending credential is stored, its activation possibly tried before, with
  -- its secret readable and of its fingerprint, the identity enrolled, and a store that is secure or
  -- allowed to be insecure. One or more starts at which the backend refuses the activation leave the
  -- rotation uncertain and change nothing else, and a further one raises. At a start at which the
  -- activation returns instead, the second state that is written names the pending credential as the
  -- active one, and its secret is there.
  pub restarts_resume :
      (allow_insecure : Bool) (met refusing returning : Met) (mets : List Met) (s : Local Secrets)
      (p : PendingStored s)
      → (not store.secure && not allow_insecure) ≡ false
      → All IsRefused (met ∷ mets)
      → IsRefused refusing
      → returning.activation_returns ≡ true
      → let s' = restarts allow_insecure (met ∷ mets) s in
        (s' ≡ uncertain p.identity s.secrets)
        × ((rotate_credential store fingerprint allow_insecure refusing s').1
            ≡ err transport_failed)
        × ((rest : List (Local Secrets)) × ((rotate_credential store fingerprint allow_insecure
                returning s').0
              ≡ s' ∷ switched p.identity s.secrets ∷ rest))
        × Available store fingerprint (switched p.identity s.secrets)
  unfolding restarts
  restarts_resume allow_insecure met refusing returning mets s p e all r t =
      let q = uncertain-PendingStored s p in
      let stays : restarts allow_insecure (met ∷ mets) s ≡ uncertain p.identity s.secrets =
        rw (refused allow_insecure met s p e all.0)
          (restarts-uncertain allow_insecure mets s p e all.1) in
      let resumes = returned allow_insecure returning _ q e t in
      (
        stays,
        rw stays (ap (λ run. run.1) (refused allow_insecure refusing _ q e r)),
        (resumes.0, rw stays resumes.1),
        record {
          identity = with_active p.identity;
          found = refl;
          is_enrolled = p.is_enrolled;
          fits = p.fits;
        },
      )
