-- ===== src/Identity/Finishing.antt =====
-- The last stages of a rotation keep the active credential available.
use wi_fi_test_orchestrator.Prelude.{
  ℕ, ◌≡◌, refl, ap, ◌∙◌, true, Option, none, some, List, arith, ==_refl, ==_iff, is_some, All,
  All-append, Bool-cases, inl, inr,
}
use wi_fi_test_orchestrator.Identity.{
  Ref, same_ref, active_ref, pending_ref, AgentIdentity, SecretStore, Local, Result, Run, Met, ok,
  err, activation_uncertain, continue_with, ensure_secret_absent, read_raises, secret_fits, cleared,
  differs, drop_previous, finalize_activated, with_active, activate_pending, value_fits, and_then,
  update_identity,
}

pub same_ref_refl : (a : Ref) → same_ref a a ≡ true
same_ref_refl (active_ref a) = ==_refl a
same_ref_refl (pending_ref a) = ==_refl a

pub same_ref_eq : (a b : Ref) → same_ref a b ≡ true → a ≡ b
same_ref_eq (active_ref a) (active_ref b) h = ap active_ref ((==_iff a b).0 h)
same_ref_eq (pending_ref a) (pending_ref b) h = ap pending_ref ((==_iff a b).0 h)
same_ref_eq (active_ref a) (pending_ref b) h = absurd (ground (arith, h))
same_ref_eq (pending_ref a) (active_ref b) h = absurd (ground (arith, h))

module _ {Secrets : Type 0} (store : SecretStore Secrets) (fingerprint : ℕ → ℕ) where
  -- The identity names a secret of the store, with the fingerprint that it has for it.
  pub record Available (s : Local Secrets) : Type 0 where
    pub identity : AgentIdentity
    pub found : s.identity ≡ some identity
    pub is_enrolled : is_some identity.agent_id ≡ true
    pub fits :
        secret_fits store fingerprint identity.active_credential_ref
          identity.active_credential_fingerprint s.secrets
        ≡ true

  abbrev pub Ends : Result (Local Secrets) → Type 0
  Ends (ok s) = Available s
  Ends (err e) = Unit

  abbrev pub Safe : Run Secrets → Type 0
  Safe run = All Available run.0 × Ends run.1

  continue_with-Safe :
      (written : List (Local Secrets)) (r : Result (Local Secrets))
      (next : Local Secrets → Run Secrets)
      → All Available written
      → Ends r
      → ((s : Local Secrets) → r ≡ ok s → Available s → Safe (next s))
      → Safe (continue_with written r next)
  unfolding continue_with
  continue_with-Safe written (ok s) next h e step =
      let rest = step s refl e in (All-append Available written (next s).0 h rest.0, rest.1)
  continue_with-Safe written (err e) next h t step = (h, tt)

  -- An identity that names the same active credential is written.
  renamed :
      (s : Local Secrets) (a : Available s) (identity : AgentIdentity)
      → identity.agent_id ≡ a.identity.agent_id
      → identity.active_credential_ref ≡ a.identity.active_credential_ref
      → identity.active_credential_fingerprint ≡ a.identity.active_credential_fingerprint
      → Available (record s { identity = some identity })
  renamed s a identity i r f = record {
    identity = identity;
    found = refl;
    is_enrolled = rw i a.is_enrolled;
    fits = rw (r, f) a.fits;
  }

  -- A secret that is written where there was none, or deleted under another key, leaves what fits.
  pub fits-put :
      (ref : Option Ref) (expected : Option ℕ) (key : Ref) (value : ℕ) (secrets : Secrets)
      → store.get key secrets ≡ none
      → secret_fits store fingerprint ref expected secrets ≡ true
      → secret_fits store fingerprint ref expected (store.put key value secrets) ≡ true
  unfolding secret_fits
  fits-put none expected key value secrets n h = absurd (ground (arith, h))
  fits-put (some ref) none key value secrets n h = absurd (ground (arith, h))
  fits-put (some ref) (some expected) key value secrets n h = elim (Bool-cases (same_ref ref key)) [
    | inl e ↦ absurd (ground (arith, h, ap (λ r. store.get r secrets) (same_ref_eq ref key e), n))
    | inr e ↦ ap (value_fits store fingerprint expected) (store.get-put ref key value secrets e) ∙ h
  ]

  fits-delete :
      (ref : Option Ref) (expected : Option ℕ) (key : Ref) (secrets : Secrets)
      → differs key ref ≡ true
      → secret_fits store fingerprint ref expected secrets ≡ true
      → secret_fits store fingerprint ref expected (store.delete key secrets) ≡ true
  unfolding secret_fits
  fits-delete none expected key secrets d h = absurd (ground (arith, h))
  fits-delete (some ref) none key secrets d h = absurd (ground (arith, h))
  fits-delete (some ref) (some expected) key secrets d h =
      ap (value_fits store fingerprint expected)
        (store.get-delete ref key secrets (ground (arith, d)))
      ∙ h

  -- Each stage, from a state whose active credential is available under the identity it is given.
  abbrev pub Held : AgentIdentity → Local Secrets → Type 0
  Held identity s =
      (is_some identity.agent_id ≡ true)
      × (secret_fits store fingerprint identity.active_credential_ref
            identity.active_credential_fingerprint s.secrets
          ≡ true)

  pub written :
      (identity : AgentIdentity) (s : Local Secrets)
      → Held identity s
      → Available (record s { identity = some identity })
  written identity s h = record { identity = identity; found = refl; is_enrolled = h.0; fits = h.1 }

  pub finalize_activated-Safe :
      (identity : AgentIdentity) (s : Local Secrets)
      → Held identity s
      → s.identity ≡ some identity
      → Safe (finalize_activated store fingerprint identity s)
  unfolding finalize_activated drop_previous ensure_secret_absent continue_with
  finalize_activated-Safe identity s h f = dropped identity.previous_credential_ref
    where
      end :
          (secrets : Secrets)
          → secret_fits store fingerprint identity.active_credential_ref
              identity.active_credential_fingerprint secrets
            ≡ true
          → Available (record { identity = some (cleared identity); secrets = secrets })
      end secrets fits = record {
        identity = cleared identity;
        found = refl;
        is_enrolled = h.0;
        fits = fits;
      }

      dropped :
          (o : Option Ref)
          → Safe (
              and_then
                (drop_previous store fingerprint o identity.active_credential_ref s)
                (update_identity (cleared identity)))
      dropped none = ((end s.secrets h.1, tt), end s.secrets h.1)
      dropped (some previous) =
          elim (Bool-cases (differs previous identity.active_credential_ref)) [
            | inr d ↦ rw d ((end s.secrets h.1, tt), end s.secrets h.1)
            | inl d ↦ elim (Bool-cases (store.get_raises previous s.secrets)) [
              | inl k ↦ rw (d, k) (tt, tt)
              | inr k ↦ elim (Bool-cases (is_some (store.get previous s.secrets))) [
                | inr g ↦ rw (d, k, g) ((end s.secrets h.1, tt), end s.secrets h.1)
                | inl g ↦
                    let fits =
                      fits-delete identity.active_credential_ref
                        identity.active_credential_fingerprint previous s.secrets d h.1 in
                    let deleted : Available
                        (record s { secrets = store.delete previous s.secrets }) =
                      record { identity = identity; found = f; is_enrolled = h.0; fits = fits } in
                    elim (Bool-cases (store.delete_raises previous s.secrets)) [
                      | inl x ↦ rw (d, k, g, x) ((deleted, tt), tt)
                      | inr x ↦
                          rw (d, k, g, x)
                            (
                              (deleted, (end (store.delete previous s.secrets) fits, tt)),
                              end (store.delete previous s.secrets) fits,
                            )
                    ]
              ]
            ]
          ]

  pub activate_pending-Safe :
      (met : Met) (identity : AgentIdentity) (s : Local Secrets)
      → Held identity s
      → Safe (activate_pending store fingerprint met identity s)
  unfolding activate_pending continue_with
  activate_pending-Safe met identity s h =
      elim (Bool-cases (read_raises store fingerprint identity.pending_credential_ref s.secrets)) [
        | inl k ↦ rw k (tt, tt)
        | inr k ↦
            elim (Bool-cases (
              secret_fits store fingerprint identity.pending_credential_ref
                identity.pending_credential_fingerprint s.secrets)) [
                  | inr p ↦ rw (k, p) (tt, tt)
                  | inl p ↦ elim (Bool-cases met.activation_returns) [
                    | inr r ↦
                        rw (k, p, r)
                          (
                            (
                              written (record identity { rotation_state = activation_uncertain }) s
                                  h,
                              tt,
                            ),
                            tt,
                          )
                    | inl r ↦
                        let rest =
                          finalize_activated-Safe (with_active identity)
                            (record s { identity = some (with_active identity) }) (h.0, p) refl in
                        rw (k, p, r)
                          (
                            (
                              written (record identity { rotation_state = activation_uncertain }) s
                                  h,
                              (written (with_active identity) s (h.0, p), rest.0),
                            ),
                            rest.1,
                          )
                  ]
                ]
      ]
