-- ===== src/Identity/Revoking.antt =====
-- `mark_revoked`, `mark_revoked_async` and `purge_local_identity`, which delete the secrets of a device:
-- the synchronous and the asynchronous one write the same states.
use wi_fi_test_orchestrator.Prelude.{
  ℕ, ◌≡◌, refl, sym, subst, ap, Bool, true, Option, none, some, arith, is_none, is_some, coalesce,
  ◌&&◌, false, List, ◌∷◌, All, All-append, ◌⊎◌, Bool-cases, inl, inr,
}
use wi_fi_test_orchestrator.Identity.{
  Ref, same_ref, AgentIdentity, SecretStore, Local, Run, Result, ok, err, secret_store_failed,
  identity_revoked, continue_with, and_then, stay, write, update_identity, ensure_secret_absent,
}
use wi_fi_test_orchestrator.Identity.Finishing.{same_ref_eq}

abbrev pub revoking : ℕ → AgentIdentity → AgentIdentity
revoking now identity = record identity {
  revoked_at = some (coalesce identity.revoked_at now);
  rotation_state = identity_revoked;
}

abbrev pub without_refs : AgentIdentity → AgentIdentity
without_refs identity = record identity {
  active_credential_ref = none;
  pending_credential_ref = none;
  previous_credential_ref = none;
  rotation_state = identity_revoked;
}

module _ {Secrets : Type 0} (store : SecretStore Secrets) (fingerprint : ℕ → ℕ) where
  unfoldable pub delete_ref : Option Ref → Local Secrets → Run Secrets
  unfolding ensure_secret_absent
  delete_ref none s = stay s
  delete_ref (some ref) s = ensure_secret_absent store fingerprint ref s

  -- The loop over the three fields.
  unfoldable pub delete_refs : AgentIdentity → Local Secrets → Run Secrets
  unfolding delete_ref
  delete_refs identity s = and_then (delete_ref identity.active_credential_ref s) (λ s₁.
      and_then (delete_ref identity.pending_credential_ref s₁)
        (delete_ref identity.previous_credential_ref))

  unfoldable pub mark_revoked_found : ℕ → Option AgentIdentity → Local Secrets → Run Secrets
  unfolding delete_refs
  mark_revoked_found now none s = stay s
  mark_revoked_found now (some identity) s =
      and_then (update_identity (revoking now identity) s) (λ s₁.
        and_then (delete_refs identity s₁) (update_identity (without_refs (revoking now identity))))

  unfoldable pub mark_revoked : ℕ → Local Secrets → Run Secrets
  unfolding mark_revoked_found
  mark_revoked now s = mark_revoked_found now s.identity s

  unfoldable pub purge_found : Option AgentIdentity → Local Secrets → Run Secrets
  unfolding delete_refs
  purge_found none s = stay s
  purge_found (some identity) s = delete_refs identity s

  -- `purge_local_identity`, whose last statement deletes the row of the identity.
  unfoldable pub purge_local_identity : Local Secrets → Run Secrets
  unfolding purge_found
  purge_local_identity s =
      and_then (purge_found s.identity s) (λ s'. write (record s' { identity = none }))

  -- No secret is kept under the reference.
  abbrev pub is_gone : Option Ref → Secrets → Bool
  is_gone none secrets = true
  is_gone (some ref) secrets = is_none (store.get ref secrets)

  -- No secret is kept under the three references of an identity.
  abbrev pub all_gone : AgentIdentity → Secrets → Bool
  all_gone identity secrets =
      is_gone identity.active_credential_ref secrets
      && is_gone identity.pending_credential_ref secrets
      && is_gone identity.previous_credential_ref secrets

  -- A read or a deletion of the secret store that raises.
  abbrev pub Fails : Type 0
  Fails =
      (ref : Ref) × (secrets : Secrets) × ((store.get_raises ref secrets ≡ true)
        ⊎ (store.delete_raises ref secrets ≡ true))

  -- A run of deletions leaves the row; it ends where a test of the secrets holds, or raises as the
  -- secret store does.
  abbrev Stops : Option AgentIdentity → (Secrets → Bool) → Result (Local Secrets) → Type 0
  Stops row goal (ok e) = (e.identity ≡ row) × (goal e.secrets ≡ true)
  Stops row goal (err e) = (e ≡ secret_store_failed) × Fails

  abbrev HasRow : Option AgentIdentity → Local Secrets → Type 0
  HasRow row s = s.identity ≡ row

  abbrev Deletes : Option AgentIdentity → (Secrets → Bool) → Run Secrets → Type 0
  Deletes row goal run = All (HasRow row) run.0 × Stops row goal run.1

  and_then-Deletes :
      (row : Option AgentIdentity) (first second : Secrets → Bool) (xs : List (Local Secrets))
      (r : Result (Local Secrets)) (next : Local Secrets → Run Secrets)
      → All (HasRow row) xs
      → Stops row first r
      → ((s : Local Secrets)
          → s.identity ≡ row
          → first s.secrets ≡ true
          → Deletes row second (next s))
      → Deletes row second (continue_with xs r next)
  unfolding continue_with
  and_then-Deletes row first second xs (ok s) next h e step =
      let rest = step s e.0 e.1 in (All-append (HasRow row) xs (next s).0 h rest.0, rest.1)
  and_then-Deletes row first second xs (err e) next h x step = (h, x)

  -- What is gone stays so when a reference is deleted.
  is_gone-delete :
      (o : Option Ref) (ref : Ref) (secrets : Secrets)
      → store.delete_raises ref secrets ≡ false
      → is_gone o secrets ≡ true
      → is_gone o (store.delete ref secrets) ≡ true
  is_gone-delete none ref secrets x h = refl
  is_gone-delete (some other) ref secrets x h = elim (Bool-cases (same_ref other ref)) [
    | inl q ↦ rw (same_ref_eq other ref q, store.get-delete_same ref secrets x) refl
    | inr q ↦ rw (store.get-delete other ref secrets q) h
  ]

  delete_ref-Deletes :
      (row : Option AgentIdentity) (o a b : Option Ref) (s : Local Secrets)
      → s.identity ≡ row
      → is_gone a s.secrets ≡ true
      → is_gone b s.secrets ≡ true
      → Deletes row (λ x. is_gone a x && is_gone b x && is_gone o x) (delete_ref o s)
  unfolding delete_ref ensure_secret_absent
  delete_ref-Deletes row none a b s f ha hb = (tt, (f, rw (ha, hb) refl))
  delete_ref-Deletes row (some ref) a b s f ha hb =
      elim (Bool-cases (store.get_raises ref s.secrets)) [
        | inl k ↦ rw k (tt, (refl, (ref, s.secrets, inl k)))
        | inr k ↦ elim (Bool-cases (is_some (store.get ref s.secrets))) [
          | inr g ↦ rw (k, g) (tt, (f, rw (ha, hb) (ground (arith, g))))
          | inl g ↦ elim (Bool-cases (store.delete_raises ref s.secrets)) [
            | inl x ↦ rw (k, g, x) ((f, tt), (refl, (ref, s.secrets, inr x)))
            | inr x ↦
                rw (k, g, x)
                  (
                    (f, tt),
                    (
                      f,
                      rw
                          (
                            is_gone-delete a ref s.secrets x ha,
                            is_gone-delete b ref s.secrets x hb,
                            store.get-delete_same ref s.secrets x,
                          )
                          refl,
                    ),
                  )
          ]
        ]
      ]

  delete_refs-Deletes :
      (row : Option AgentIdentity) (identity : AgentIdentity) (s : Local Secrets)
      → s.identity ≡ row
      → Deletes row (all_gone identity) (delete_refs identity s)
  unfolding delete_refs
  delete_refs-Deletes row identity s f =
      let a = identity.active_credential_ref in
      let p = identity.pending_credential_ref in
      let v = identity.previous_credential_ref in
      let first = delete_ref-Deletes row a none none s f refl refl in
      and_then-Deletes row (is_gone a) (all_gone identity) (delete_ref a s).0 (delete_ref a s).1 _
        first.0 first.1
        (λ s₁ e₁ h₁.
          let second = delete_ref-Deletes row p none a s₁ e₁ refl h₁ in
          and_then-Deletes row (λ x. is_gone a x && is_gone p x) (all_gone identity)
            (delete_ref p s₁).0 (delete_ref p s₁).1 _ second.0 second.1
            (λ s₂ e₂ h₂.
              delete_ref-Deletes row v a p s₂ e₂ (ground (arith, h₂)) (ground (arith, h₂))))

  -- The row `end` is written and the three references are gone, or a call of the secret store raises
  -- and every state that was written has the row `kept`.
  abbrev pub Emptied :
      AgentIdentity → Option AgentIdentity → Option AgentIdentity → Run Secrets → Type 0
  Emptied identity kept end run =
      ((e : Local Secrets) × (run.1 ≡ ok e)
        × (e.identity ≡ end)
        × (all_gone identity e.secrets ≡ true))
      ⊎ ((run.1 ≡ err secret_store_failed) × Fails × All (λ s. s.identity ≡ kept) run.0)

  and_then-Emptied :
      (identity : AgentIdentity) (kept end : Option AgentIdentity) (xs : List (Local Secrets))
      (r : Result (Local Secrets))
      → All (HasRow kept) xs
      → Stops kept (all_gone identity) r
      → Emptied identity kept end (continue_with xs r (λ s'. write (record s' { identity = end })))
  unfolding continue_with
  and_then-Emptied identity kept end xs (ok e) h stops =
      inl (record e { identity = end }, refl, refl, stops.1)
  and_then-Emptied identity kept end xs (err e) h stops = inr (ap err stops.0, stops.1, h)

  mark_revoked_found-Emptied :
      (now : ℕ) (identity : AgentIdentity) (s : Local Secrets)
      → (rest : Run Secrets) × (mark_revoked_found now (some identity) s
          ≡ (record s { identity = some (revoking now identity) } ∷ rest.0, rest.1))
        × Emptied identity
            (some (revoking now identity))
            (some (without_refs (revoking now identity)))
            rest
  unfolding mark_revoked_found continue_with
  mark_revoked_found-Emptied now identity s =
      let row = some (revoking now identity) in
      let s₁ = record s { identity = row } in
      let run = delete_refs-Deletes row identity s₁ refl in
      (
        and_then (delete_refs identity s₁) (update_identity (without_refs (revoking now identity))),
        refl,
        and_then-Emptied identity row (some (without_refs (revoking now identity)))
            (delete_refs identity s₁).0 (delete_refs identity s₁).1 run.0 run.1,
      )

  -- From a state with an identity. The revocation first writes the row revoked, at the time of an
  -- earlier revocation if there was one. Then it ends with the row revoked and without references, and
  -- no secret is kept under any of the three references that the identity had; or a call of the secret
  -- store raises, so does the revocation, and in every state that it wrote the row is revoked and keeps
  -- its references. The purge ends without a row and without those secrets, or raises as the secret
  -- store does, and in every state that it wrote the row is as it was.
  pub deletes_secrets :
      (now : ℕ) (identity : AgentIdentity) (s : Local Secrets)
      → s.identity ≡ some identity
      → ((rest : Run Secrets) × (mark_revoked now s
            ≡ (record s { identity = some (revoking now identity) } ∷ rest.0, rest.1))
          × Emptied identity
              (some (revoking now identity))
              (some (without_refs (revoking now identity)))
              rest)
        × Emptied identity (some identity) none (purge_local_identity s)
  unfolding mark_revoked purge_local_identity purge_found
  deletes_secrets now identity s f =
      let purged = delete_refs-Deletes (some identity) identity s f in
      (
        subst
            (λ o.
              (rest : Run Secrets) × (mark_revoked_found now o s
                ≡ (record s { identity = some (revoking now identity) } ∷ rest.0, rest.1))
              × Emptied identity (some (revoking now identity))
                  (some (without_refs (revoking now identity))) rest)
            (sym f) (mark_revoked_found-Emptied now identity s),
        subst
            (λ o.
              Emptied identity (some identity) none
                (and_then (purge_found o s) (λ s'. write (record s' { identity = none }))))
            (sym f)
            (and_then-Emptied identity (some identity) none (delete_refs identity s).0
              (delete_refs identity s).1 purged.0 purged.1),
      )
