-- ===== src/Backend/Idempotency/Replay.antt =====
-- What a repeated request meets.
use wi_fi_test_orchestrator.Prelude.{
  ℕ, ◌+◌, ◌≡◌, refl, Bool, true, false, none, some, [], ◌∷◌, ◌++◌, ◌==◌, ==_refl, leb,
  if◌then◌else◌,
}
use wi_fi_test_orchestrator.Prelude.Table.{find, update, find-append, find-update}
use wi_fi_test_orchestrator.Backend.Idempotency.{
  Scope, same_scope, Cipher, Tables, ok, err, idempotency_conflict, secret_replay_expired, in_scope,
  has_id, replay_of, secret_window, new_record, begin, begin_by, begin_known, replay, replay_secret,
  replay_public, start_with, complete_with, complete_public, complete_secret,
}

same_scope_refl : (a : Scope) → same_scope a a ≡ true
same_scope_refl a =
    rw
      (
        ==_refl a.principal_type,
        ==_refl a.principal_id,
        ==_refl a.operation_id,
        ==_refl a.idempotency_key,
      )
      refl

module _ {Body Secret : Type 0} (cipher : Cipher Body Secret) where
  -- The tables after a first `begin`.
  abbrev begun : ℕ → ℕ → Scope → ℕ → Tables Body Secret → Tables Body Secret
  begun now id scope fingerprint t = record t {
    records = t.records ++ new_record cipher now id scope fingerprint ∷ [];
  }

  begin_new :
      (now id : ℕ) (scope : Scope) (fingerprint : ℕ) (secret_response : Bool)
      (t : Tables Body Secret)
      → find (in_scope scope) t.records ≡ none
      → (begin cipher now id scope fingerprint secret_response t).1
        ≡ begun now id scope fingerprint t
  unfolding begin begin_by
  begin_new now id scope fingerprint secret_response t h = rw h refl

  pub begin_fresh :
      (now id : ℕ) (scope : Scope) (fingerprint : ℕ) (secret_response : Bool)
      (t : Tables Body Secret)
      → find (in_scope scope) t.records ≡ none
      → (begin cipher now id scope fingerprint secret_response t).0
        ≡ ok (record {
          entry = new_record cipher now id scope fingerprint;
          replay_body = none;
          replay_status = none;
          is_new = true;
        })
  unfolding begin begin_by
  begin_fresh now id scope fingerprint secret_response t h = rw h refl

  find-begun :
      (now id : ℕ) (scope : Scope) (fingerprint : ℕ) (t : Tables Body Secret)
      → find (in_scope scope) t.records ≡ none
      → find (in_scope scope) (begun now id scope fingerprint t).records
        ≡ some (new_record cipher now id scope fingerprint)
  unfolding find
  find-begun now id scope fingerprint t h =
      rw (find-append (in_scope scope) t.records, h, same_scope_refl scope) refl

  find-completed :
      (now now' id : ℕ) (scope : Scope) (fingerprint : ℕ) (body : Body) (status : ℕ)
      (t : Tables Body Secret)
      → find (in_scope scope) t.records ≡ none
      → find (in_scope scope) (
          update
            (has_id id)
            (complete_with cipher now' body status)
            (begun now id scope fingerprint t).records)
        ≡ some (complete_with cipher now' body status (new_record cipher now id scope fingerprint))
  find-completed now now' id scope fingerprint body status t h =
      rw
        (
          find-update (has_id id) (in_scope scope) (complete_with cipher now' body status)
              (begun now id scope fingerprint t).records (λ x. refl),
          find-begun now id scope fingerprint t h,
          ==_refl id,
        )
        refl

  -- A first request of a scope without a record is new. Once it is completed, the same request is
  -- answered by the same body and status at any later time and changes no table.
  pub begin-complete_public :
      (now now' later id id' : ℕ) (scope : Scope) (fingerprint : ℕ) (body : Body) (status : ℕ)
      (t : Tables Body Secret)
      → find (in_scope scope) t.records ≡ none
      → let first = new_record cipher now id scope fingerprint in
        let t' =
          complete_public cipher now' first body status
            (begin cipher now id scope fingerprint false t).1 in
        ((begin cipher now id scope fingerprint false t).0
          ≡ ok (record { entry = first; replay_body = none; replay_status = none; is_new = true }))
        × (begin cipher later id' scope fingerprint false t' ≡ (
          ok (record {
            entry = complete_with cipher now' body status first;
            replay_body = some body;
            replay_status = some status;
            is_new = false;
          }),
          t',
        ))
  unfolding begin begin_by begin_known replay replay_public complete_public
  begin-complete_public now now' later id id' scope fingerprint body status t h =
      rw (h, find-completed now now' id scope fingerprint body status t h, ==_refl fingerprint)
        (refl, refl)

  -- After a first request of a scope without a record, a request of the scope with another
  -- fingerprint is a conflict, whether the first is completed or not, and changes no table.
  pub begin-conflict :
      (now now' later id id' : ℕ) (scope : Scope) (fingerprint other : ℕ) (secret_response : Bool)
      (body : Body) (status : ℕ) (t : Tables Body Secret)
      → find (in_scope scope) t.records ≡ none
      → (fingerprint == other) ≡ false
      → let t' = (begin cipher now id scope fingerprint secret_response t).1 in
        let t'' =
          complete_public cipher now' (new_record cipher now id scope fingerprint) body status t' in
        (begin cipher later id' scope other secret_response t' ≡ (err idempotency_conflict, t'))
        × (begin cipher later id' scope other secret_response t'' ≡ (err idempotency_conflict, t''))
  unfolding begin begin_by begin_known complete_public
  begin-conflict now now' later id id' scope fingerprint other secret_response body status t h d =
      rw
        (
          h,
          find-begun now id scope fingerprint t h,
          find-completed now now' id scope fingerprint body status t h,
          d,
        )
        (refl, refl)

  -- For a scope without a record and a record identifier without a replay: once a first request was
  -- completed with a secret response, the same request is answered by it until 15 minutes after the
  -- completion, and is refused as expired from then on; it changes no table.
  pub begin-complete_secret :
      (now now' later id id' : ℕ) (scope : Scope) (fingerprint : ℕ) (body : Body) (status : ℕ)
      (t : Tables Body Secret)
      → find (in_scope scope) t.records ≡ none
      → find (replay_of id) t.replays ≡ none
      → let first = new_record cipher now id scope fingerprint in
        let t' =
          complete_secret cipher now' first body status
            (begin cipher now id scope fingerprint true t).1 in
        begin cipher later id' scope fingerprint true t' ≡ (
          (if leb (now' + secret_window) later
              then err secret_replay_expired
              else ok (record {
                entry = complete_with cipher now' cipher.secret_marker status first;
                replay_body = some body;
                replay_status = some status;
                is_new = false;
              })),
          t',
        )
  unfolding begin begin_by begin_known replay replay_secret start_with complete_secret find
  begin-complete_secret now now' later id id' scope fingerprint body status t h r =
      rw
        (
          h,
          find-completed now now' id scope fingerprint cipher.secret_marker status t h,
          ==_refl fingerprint,
          find-append (replay_of id) t.replays,
          r,
          ==_refl id,
          cipher.decrypt-encrypt body id,
        )
        refl
