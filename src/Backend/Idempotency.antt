-- ===== src/Backend/Idempotency.antt =====
-- backend/src/wto_backend/services/idempotency.py. The texts of a scope and the identifiers are
-- naturals, times and windows are in seconds. A method leaves the session's tables as they are at
-- its return or raise: it commits nothing.
pub mod Replay
pub mod Tests
use wi_fi_test_orchestrator.Prelude.{
  ℕ, ◌+◌, ◌*◌, ◌≡◌, Bool, true, false, not, ◌&&◌, Option, none, some, List, [], ◌∷◌, ◌++◌, ◌==◌,
  leb, if◌then◌else◌,
}
use wi_fi_test_orchestrator.Prelude.Table.{find, update}

-- The columns of the unique constraint `uq_idempotency_records_scope`.
pub record Scope : Type 0 where
  pub principal_type : ℕ
  pub principal_id : ℕ
  pub operation_id : ℕ
  pub idempotency_key : ℕ

abbrev pub same_scope : Scope → Scope → Bool
same_scope a b =
    a.principal_type == b.principal_type
    && a.principal_id == b.principal_id
    && a.operation_id == b.operation_id
    && a.idempotency_key == b.idempotency_key

pub data RecordState : Type 0 where
  pending completed failed : RecordState

pub record IdempotencyRecord (Body : Type 0) : Type 0 where
  pub id : ℕ
  pub scope : Scope
  pub request_fingerprint : ℕ
  pub state : RecordState
  pub response_status : Option ℕ
  pub response_body : Option Body
  pub created_at : ℕ
  pub updated_at : ℕ
  pub expires_at : ℕ

pub record SecretReplay (Secret : Type 0) : Type 0 where
  pub idempotency_record_id : ℕ
  pub ciphertext : Secret
  pub encryption_key_version : ℕ
  pub expires_at : ℕ

-- `SecretReplayCipher`, over a library's authenticated encryption: a ciphertext with its nonce is
-- decrypted to what was encrypted, under the same associated data. `secret_marker` is the body
-- `{"secret_response": True}`.
pub record Cipher (Body Secret : Type 0) : Type 0 where
  pub encrypt : Body → ℕ → Secret
  pub decrypt : Secret → ℕ → Option Body
  pub key_version : ℕ
  pub secret_marker : Body
  pub decrypt-encrypt : (body : Body) (id : ℕ) → decrypt (encrypt body id) id ≡ some body

pub record Tables (Body Secret : Type 0) : Type 0 where
  pub records : List (IdempotencyRecord Body)
  pub replays : List (SecretReplay Secret)

-- `secret_unreadable` is the exception of a decryption that fails.
pub data Error : Type 0 where
  idempotency_conflict idempotency_in_progress secret_replay_expired secret_unreadable : Error

pub data Result {ℓ} (A : Type ℓ) : Type ℓ where
  ok : A → Result A
  err : Error → Result A

-- `IdempotencyStart`
pub record Start (Body : Type 0) : Type 0 where
  pub entry : IdempotencyRecord Body
  pub replay_body : Option Body
  pub replay_status : Option ℕ
  pub is_new : Bool

abbrev pub pending_window : ℕ
pending_window = 15 * 60

abbrev pub terminal_retention : ℕ
terminal_retention = 7 * 24 * 3600

abbrev pub secret_window : ℕ
secret_window = 15 * 60

abbrev pub is_pending : RecordState → Bool
is_pending pending = true
is_pending _ = false

-- `self.repo.idempotency(...)` and `self.repo.secret_replay(record_id)`
abbrev pub in_scope : {Body : Type 0} → Scope → IdempotencyRecord Body → Bool
in_scope scope record_ = same_scope record_.scope scope

abbrev pub has_id : {Body : Type 0} → ℕ → IdempotencyRecord Body → Bool
has_id id record_ = record_.id == id

abbrev pub replay_of : {Secret : Type 0} → ℕ → SecretReplay Secret → Bool
replay_of id replay = replay.idempotency_record_id == id

module _ {Body Secret : Type 0} (cipher : Cipher Body Secret) where
  abbrev pub new_record : ℕ → ℕ → Scope → ℕ → IdempotencyRecord Body
  new_record now id scope fingerprint = record {
    id = id;
    scope = scope;
    request_fingerprint = fingerprint;
    state = pending;
    response_status = none;
    response_body = none;
    created_at = now;
    updated_at = now;
    expires_at = now + terminal_retention;
  }

  start_with : IdempotencyRecord Body → Option Body → Result (Start Body)
  start_with entry none = err secret_unreadable
  start_with entry (some body) = ok (record {
    entry = entry;
    replay_body = some body;
    replay_status = entry.response_status;
    is_new = false;
  })

  -- The branch of `secret_response`.
  replay_secret : ℕ → IdempotencyRecord Body → Option (SecretReplay Secret) → Result (Start Body)
  unfolding start_with
  replay_secret now entry none = err secret_replay_expired
  replay_secret now entry (some replay) =
      if leb replay.expires_at now
      then err secret_replay_expired
      else start_with entry (cipher.decrypt replay.ciphertext entry.id)

  -- The last two statements.
  replay_public : IdempotencyRecord Body → Option Body → Option ℕ → Result (Start Body)
  replay_public entry (some body) (some status) = ok (record {
    entry = entry;
    replay_body = some body;
    replay_status = some status;
    is_new = false;
  })
  replay_public entry _ _ = err idempotency_in_progress

  replay : ℕ → Bool → IdempotencyRecord Body → Tables Body Secret → Result (Start Body)
  unfolding replay_secret replay_public
  replay now secret_response entry t =
      if secret_response
      then replay_secret now entry (find (replay_of entry.id) t.replays)
      else replay_public entry entry.response_body entry.response_status

  -- A pending record whose window is over becomes failed, and the call goes on.
  abbrev expire : ℕ → IdempotencyRecord Body → IdempotencyRecord Body
  expire now entry = record entry { state = failed; updated_at = now }

  -- A scope that has a record.
  begin_known :
      ℕ
      → ℕ
      → Bool
      → IdempotencyRecord Body
      → Tables Body Secret
      → Result (Start Body) × Tables Body Secret
  unfolding replay
  begin_known now fingerprint secret_response entry t =
      if not (entry.request_fingerprint == fingerprint)
      then (err idempotency_conflict, t)
      else if is_pending entry.state
      then if leb (entry.updated_at + pending_window) now
        then (
          replay now secret_response (expire now entry) t,
          record t { records = update (has_id entry.id) (expire now) t.records },
        )
        else (err idempotency_in_progress, t)
      else (replay now secret_response entry t, t)

  unfoldable pub begin_by :
      ℕ
      → ℕ
      → Scope
      → ℕ
      → Bool
      → Option (IdempotencyRecord Body)
      → Tables Body Secret
      → Result (Start Body) × Tables Body Secret
  unfolding begin_known
  begin_by now id scope fingerprint secret_response (some entry) t =
      begin_known now fingerprint secret_response entry t
  begin_by now id scope fingerprint secret_response none t =
      let entry = new_record now id scope fingerprint in
      (
        ok (record { entry = entry; replay_body = none; replay_status = none; is_new = true }),
        record t { records = t.records ++ entry ∷ [] },
      )

  -- `begin`, with the identifier that a new record takes.
  unfoldable pub begin :
      ℕ → ℕ → Scope → ℕ → Bool → Tables Body Secret → Result (Start Body) × Tables Body Secret
  unfolding begin_by
  begin now id scope fingerprint secret_response t =
      begin_by now id scope fingerprint secret_response (find (in_scope scope) t.records) t

  abbrev pub complete_with : ℕ → Body → ℕ → IdempotencyRecord Body → IdempotencyRecord Body
  complete_with now body status entry = record entry {
    state = completed;
    response_body = some body;
    response_status = some status;
    updated_at = now;
    expires_at = now + terminal_retention;
  }

  unfoldable pub complete_public :
      ℕ → IdempotencyRecord Body → Body → ℕ → Tables Body Secret → Tables Body Secret
  complete_public now entry body status t = record t {
    records = update (has_id entry.id) (complete_with now body status) t.records;
  }

  unfoldable pub complete_secret :
      ℕ → IdempotencyRecord Body → Body → ℕ → Tables Body Secret → Tables Body Secret
  complete_secret now entry body status t = record {
    records = update (has_id entry.id) (complete_with now cipher.secret_marker status) t.records;
    replays =
        t.replays
        ++ record {
          idempotency_record_id = entry.id;
          ciphertext = cipher.encrypt body entry.id;
          encryption_key_version = cipher.key_version;
          expires_at = now + secret_window;
        }
          ∷ [];
  }
