-- ===== src/Tasks/Envelope.antt =====
-- agents/desktop/src/wto_desktop_agent/domain/models.py, and what the store relies on of the json
-- module, pydantic and hashlib, which are not part of the repository.
use wi_fi_test_orchestrator.Prelude.{ℕ, ◌≡◌, String, Option, some, List}

-- Identifiers (UUIDs) and times are naturals. The two `Literal["1.0.0"]` versions are constants.
pub record LocalTaskEnvelope (Json : Type 0) : Type 0 where
  pub task_id : ℕ
  pub execution_id : ℕ
  pub task_type : String
  pub task_type_version : String
  pub issued_at : ℕ
  pub not_before : ℕ
  pub expires_at : ℕ
  pub idempotency_key : ℕ
  pub required_capabilities : List String
  pub foreground_requirement : String
  pub user_interaction_requirement : String
  pub parameters : Json

-- The dictionary that `logical_effect` builds.
pub record LogicalEffect (Json : Type 0) : Type 0 where
  pub execution_id : ℕ
  pub task_type : String
  pub task_type_version : String
  pub required_capabilities : List String
  pub foreground_requirement : String
  pub user_interaction_requirement : String
  pub parameters : Json

unfoldable pub logical_effect : {Json : Type 0} → LocalTaskEnvelope Json → LogicalEffect Json
logical_effect task = record {
  execution_id = task.execution_id;
  task_type = task.task_type;
  task_type_version = task.task_type_version;
  required_capabilities = task.required_capabilities;
  foreground_requirement = task.foreground_requirement;
  user_interaction_requirement = task.user_interaction_requirement;
  parameters = task.parameters;
}

-- `json.loads` of a canonical dump gives the value back, and pydantic validates the dump of a model
-- to the model. `sha256` is any function of the text: no theorem needs it to be free of collisions.
pub record Codec (Json : Type 0) : Type 0 where
  pub canonical_json : Json → String
  pub loads : String → Option Json
  pub sha256 : String → ℕ
  pub model_dump : LocalTaskEnvelope Json → Json
  pub effect_dict : LogicalEffect Json → Json
  pub model_validate : Json → Option (LocalTaskEnvelope Json)
  pub loads-canonical_json : (j : Json) → loads (canonical_json j) ≡ some j
  pub model_validate-model_dump :
      (task : LocalTaskEnvelope Json) → model_validate (model_dump task) ≡ some task

-- `digest` of infrastructure/sqlite/store.py.
unfoldable pub digest : {Json : Type 0} → Codec Json → Json → ℕ
digest c payload = c.sha256 (c.canonical_json payload)
