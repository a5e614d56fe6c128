-- ===== src/Lib.antt =====
-- The decision logic of the Wi-Fi test orchestrator: a desktop agent that takes tasks from a
-- backend, stores them in SQLite, runs each at most once and reports the result. The agent's
-- sources are under agents/desktop/src/wto_desktop_agent.
--
-- Frequency and its children model platforms/linux/frequency.py, one definition for each function
-- and table, and platforms/windows/frequency.py (Frequency.Windows). A ValueError is a constructor
-- of ChannelError. Frequencies are naturals; a subtraction stands only behind the test that makes
-- it one of integers.
--
-- Tasks.State models domain/states.py and Tasks.Envelope domain/models.py. The json module,
-- pydantic and SHA-256 are the record Codec of Tasks.Envelope: a canonical dump is read back as it
-- was, and the dump of a model validates to the model. Nothing is assumed of the hash.
--
-- Tasks.Store models the methods of the class SQLiteStore in infrastructure/sqlite/store.py on the
-- five tables of the task queue and on the quarantine. A table is a list of rows in the order of
-- insertion (Prelude.Table has the SQL statements), a method is a function from the tables to its
-- result and the tables that it leaves, and an exception is a value of Error. A transaction that is
-- rolled back leaves the tables as they were. Ingest has ingest_task, Queue queued_tasks, Claim the
-- methods from claim_task to complete_cleanup, Finish finish_with_result, Outbox the two outboxes;
-- a payload is none where canonical_json raises, Recover recover_interrupted. Ops has any sequence
-- of calls as a list, which is how the calls of the sync loop, of the scheduler and of several
-- runners interleave: each method is one transaction. Identifiers and times are naturals. A fresh
-- UUID is an argument, and its collision with a stored one is not modelled; so are the clock's
-- readings, in any order.
--
-- Tasks.Runner models application/task_runner.py: run in stages (run, run_with, run_claimed,
-- perform, settle, wind_down, clean_up, conclude) over the store and the dictionary of the
-- cancellation tokens, as calls that change this state and may raise (Effects). What a plugin does
-- in execute is a tree of its calls of progress, of the arrivals of cancel and of its ending
-- (Execution in Types), so every plugin and every moment of a cancellation is covered; whatever a
-- call of progress returns, the tree goes on. Other calls of the store between the stages of one
-- run are not modelled there.
--
-- Tasks.Registry models plugins/registry.py: the constructor, with what it refuses, and get.
--
-- Loops are structural recursion over the rows that were read, or over the tree of an execution, so
-- no fuel is needed.
--
-- Identity models the credential of a device in application/identity.py, over the row and the
-- secret store of Identity.Types: rotate, _finalize_activated, active_credential_async and the
-- helpers on secrets. A run is the list of the states that it writes, one for each update of the
-- row and each change of the secret store, and its end. The secret store is a record of functions
-- and of which of its calls raise; a call for a key leaves the others, and one that raises may have
-- changed its key. What the transport returns or raises is an argument. Finishing and Survives
-- follow the active credential through a run, Stuck a rotation whose activation the backend
-- refuses, over any number of starts; Revoking has mark_revoked and purge_local_identity, Enrolling
-- enroll and the row it starts from.
--
-- Backend.Idempotency models backend/src/wto_backend/services/idempotency.py: begin and the two
-- methods that complete a record, on the tables idempotency_records and secret_replays as the
-- session sees them. The advisory lock of a scope makes its calls a sequence. The cipher is a
-- record of a parameter with its round trip, and a fingerprint is a number.
--
-- Backend.Access models backend/src/wto_backend/services/rbac.py, all methods of
-- UserAdministrationService, on the tables users, roles, user_roles, sessions and audit_logs
-- (Tables). A method that raises leaves the tables as they were, since nothing is committed, and
-- the advisory lock and the row locks make the methods that may lose an administrator a sequence.
-- Counting, Keeps and Removal have the lemmas, Administrators the sequences of calls.
--
-- Backend.Sessions models backend/src/wto_backend/services/auth.py: all methods of AuthService on
-- the same tables and on refresh_tokens, and (Secrets) PasswordManager and TokenManager of
-- security/passwords.py and security/tokens.py over the libraries for Argon2 and signed tokens,
-- which are records of functions with their round trips. A row that would repeat a key of its table
-- is refused and nothing is committed. Calls has any sequence of calls of this service and of the
-- user administration; Evolution, Administered and Evolving show what no call takes back, Tokens,
-- Untouched and Chains the chains of refresh tokens; Family is the abstract description of a
-- session that Refine compares refresh with.
--
-- Backend.Credentials models backend/src/wto_backend/services/agent_credentials.py on
-- agent_credentials and agent_credential_rotations, over the tables of Backend.Idempotency and the
-- agents of Backend.Presence (Tables): Rotation has create_rotation, Activation activate_rotation,
-- the module itself the revocations and the expiry of a rotation. Gone, Creates and Activates show
-- that no method gives a revoked agent a credential, Calls has any sequence of calls, Again and
-- Repeated what a repeated request meets.
--
-- Backend.Presence models backend/src/wto_backend/services/agent_protocol.py: publish_manifest,
-- heartbeat and mobile_presence on the tables agents, capability_manifests and agent_presence
-- (Tables). Times are microseconds, and the digest of a document and the verdict of its schema are
-- fields of what a method takes.
--
-- Not modelled: the other tables of the store, the scheduler, the platforms' drivers, the HTTP
-- clients, and the rest of the backend.
pub mod Prelude
pub mod Frequency
pub mod Tasks
pub mod Backend
pub mod Identity
