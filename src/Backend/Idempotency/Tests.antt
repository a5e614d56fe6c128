-- ===== src/Backend/Idempotency/Tests.antt =====
-- The theorems on idempotency records at concrete inputs.
use wi_fi_test_orchestrator.Prelude.{ℕ, ◌≡◌, refl, true, false, some, none, []}
use wi_fi_test_orchestrator.Backend.Idempotency.{
  Scope, Cipher, Tables, ok, err, idempotency_conflict, new_record, begin, complete_with,
  complete_public, complete_secret,
}
use wi_fi_test_orchestrator.Backend.Idempotency.Replay.{
  begin-complete_public, begin-conflict, begin-complete_secret,
}
use wi_fi_test_orchestrator.Prelude.Table.{find}

-- Bodies are numbers, and the cipher writes them as they are.
abbrev plain : Cipher ℕ ℕ
plain = record {
  encrypt = λ body id. body;
  decrypt = λ secret id. some secret;
  key_version = 1;
  secret_marker = 0;
  decrypt-encrypt = λ body id. refl;
}

abbrev enroll : Scope
enroll = record { principal_type = 1; principal_id = 2; operation_id = 3; idempotency_key = 4 }

abbrev no_rows : Tables ℕ ℕ
no_rows = record { records = []; replays = [] }

-- The tables after the request was completed.
abbrev answered : Tables ℕ ℕ
answered =
    complete_public plain 20 (new_record plain 10 5 enroll 6) 7 200
      (begin plain 10 5 enroll 6 false no_rows).1

abbrev sealed : Tables ℕ ℕ
sealed =
    complete_secret plain 20 (new_record plain 10 5 enroll 6) 7 200
      (begin plain 10 5 enroll 6 true no_rows).1

begin-complete_public_example :
    ((begin plain 10 5 enroll 6 false no_rows).0
      ≡ ok (record {
        entry = new_record plain 10 5 enroll 6;
        replay_body = none;
        replay_status = none;
        is_new = true;
      }))
    × (begin plain 30 8 enroll 6 false answered ≡ (
      ok (record {
        entry = complete_with plain 20 7 200 (new_record plain 10 5 enroll 6);
        replay_body = some 7;
        replay_status = some 200;
        is_new = false;
      }),
      answered,
    ))
unfolding find
begin-complete_public_example = begin-complete_public plain 10 20 30 5 8 enroll 6 7 200 no_rows refl

begin-conflict_example :
    (begin plain 30 8 enroll 9 false (begin plain 10 5 enroll 6 false no_rows).1
      ≡ (err idempotency_conflict, (begin plain 10 5 enroll 6 false no_rows).1))
    × (begin plain 30 8 enroll 9 false answered ≡ (err idempotency_conflict, answered))
unfolding find
begin-conflict_example = begin-conflict plain 10 20 30 5 8 enroll 6 9 false 7 200 no_rows refl refl

begin-complete_secret_example : begin plain 30 8 enroll 6 true sealed ≡ (
  ok (record {
    entry = complete_with plain 20 0 200 (new_record plain 10 5 enroll 6);
    replay_body = some 7;
    replay_status = some 200;
    is_new = false;
  }),
  sealed,
)
unfolding find
begin-complete_secret_example =
    begin-complete_secret plain 10 20 30 5 8 enroll 6 7 200 no_rows refl refl
