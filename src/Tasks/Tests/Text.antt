-- ===== src/Tasks/Tests/Text.antt =====
-- A concrete `Codec`: a value is the text of its canonical form, numbers are written in unary and
-- texts are marked character by character.
use Prim.Native.Char.{code}
use wi_fi_test_orchestrator.Prelude.{
  ℕ, zero, suc, ◌+◌, String, ◌≡◌, refl, Option, none, some, List, [], ◌∷◌, ◌==◌, if◌then◌else◌,
  length,
}
use wi_fi_test_orchestrator.Tasks.Envelope.{LocalTaskEnvelope, LogicalEffect, Codec}

abbrev and_then : {A B : Type 0} → Option A → (A → Option B) → Option B
and_then none f = none
and_then (some a) f = f a

put_nat : ℕ → String → String
put_nat zero s = String.◌∷◌ "." s
put_nat (suc n) s = String.◌∷◌ "I" (put_nat n s)

get_nat : String → Option (ℕ × String)
get_nat String.[] = none
get_nat (String.◌∷◌ c s) =
    let rest = get_nat s in
    if code c == 46 then some (0, s) else and_then rest (λ p. some (suc p.0, p.1))

get_nat-put_nat : (n : ℕ) (s : String) → get_nat (put_nat n s) ≡ some (n, s)
unfolding get_nat put_nat
get_nat-put_nat zero s = refl
get_nat-put_nat (suc n) s = rw (get_nat-put_nat n s) refl

put_text : String → String → String
put_text String.[] s = String.◌∷◌ "." s
put_text (String.◌∷◌ c t) s = String.◌∷◌ "I" (String.◌∷◌ c (put_text t s))

get_text : String → Option (String × String)
get_text String.[] = none
get_text (String.◌∷◌ m String.[]) = if code m == 46 then some (String.[], String.[]) else none
get_text (String.◌∷◌ m (String.◌∷◌ c s)) =
    let rest = get_text s in
    if code m == 46
    then some (String.[], String.◌∷◌ c s)
    else and_then rest (λ p. some (String.◌∷◌ c p.0, p.1))

get_text-put_text : (t s : String) → get_text (put_text t s) ≡ some (t, s)
unfolding get_text put_text
get_text-put_text String.[] String.[] = refl
get_text-put_text String.[] (String.◌∷◌ c s) = refl
get_text-put_text (String.◌∷◌ c t) s = rw (get_text-put_text t s) refl

put_texts : List String → String → String
put_texts [] s = s
put_texts (t ∷ ts) s = put_text t (put_texts ts s)

get_texts : ℕ → String → Option (List String × String)
get_texts zero s = some ([], s)
get_texts (suc n) s =
    and_then (get_text s) (λ p. and_then (get_texts n p.1) (λ q. some (p.0 ∷ q.0, q.1)))

get_texts-put_texts :
    (ts : List String) (s : String) → get_texts (length ts) (put_texts ts s) ≡ some (ts, s)
unfolding get_texts put_texts
get_texts-put_texts [] s = refl
get_texts-put_texts (t ∷ ts) s =
    rw (get_text-put_text t (put_texts ts s), get_texts-put_texts ts s) refl

unfoldable pub put_envelope : LocalTaskEnvelope String → String
unfolding put_nat put_text put_texts
put_envelope t = put_nat t.task_id (
    put_nat t.execution_id (
      put_text t.task_type (
        put_text t.task_type_version (
          put_nat t.issued_at (
            put_nat t.not_before (
              put_nat t.expires_at (
                put_nat t.idempotency_key (
                  put_nat (length t.required_capabilities) (
                    put_texts t.required_capabilities (
                      put_text t.foreground_requirement (
                        put_text t.user_interaction_requirement
                          (put_text t.parameters String.[]))))))))))))

unfoldable pub get_envelope : String → Option (LocalTaskEnvelope String)
unfolding get_nat get_text get_texts
get_envelope s = and_then (get_nat s) (λ task_id. and_then (get_nat task_id.1) (λ execution_id.
    and_then (get_text execution_id.1) (λ task_type. and_then (get_text task_type.1) (λ version.
      and_then (get_nat version.1) (λ issued_at. and_then (get_nat issued_at.1) (λ not_before.
        and_then (get_nat not_before.1) (λ expires_at. and_then (get_nat expires_at.1) (λ key.
          and_then (get_nat key.1) (λ n. and_then (get_texts n.0 n.1) (λ capabilities.
            and_then (get_text capabilities.1) (λ foreground.
              and_then (get_text foreground.1) (λ interaction.
                and_then (get_text interaction.1) (λ parameters. some (record {
                  task_id = task_id.0;
                  execution_id = execution_id.0;
                  task_type = task_type.0;
                  task_type_version = version.0;
                  issued_at = issued_at.0;
                  not_before = not_before.0;
                  expires_at = expires_at.0;
                  idempotency_key = key.0;
                  required_capabilities = capabilities.0;
                  foreground_requirement = foreground.0;
                  user_interaction_requirement = interaction.0;
                  parameters = parameters.0;
                }))))))))))))))

pub get_envelope-put_envelope :
    (t : LocalTaskEnvelope String) → get_envelope (put_envelope t) ≡ some t
unfolding get_envelope put_envelope
get_envelope-put_envelope t = simp (get_nat-put_nat, get_text-put_text, get_texts-put_texts)

put_effect : LogicalEffect String → String
unfolding put_nat put_text put_texts
put_effect e = put_nat e.execution_id (
    put_text e.task_type (
      put_text e.task_type_version (
        put_nat (length e.required_capabilities) (
          put_texts e.required_capabilities (
            put_text e.foreground_requirement
              (put_text e.user_interaction_requirement e.parameters))))))

-- The sum of the codes of the characters stands in for the hash.
sum_codes : String → ℕ
sum_codes String.[] = 0
sum_codes (String.◌∷◌ c s) = code c + sum_codes s

unfoldable pub text_codec : Codec String
unfolding put_envelope get_envelope put_effect sum_codes
text_codec = record {
  canonical_json = λ j. j;
  loads = some;
  sha256 = sum_codes;
  model_dump = put_envelope;
  effect_dict = put_effect;
  model_validate = get_envelope;
  loads-canonical_json = λ j. refl;
  model_validate-model_dump = get_envelope-put_envelope;
}
