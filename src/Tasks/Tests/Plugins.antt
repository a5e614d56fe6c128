-- ===== src/Tasks/Tests/Plugins.antt =====
-- The theorems on the registry of plugins at concrete plugins.
use wi_fi_test_orchestrator.Prelude.{ℕ, ◌≡◌, refl, none, [], ◌∷◌, ◌++◌, elem, if◌then◌else◌}
use wi_fi_test_orchestrator.Prelude.Table.{find, select}
use wi_fi_test_orchestrator.Tasks.Registry.{
  Compiled, duplicate_plugin, refused, has_key, has_duplicate, has_absent, registry, get,
  get-registry, registry_duplicate,
}

abbrev contract_check : Compiled ℕ
contract_check = record { task_type = 1; task_type_version = 100; plugin = 7 }

abbrev ping_check : Compiled ℕ
ping_check = record { task_type = 2; task_type_version = 100; plugin = 8 }

get-registry_example :
    get (contract_check ∷ []) 1 100
    ≡ (if elem 1 (1 ∷ []) then find (has_key 1 100) (contract_check ∷ ping_check ∷ []) else none)
unfolding registry has_duplicate has_absent find select
get-registry_example =
    get-registry (contract_check ∷ ping_check ∷ []) (contract_check ∷ []) (1 ∷ []) 1 100 refl

registry_duplicate_example :
    registry ([] ++ contract_check ∷ (ping_check ∷ []) ++ contract_check ∷ []) (2 ∷ [])
    ≡ refused duplicate_plugin
registry_duplicate_example =
    registry_duplicate [] (ping_check ∷ []) [] contract_check contract_check (2 ∷ []) refl refl
