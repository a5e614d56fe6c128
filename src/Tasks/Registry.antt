-- ===== src/Tasks/Registry.antt =====
-- `PluginRegistry` of agents/desktop/src/wto_desktop_agent/plugins/registry.py, over plugins of any
-- kind. Types and versions are naturals that stand for texts.
use wi_fi_test_orchestrator.Prelude.{
  ℕ, ◌≡◌, refl, sym, ap, ◌++◌, ==_iff, ==_refl, Bool, true, false, not, ◌&&◌, ◌||◌, Option, none,
  List, [], ◌∷◌, arith, ◌==◌, is_some, if◌then◌else◌, elem, Bool-cases, inl, inr,
}
use wi_fi_test_orchestrator.Prelude.Table.{find, select}

-- A compiled plugin, under the key of its descriptor.
pub record Compiled {ℓ} (P : Type ℓ) : Type ℓ where
  pub task_type : ℕ
  pub task_type_version : ℕ
  pub plugin : P

-- The `ValueError`s of the constructor.
pub data RegistryError : Type 0 where
  duplicate_plugin plugin_absent : RegistryError

pub data Built {ℓ} (A : Type ℓ) : Type ℓ where
  built : A → Built A
  refused : RegistryError → Built A

same_name : (names : List ℕ) (a b : ℕ) → (a == b) ≡ true → elem a names ≡ elem b names
same_name names a b h = ap (λ k. elem k names) ((==_iff a b).0 h)

module _ {ℓ} {P : Type ℓ} where
  abbrev pub has_key : ℕ → ℕ → Compiled P → Bool
  has_key task_type version c = c.task_type == task_type && c.task_type_version == version

  -- Whether a key comes twice, which the loop over the plugins finds.
  unfoldable pub has_duplicate : List (Compiled P) → Bool
  has_duplicate [] = false
  has_duplicate (c ∷ cs) =
      is_some (find (has_key c.task_type c.task_type_version) cs) || has_duplicate cs

  -- `configured_allowlist - compiled_names` is not empty.
  unfoldable pub has_absent : List ℕ → List (Compiled P) → Bool
  has_absent [] plugins = false
  has_absent (name ∷ names) plugins =
      not (is_some (find (λ (c : Compiled P). c.task_type == name) plugins))
      || has_absent names plugins

  abbrev allowed : List ℕ → Compiled P → Bool
  allowed names c = elem c.task_type names

  -- `__init__`: the dictionary `_plugins`, in the order of the plugins.
  unfoldable pub registry : List (Compiled P) → List ℕ → Built (List (Compiled P))
  registry plugins configured_allowlist =
      if has_duplicate plugins
      then refused duplicate_plugin
      else if has_absent configured_allowlist plugins
      then refused plugin_absent
      else built (select (allowed configured_allowlist) plugins)

  -- `get`: `none` is the `PluginUnavailableError`.
  unfoldable pub get : List (Compiled P) → ℕ → ℕ → Option (Compiled P)
  get plugins task_type version = find (has_key task_type version) plugins

  find-select :
      (names : List ℕ) (n v : ℕ) (xs : List (Compiled P))
      → find (has_key n v) (select (allowed names) xs)
        ≡ (if elem n names then find (has_key n v) xs else none)
  unfolding find select
  find-select names n v [] = ground arith
  find-select names n v (x ∷ xs) = elim (Bool-cases (x.task_type == n)) [
    | inl e ↦ ground (arith, same_name names x.task_type n e, find-select names n v xs)
    | inr e ↦ ground (arith, e, find-select names n v xs)
  ]

  -- A registry that is built returns, for a key whose type is on the allowlist, the plugin that was
  -- compiled under the key, and for any other key none.
  pub get-registry :
      (plugins reg : List (Compiled P)) (names : List ℕ) (n v : ℕ)
      → registry plugins names ≡ built reg
      → get reg n v ≡ (if elem n names then find (has_key n v) plugins else none)
  unfolding registry get
  get-registry plugins reg names n v h = elim (Bool-cases (has_duplicate plugins)) [
    | inl e ↦ absurd (ground (arith, h, e))
    | inr e ↦ elim (Bool-cases (has_absent names plugins)) [
      | inl e' ↦ absurd (ground (arith, h, e, e'))
      | inr e' ↦ rw (sym (content (ground (arith, h, e, e')))) (find-select names n v plugins)
    ]
  ]
    where
      content :
          built (select (allowed names) plugins) ≡ built reg → select (allowed names) plugins ≡ reg
      content b = cc b

  -- Plugins of which two have the same type and version are refused, whatever the allowlist is.
  pub registry_duplicate :
      (before between after : List (Compiled P)) (x y : Compiled P) (names : List ℕ)
      → x.task_type ≡ y.task_type
      → x.task_type_version ≡ y.task_type_version
      → registry (before ++ x ∷ between ++ y ∷ after) names ≡ refused duplicate_plugin
  unfolding registry has_duplicate find
  registry_duplicate before between after x y names t v = rw (has_duplicate-twice before) refl
    where
      found :
          (cs : List (Compiled P))
          → is_some (find (has_key x.task_type x.task_type_version) (cs ++ y ∷ after)) ≡ true
      found [] = rw (t, v, ==_refl y.task_type, ==_refl y.task_type_version) refl
      found (c ∷ cs) = ground (arith, found cs)

      has_duplicate-twice :
          (cs : List (Compiled P)) → has_duplicate (cs ++ x ∷ between ++ y ∷ after) ≡ true
      has_duplicate-twice [] = rw (found between) refl
      has_duplicate-twice (c ∷ cs) = ground (arith, has_duplicate-twice cs)
