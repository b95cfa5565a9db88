-- ===== src/Plugins/Tests.antt =====
-- A registry of two plugins that bring an action of the same name (node/src/plugin/registry.rs).
use agentme.Prelude.{
  ℕ, ◌≡◌, ◌⊎◌, true, false, some, List, [], ◌∷◌, if◌then◌else◌, String, string_key, ok, err,
}
use agentme.Prelude.Map.{get}
use agentme.Plugins.{Plugin, RegisteredPlugin, new, has, action_not_found, disabled, find_action}
use agentme.Plugins.Histories
use agentme.Plugins.Histories.{
  Op, registers, unregisters, disables, IsConsistent, registry-IsConsistent, find_action_lem,
}

abbrev plugin : String → List String → List (String × ℕ) → Plugin ℕ ℕ ℕ
plugin name dependencies actions = record {
  info = record { name = name; version = "1"; dependencies = dependencies };
  init = ok tt;
  actions = actions;
  providers = [];
  services = ("clock", 1) ∷ [];
  is_enabled = true;
}

abbrev history : List (Op ℕ ℕ ℕ)
history =
    registers (plugin "web" [] (("search", 1) ∷ ("fetch", 2) ∷ []))
    ∷ registers (plugin "extra" ("web" ∷ []) (("search", 3) ∷ ("score", 4) ∷ []))
    ∷ disables "web"
    ∷ unregisters "web"
    ∷ []

registry-IsConsistent_example : IsConsistent (Histories.run new history)
registry-IsConsistent_example = registry-IsConsistent history

find_action_lem_example :
    let r = Histories.run new history in
    ((find_action r "score" ≡ err (action_not_found "score"))
      × ((owner : String) (p : RegisteredPlugin ℕ ℕ ℕ)
          → get owner r.plugins ≡ some p
          → has (get "score" p.actions) ≡ false))
    ⊎ ((owner : String) × (p : RegisteredPlugin ℕ ℕ ℕ) × (x : ℕ) × (get owner r.plugins ≡ some p)
        × (get "score" p.actions ≡ some x)
        × (find_action r "score" ≡ (if p.enabled then ok x else err (disabled owner))))
find_action_lem_example = find_action_lem history "score"
