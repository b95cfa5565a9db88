-- ===== src/Plugins.antt =====
-- `PluginRegistry` (node/src/plugin/registry.rs): which plugin owns which action, provider and
-- service. `A`, `P` and `S` are the types of these. A plugin is what its trait methods return, its
-- `init` included; what a service or a plugin does when it is stopped is left out, as the registry
-- only logs its errors.
pub mod Index
pub mod Histories
mod Tests
use agentme.Prelude.{
  Bool, true, false, not, Option, none, some, List, [], ◌∷◌, if◌then◌else◌, String, string_key,
  Result, ok, err, ◌>>=◌, ◌>>◌, guard, ok_or, ite,
}
use agentme.Prelude.Map.{Map, get, insert, remove}

-- What the registry reads of it; the description, author, license, homepage, priority and tags are
-- left out.
pub record PluginInfo : Type 0 where
  pub name : String
  pub version : String
  pub dependencies : List String

-- `action_not_found name` is `NotFound` of the text "Action 'name'".
pub data PluginError : Type 0 where
  already_registered not_found action_not_found disabled initialization_failed :
      String → PluginError
  dependency_not_satisfied : String → String → PluginError

-- An action, a provider or a service with the name that its metadata give.
abbrev pub Named : Type 0 → Type 0
Named X = String × X

pub record Plugin (A P S : Type 0) : Type 0 where
  pub info : PluginInfo
  pub init : Result String (Unit {0})
  pub actions : List (Named A)
  pub providers : List (Named P)
  pub services : List (Named S)
  pub is_enabled : Bool

pub record RegisteredPlugin (A P S : Type 0) : Type 0 where
  pub info : PluginInfo
  pub actions : Map String A
  pub providers : Map String P
  pub services : Map String S
  pub enabled : Bool

pub record PluginRegistry (A P S : Type 0) : Type 0 where
  pub plugins : Map String (RegisteredPlugin A P S)
  pub action_index : Map String String
  pub provider_index : Map String String
  pub service_index : Map String String

abbrev pub has {ℓ} : {V : Type ℓ} → Option V → Bool
has none = false
has (some v) = true

-- The loop over what a plugin brings: a name that is taken is skipped.
unfoldable pub claim :
    {X : Type 0}
    → String
    → List (Named X)
    → Map String String
    → Map String X
    → Map String String × Map String X
claim owner [] index held = (index, held)
claim owner ((name, x) ∷ items) index held =
    if has (get name index)
    then claim owner items index held
    else claim owner items (insert name owner index) (insert name x held)

-- The loop of `unregister` over the names that a plugin held.
unfoldable pub release : {X : Type 0} → Map String X → Map String String → Map String String
release [] index = index
release ((name, x) ∷ held) index = release held (remove name index)

abbrev pub initialized : String → Result String (Unit {0}) → Result PluginError (Unit {0})
initialized plugin (ok u) = ok tt
initialized plugin (err reason) = err (initialization_failed plugin)

module _ {A P S : Type 0} where
  unfoldable pub new : PluginRegistry A P S
  new = record { plugins = []; action_index = []; provider_index = []; service_index = [] }

  unfoldable pub check_dependencies :
      PluginRegistry A P S → String → List String → Result PluginError (Unit {0})
  check_dependencies r plugin [] = ok tt
  check_dependencies r plugin (dep ∷ deps) =
      if has (get dep r.plugins)
      then check_dependencies r plugin deps
      else err (dependency_not_satisfied plugin dep)

  -- The registry with the plugin and its claims.
  unfoldable pub install : PluginRegistry A P S → Plugin A P S → PluginRegistry A P S
  unfolding claim
  install r p =
      let name = p.info.name in
      let actions = claim name p.actions r.action_index [] in
      let providers = claim name p.providers r.provider_index [] in
      let services = claim name p.services r.service_index [] in
      record {
        plugins =
            insert name
              (record {
                info = p.info;
                actions = actions.1;
                providers = providers.1;
                services = services.1;
                enabled = p.is_enabled;
              })
              r.plugins;
        action_index = actions.0;
        provider_index = providers.0;
        service_index = services.0;
      }

  unfoldable pub register :
      PluginRegistry A P S → Plugin A P S → Result PluginError (PluginRegistry A P S)
  unfolding check_dependencies install
  register r p = do
    guard (not (has (get p.info.name r.plugins))) (already_registered p.info.name)
    check_dependencies r p.info.name p.info.dependencies
    initialized p.info.name p.init
    ok (install r p)

  -- The registry without the plugin that it held under the name.
  unfoldable pub uninstall :
      PluginRegistry A P S → String → RegisteredPlugin A P S → PluginRegistry A P S
  unfolding release
  uninstall r name p = record {
    plugins = remove name r.plugins;
    action_index = release p.actions r.action_index;
    provider_index = release p.providers r.provider_index;
    service_index = release p.services r.service_index;
  }

  unfoldable pub unregister :
      PluginRegistry A P S → String → Result PluginError (PluginRegistry A P S)
  unfolding uninstall
  unregister r name = do p ← ok_or (get name r.plugins) (not_found name); ok (uninstall r name p)

  -- `enable_plugin` and `disable_plugin`.
  unfoldable pub set_enabled :
      Bool → PluginRegistry A P S → String → Result PluginError (PluginRegistry A P S)
  set_enabled enabled r name = do
    p ← ok_or (get name r.plugins) (not_found name)
    ok (record r { plugins = insert name (record p { enabled = enabled }) r.plugins })

  -- The lookups of `execute_action`, up to the action that it then runs.
  unfoldable pub find_action : PluginRegistry A P S → String → Result PluginError A
  find_action r action_name = do
    owner ← ok_or (get action_name r.action_index) (action_not_found action_name)
    p ← ok_or (get owner r.plugins) (not_found owner)
    guard p.enabled (disabled owner)
    ok_or (get action_name p.actions) (action_not_found action_name)
