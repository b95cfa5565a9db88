-- ===== src/Plugins/Histories.antt =====
-- The three indices of the registry along histories of its methods.
use agentme.Prelude.{
  ◌≡◌, refl, ◌⊎◌, inl, inr, Bool, true, false, Option, none, some, List, [], ◌∷◌, arith, String,
  string_key, ite, if◌then◌else◌, Option-cases, subst, Result, ok, err,
}
use agentme.Prelude.Map.{Map, get, insert, get-insert, get-remove}
use agentme.Plugins.{
  Plugin, RegisteredPlugin, PluginRegistry, PluginError, action_not_found, disabled, has, claim,
  new, install, register, uninstall, unregister, set_enabled, find_action,
}
use agentme.Plugins.Index.{Indexed, claim-Indexed, release-Indexed, Indexed-same}

pub data Op (A P S : Type 0) : Type 0 where
  registers : Plugin A P S → Op A P S
  unregisters enables disables : String → Op A P S

module _ {A P S : Type 0} where
  abbrev pub after :
      PluginRegistry A P S → Result PluginError (PluginRegistry A P S) → PluginRegistry A P S
  after r (ok q) = q
  after r (err e) = r

  unfoldable pub apply : PluginRegistry A P S → Op A P S → PluginRegistry A P S
  apply r (registers p) = after r (register r p)
  apply r (unregisters name) = after r (unregister r name)
  apply r (enables name) = after r (set_enabled true r name)
  apply r (disables name) = after r (set_enabled false r name)

  unfoldable pub run : PluginRegistry A P S → List (Op A P S) → PluginRegistry A P S
  run r [] = r
  run r (op ∷ ops) = run (apply r op) ops

  -- What the plugin of a name holds.
  abbrev pub holding :
      {X : Type 0} → (RegisteredPlugin A P S → X) → Option (RegisteredPlugin A P S) → Option X
  holding f none = none
  holding f (some p) = some (f p)

  -- Each of the three indices points from a name to the one registered plugin that holds it, and to
  -- none if no plugin does.
  pub record IsConsistent (r : PluginRegistry A P S) : Type 0 where
    pub actions : Indexed r.action_index (λ o. holding (λ p. p.actions) (get o r.plugins))
    pub providers : Indexed r.provider_index (λ o. holding (λ p. p.providers) (get o r.plugins))
    pub services : Indexed r.service_index (λ o. holding (λ p. p.services) (get o r.plugins))

  install-IsConsistent :
      (r : PluginRegistry A P S) (p : Plugin A P S)
      → get p.info.name r.plugins ≡ none
      → IsConsistent r
      → IsConsistent (install r p)
  unfolding install
  install-IsConsistent r p free c = record {
    actions =
        claim-Indexed p.info.name p.actions r.action_index
          (λ o. holding (λ x. x.actions) (get o r.plugins)) _ (ground (arith, free))
          (λ o. ground (arith, now o)) c.actions;
    providers =
        claim-Indexed p.info.name p.providers r.provider_index
          (λ o. holding (λ x. x.providers) (get o r.plugins)) _ (ground (arith, free))
          (λ o. ground (arith, now o)) c.providers;
    services =
        claim-Indexed p.info.name p.services r.service_index
          (λ o. holding (λ x. x.services) (get o r.plugins)) _ (ground (arith, free))
          (λ o. ground (arith, now o)) c.services;
  }
    where
      added : RegisteredPlugin A P S
      added = record {
        info = p.info;
        actions = (claim p.info.name p.actions r.action_index []).1;
        providers = (claim p.info.name p.providers r.provider_index []).1;
        services = (claim p.info.name p.services r.service_index []).1;
        enabled = p.is_enabled;
      }

      now :
          (o : String)
          → get o (insert p.info.name added r.plugins)
            ≡ ite (string_key.equal p.info.name o) (some added) (get o r.plugins)
      now o = get-insert p.info.name o added r.plugins

  uninstall-IsConsistent :
      (r : PluginRegistry A P S) (name : String) (p : RegisteredPlugin A P S)
      → get name r.plugins ≡ some p
      → IsConsistent r
      → IsConsistent (uninstall r name p)
  unfolding uninstall
  uninstall-IsConsistent r name p found c = record {
    actions =
        release-Indexed name p.actions r.action_index
          (λ o. holding (λ x. x.actions) (get o r.plugins)) _ (ground (arith, found))
          (λ o. ground (arith, get-remove name o r.plugins)) c.actions;
    providers =
        release-Indexed name p.providers r.provider_index
          (λ o. holding (λ x. x.providers) (get o r.plugins)) _ (ground (arith, found))
          (λ o. ground (arith, get-remove name o r.plugins)) c.providers;
    services =
        release-Indexed name p.services r.service_index
          (λ o. holding (λ x. x.services) (get o r.plugins)) _ (ground (arith, found))
          (λ o. ground (arith, get-remove name o r.plugins)) c.services;
  }

  register-IsConsistent :
      (r q : PluginRegistry A P S) (p : Plugin A P S)
      → register r p ≡ ok q
      → IsConsistent r
      → IsConsistent q
  unfolding register
  register-IsConsistent r q p h c = elim (Option-cases (get p.info.name r.plugins)) [
    | inr (x, taken) ↦ absurd (ground arith)
    | inl free ↦
        subst IsConsistent {x = install r p} {y = q} (ground arith)
          (install-IsConsistent r p free c)
  ]

  unregister-IsConsistent :
      (r q : PluginRegistry A P S) (name : String)
      → unregister r name ≡ ok q
      → IsConsistent r
      → IsConsistent q
  unfolding unregister
  unregister-IsConsistent r q name h c = elim (Option-cases (get name r.plugins)) [
    | inl missing ↦ absurd (ground arith)
    | inr (p, found) ↦
        subst IsConsistent {x = uninstall r name p} {y = q} (ground arith)
          (uninstall-IsConsistent r name p found c)
  ]

  set_enabled-IsConsistent :
      (enabled : Bool) (r q : PluginRegistry A P S) (name : String)
      → set_enabled enabled r name ≡ ok q
      → IsConsistent r
      → IsConsistent q
  unfolding set_enabled
  set_enabled-IsConsistent enabled r q name h c = elim (Option-cases (get name r.plugins)) [
    | inl missing ↦ absurd (ground arith)
    | inr (p, found) ↦
        let now = λ (o : String). get-insert name o (record p { enabled = enabled }) r.plugins in
        subst IsConsistent
          {x = record r { plugins = insert name (record p { enabled = enabled }) r.plugins }}
          {y = q} (ground arith)
          (record {
            actions = Indexed-same r.action_index _ _ (λ o. ground (arith, now o, found)) c.actions;
            providers =
                Indexed-same r.provider_index _ _ (λ o. ground (arith, now o, found)) c.providers;
            services =
                Indexed-same r.service_index _ _ (λ o. ground (arith, now o, found)) c.services;
          })
  ]

  after-IsConsistent :
      (r : PluginRegistry A P S) (x : Result PluginError (PluginRegistry A P S))
      → ((q : PluginRegistry A P S) → x ≡ ok q → IsConsistent q)
      → IsConsistent r
      → IsConsistent (after r x)
  after-IsConsistent r (ok q) h c = h q refl
  after-IsConsistent r (err e) h c = c

  apply-IsConsistent :
      (r : PluginRegistry A P S) (op : Op A P S) → IsConsistent r → IsConsistent (apply r op)
  unfolding apply
  apply-IsConsistent r (registers p) c =
      after-IsConsistent r (register r p) (λ q h. register-IsConsistent r q p h c) c
  apply-IsConsistent r (unregisters name) c =
      after-IsConsistent r (unregister r name) (λ q h. unregister-IsConsistent r q name h c) c
  apply-IsConsistent r (enables name) c =
      after-IsConsistent r (set_enabled true r name)
        (λ q h. set_enabled-IsConsistent true r q name h c) c
  apply-IsConsistent r (disables name) c =
      after-IsConsistent r (set_enabled false r name)
        (λ q h. set_enabled-IsConsistent false r q name h c) c

  run-IsConsistent :
      (r : PluginRegistry A P S) (ops : List (Op A P S)) → IsConsistent r → IsConsistent (run r ops)
  unfolding run
  run-IsConsistent r [] c = c
  run-IsConsistent r (op ∷ ops) c = run-IsConsistent (apply r op) ops (apply-IsConsistent r op c)

  -- After any history of registrations, removals, enablings and disablings on a new registry, each
  -- of its three indices points from a name to the one registered plugin that holds it, and to none
  -- if no plugin does.
  pub registry-IsConsistent : (ops : List (Op A P S)) → IsConsistent (run new ops)
  registry-IsConsistent ops = run-IsConsistent new ops (
      unfold new in
      record {
        actions = record { pointing = λ n o h. cc; covering = λ n o i h. cc };
        providers = record { pointing = λ n o h. cc; covering = λ n o i h. cc };
        services = record { pointing = λ n o h. cc; covering = λ n o i h. cc };
      })

  -- After any history of registrations, removals, enablings and disablings on a new registry, the
  -- lookup of an action gives the action of the one plugin that holds the name, or reports that
  -- plugin as disabled, and reports the name as not found only if no registered plugin holds it.
  pub find_action_lem :
      (ops : List (Op A P S)) (name : String)
      → let r = run new ops in
        ((find_action r name ≡ err (action_not_found name))
          × ((owner : String) (p : RegisteredPlugin A P S)
              → get owner r.plugins ≡ some p
              → has (get name p.actions) ≡ false))
        ⊎ ((owner : String) × (p : RegisteredPlugin A P S) × (x : A) × (get owner r.plugins
              ≡ some p)
            × (get name p.actions ≡ some x)
            × (find_action r name ≡ (if p.enabled then ok x else err (disabled owner))))
  unfolding find_action
  find_action_lem ops name = elim (Option-cases (get name (run new ops).action_index)) [
    | inl missing ↦ inl (ground (arith, missing), λ owner p at. unheld missing owner p at)
    | inr (owner, points) ↦ inr (
        let (items, at, inside) = c.pointing name owner points in held owner points items at inside)
  ]
    where
      r : PluginRegistry A P S
      r = run new ops

      c : Indexed r.action_index (λ o. holding (λ p. p.actions) (get o r.plugins))
      c = (registry-IsConsistent ops).actions

      unheld :
          get name r.action_index ≡ none
          → (owner : String) (p : RegisteredPlugin A P S) → get owner r.plugins ≡ some p
          → has (get name p.actions) ≡ false
      unheld missing owner p at = ground (arith, c.covering name owner p.actions)

      held :
          (owner : String)
          → get name r.action_index ≡ some owner
          → (items : Map String A) → holding (λ p. p.actions) (get owner r.plugins) ≡ some items
          → has (get name items) ≡ true
          → (o : String) × (p : RegisteredPlugin A P S) × (x : A) × (get o r.plugins ≡ some p)
            × (get name p.actions ≡ some x)
            × (find_action r name ≡ (if p.enabled then ok x else err (disabled o)))
      held owner points items at inside = elim (Option-cases (get owner r.plugins)) [
        | inl gone ↦ absurd (ground arith)
        | inr (p, there) ↦ elim (Option-cases (get name p.actions)) [
          | inl lost ↦ absurd (ground arith)
          | inr (x, present) ↦ (owner, p, x, there, present, ground arith)
        ]
      ]
