-- ===== src/Safety/KillSwitch.antt =====
-- guardian/safety/kill_switch.py. Keys are texts, so no check of the module can raise; a reason is
-- kept as data where the source renders it into a message. The object that `_get_or_create`
-- returns is shared with the registry, so a write to it is written back under its key.
pub mod View
pub mod Listing
use cyber_sage.Prelude.{
  ℕ, String, Bool, true, false, Option, none, some, List, [], ◌∷◌, ◌++◌, if◌then◌else◌, truthy,
}
use cyber_sage.Prelude.Dict.{Dict, lookup, insert}

pub data KillSwitchScope : Type 0 where
  global agent action : KillSwitchScope

pub record SwitchState : Type 0 where
  pub active : Bool
  pub activated_at : Option ℕ
  pub activated_by : Option String
  pub reason : Option String

abbrev pub new_switch : SwitchState
new_switch = record { active = false; activated_at = none; activated_by = none; reason = none }

abbrev activate_switch : SwitchState → String → String → ℕ → SwitchState
activate_switch s by reason now = record s {
  active = true;
  activated_at = some now;
  activated_by = some by;
  reason = some reason;
}

abbrev deactivate_switch : SwitchState → SwitchState
deactivate_switch s = record s {
  active = false;
  activated_at = none;
  activated_by = none;
  reason = none;
}

pub record KillSwitch : Type 0 where
  pub global_switch : SwitchState
  pub agents : Dict SwitchState
  pub actions : Dict SwitchState

abbrev pub init : KillSwitch
init = record { global_switch = new_switch; agents = []; actions = [] }

-- `if key not in d: d[key] = _SwitchState()`, then `d[key]`
create_in : String → Dict SwitchState → SwitchState × Dict SwitchState
create_in key d = elim (lookup key d) [
  | some s ↦ (s, d)
  | none ↦ (new_switch, insert key new_switch d)
]

unfoldable pub get_or_create : KillSwitchScope → String → KillSwitch → SwitchState × KillSwitch
unfolding create_in
get_or_create global key ks = (ks.global_switch, ks)
get_or_create agent key ks = let (s, d) = create_in key ks.agents in (s, record ks { agents = d })
get_or_create action key ks =
    let (s, d) = create_in key ks.actions in (s, record ks { actions = d })

write_back : KillSwitchScope → String → SwitchState → KillSwitch → KillSwitch
write_back global key s ks = record ks { global_switch = s }
write_back agent key s ks = record ks { agents = insert key s ks.agents }
write_back action key s ks = record ks { actions = insert key s ks.actions }

unfoldable pub activate :
    KillSwitchScope → String → (by reason : String) (now : ℕ) → KillSwitch → KillSwitch
unfolding get_or_create write_back
activate scope key by reason now ks =
    let (s, ks') = get_or_create scope key ks in
    write_back scope key (activate_switch s by reason now) ks'

unfoldable pub deactivate : KillSwitchScope → String → KillSwitch → KillSwitch
unfolding get_or_create write_back
deactivate scope key ks =
    let (s, ks') = get_or_create scope key ks in write_back scope key (deactivate_switch s) ks'

pub data BlockReason : Type 0 where
  global_active : Option String → BlockReason
  agent_active : String → Option String → BlockReason
  action_active : String → Option String → BlockReason
  key_active : KillSwitchScope → String → Option String → BlockReason

-- `if k and k in d` and then `d[k].active`
active_entry : Dict SwitchState → Option String → Option (String × SwitchState)
active_entry d none = none
active_entry d (some k) = elim (lookup k d) [
  | none ↦ none
  | some s ↦ if s.active then some (k, s) else none
]

-- Step 4 of `is_blocked`: the requested key itself, whose switch may be created here.
check_key : KillSwitchScope → String → KillSwitch → (Bool × Option BlockReason) × KillSwitch
unfolding get_or_create
check_key scope key ks =
    let (s, ks') = get_or_create scope key ks in
    (if s.active then (true, some (key_active scope key s.reason)) else (false, none), ks')

check_action :
    KillSwitchScope → String → Option String → KillSwitch → (Bool × Option BlockReason) × KillSwitch
unfolding active_entry check_key
check_action scope key action_key ks = elim (active_entry ks.actions (truthy action_key)) [
  | some (k, s) ↦ ((true, some (action_active k s.reason)), ks)
  | none ↦ check_key scope key ks
]

check_agent :
    KillSwitchScope
    → String
    → (agent_key action_key : Option String) → KillSwitch
    → (Bool × Option BlockReason) × KillSwitch
unfolding active_entry check_action
check_agent scope key agent_key action_key ks = elim (active_entry ks.agents (truthy agent_key)) [
  | some (k, s) ↦ ((true, some (agent_active k s.reason)), ks)
  | none ↦ check_action scope key action_key ks
]

unfoldable pub is_blocked :
    KillSwitchScope
    → String
    → (agent_key action_key : Option String) → KillSwitch
    → (Bool × Option BlockReason) × KillSwitch
unfolding check_agent
is_blocked scope key agent_key action_key ks =
    if ks.global_switch.active
    then ((true, some (global_active ks.global_switch.reason)), ks)
    else check_agent scope key agent_key action_key ks

unfoldable pub get_state : KillSwitchScope → String → KillSwitch → SwitchState × KillSwitch
unfolding get_or_create
get_state scope key ks = get_or_create scope key ks

active_in : KillSwitchScope → Dict SwitchState → List (KillSwitchScope × String × SwitchState)
active_in scope [] = []
active_in scope ((k, s) ∷ d) =
    let rest = active_in scope d in if s.active then (scope, k, s) ∷ rest else rest

unfoldable pub get_all_active : KillSwitch → List (KillSwitchScope × String × SwitchState)
unfolding active_in
get_all_active ks =
    (if ks.global_switch.active then (global, "global", ks.global_switch) ∷ [] else [])
    ++ (active_in agent ks.agents ++ active_in action ks.actions)
