-- ===== src/Safety/KillSwitch/View.antt =====
-- guardian/safety/kill_switch.py as a table of flags: which switches are on, and which requests
-- they block.
use cyber_sage.Prelude.{
  ℕ, String, ◌≡◌, refl, ap, ◌∙◌, Bool, true, false, Option, none, some, List, [], ◌∷◌, ◌||◌, arith,
  ◌==◌, eq_iff, if◌then◌else◌, truthy,
}
use cyber_sage.Prelude.Dict.{Dict, lookup, insert, lookup-insert}
use cyber_sage.Safety.KillSwitch.{
  KillSwitchScope, SwitchState, KillSwitch, global, agent, action, activate, deactivate, is_blocked,
  get_state, get_or_create, create_in, new_switch,
}

abbrev pub flag : Option SwitchState → Bool
flag none = false
flag (some s) = s.active

-- Is the switch for this scope and key on? There is one global switch, whatever the key.
abbrev pub is_active : KillSwitch → KillSwitchScope → String → Bool
is_active ks global k = ks.global_switch.active
is_active ks agent k = flag (lookup k ks.agents)
is_active ks action k = flag (lookup k ks.actions)

-- An optional key that was given and is not empty, and whose switch is on.
abbrev pub named_active : KillSwitch → KillSwitchScope → Option String → Bool
named_active ks scope none = false
named_active ks scope (some k) = is_active ks scope k

-- A request is blocked exactly when the global switch, the switch of the agent that it names, that
-- of the action type that it names, or the switch that it asks about is on.
pub is_blocked_lem :
    (ks : KillSwitch) (scope : KillSwitchScope) (key : String)
    (agent_key action_key : Option String)
    → (is_blocked scope key agent_key action_key ks).0.0 ≡ (
        is_active ks global key
        || (named_active ks agent (truthy agent_key)
            || (named_active ks action (truthy action_key) || is_active ks scope key)))
unfolding is_blocked
is_blocked_lem ks global key a b = ground arith
is_blocked_lem ks agent key a b = ground arith
is_blocked_lem ks action key a b = ground arith

-- Two names for one switch.
abbrev pub same_switch : KillSwitchScope → String → KillSwitchScope → String → Bool
same_switch global j global k = true
same_switch agent j agent k = j == k
same_switch action j action k = j == k
same_switch _ j _ k = false

module _ (j k : String) (d : Dict SwitchState) where
  flag-create_in : flag (lookup k (create_in j d).1) ≡ flag (lookup k d)
  unfolding create_in
  flag-create_in = ground (arith, eq_iff j k, lookup-insert j k new_switch d)

  lookup-insert-create_in :
      (s : SwitchState)
      → lookup k (insert j s (create_in j d).1) ≡ (if j == k then some s else lookup k d)
  unfolding create_in
  lookup-insert-create_in s = ground (
    arith,
    eq_iff j k,
    lookup-insert j k s d,
    lookup-insert j k s (insert j new_switch d),
    lookup-insert j k new_switch d,
  )

module _ (ks : KillSwitch) (j k : String) where
  pub is_active-activate :
      (scope at : KillSwitchScope) (by reason : String) (now : ℕ)
      → is_active (activate scope j by reason now ks) at k
        ≡ (if same_switch scope j at k then true else is_active ks at k)
  unfolding activate
  is_active-activate global global by reason now = refl
  is_active-activate agent agent by reason now =
      rw (lookup-insert-create_in j k ks.agents) (ground arith)
  is_active-activate action action by reason now =
      rw (lookup-insert-create_in j k ks.actions) (ground arith)
  is_active-activate _ _ by reason now = refl

  pub is_active-deactivate :
      (scope at : KillSwitchScope)
      → is_active (deactivate scope j ks) at k
        ≡ (if same_switch scope j at k then false else is_active ks at k)
  unfolding deactivate
  is_active-deactivate global global = refl
  is_active-deactivate agent agent = rw (lookup-insert-create_in j k ks.agents) (ground arith)
  is_active-deactivate action action = rw (lookup-insert-create_in j k ks.actions) (ground arith)
  is_active-deactivate _ _ = refl

  pub is_active-get_or_create :
      (scope at : KillSwitchScope) → is_active (get_or_create scope j ks).1 at k ≡ is_active ks at k
  unfolding get_or_create
  is_active-get_or_create agent agent = flag-create_in j k ks.agents
  is_active-get_or_create action action = flag-create_in j k ks.actions
  is_active-get_or_create _ _ = refl

  pub is_active-get_state :
      (scope at : KillSwitchScope) → is_active (get_state scope j ks).1 at k ≡ is_active ks at k
  unfolding get_state
  is_active-get_state scope at = is_active-get_or_create scope at

  pub is_active-is_blocked :
      (scope at : KillSwitchScope) (agent_key action_key : Option String)
      → is_active (is_blocked scope j agent_key action_key ks).1 at k ≡ is_active ks at k
  unfolding is_blocked
  is_active-is_blocked scope at a b = ground (arith, is_active-get_or_create scope at)

-- What operators and gates do to a registry.
pub data Request : Type 0 where
  activate_request : KillSwitchScope → String → (by reason : String) → ℕ → Request
  deactivate_request : KillSwitchScope → String → Request
  check_request : KillSwitchScope → String → (agent_key action_key : Option String) → Request
  state_request : KillSwitchScope → String → Request

unfoldable pub handle : Request → KillSwitch → KillSwitch
handle (activate_request scope k by reason now) ks = activate scope k by reason now ks
handle (deactivate_request scope k) ks = deactivate scope k ks
handle (check_request scope k a b) ks = (is_blocked scope k a b ks).1
handle (state_request scope k) ks = (get_state scope k ks).1

unfoldable pub serve : List Request → KillSwitch → KillSwitch
serve [] ks = ks
serve (r ∷ rs) ks = serve rs (handle r ks)

-- What the last request that names a switch says of it; `before` where none does.
abbrev pub last_word : Bool → List Request → KillSwitchScope → String → Bool
last_word before [] at k = before
last_word before (activate_request scope j _ _ _ ∷ rs) at k =
    last_word (if same_switch scope j at k then true else before) rs at k
last_word before (deactivate_request scope j ∷ rs) at k =
    last_word (if same_switch scope j at k then false else before) rs at k
last_word before (check_request _ _ _ _ ∷ rs) at k = last_word before rs at k
last_word before (state_request _ _ ∷ rs) at k = last_word before rs at k

-- After any sequence of requests a switch is on exactly if the last activation or deactivation
-- that names it was an activation, or, where none names it, if it was on before. Checks and state
-- queries turn no switch on or off, although they may create its record.
pub is_active-serve :
    (rs : List Request) (ks : KillSwitch) (at : KillSwitchScope) (k : String)
    → is_active (serve rs ks) at k ≡ last_word (is_active ks at k) rs at k
unfolding serve handle
is_active-serve [] ks at k = refl
is_active-serve (activate_request scope j by reason now ∷ rs) ks at k =
    is_active-serve rs (activate scope j by reason now ks) at k
    ∙ ap (λ b. last_word b rs at k) (is_active-activate ks j k scope at by reason now)
is_active-serve (deactivate_request scope j ∷ rs) ks at k =
    is_active-serve rs (deactivate scope j ks) at k
    ∙ ap (λ b. last_word b rs at k) (is_active-deactivate ks j k scope at)
is_active-serve (check_request scope j a b ∷ rs) ks at k =
    is_active-serve rs (is_blocked scope j a b ks).1 at k
    ∙ ap (λ b. last_word b rs at k) (is_active-is_blocked ks j k scope at a b)
is_active-serve (state_request scope j ∷ rs) ks at k =
    is_active-serve rs (get_state scope j ks).1 at k
    ∙ ap (λ b. last_word b rs at k) (is_active-get_state ks j k scope at)
