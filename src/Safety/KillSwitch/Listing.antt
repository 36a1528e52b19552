-- ===== src/Safety/KillSwitch/Listing.antt =====
-- `get_all_active` of guardian/safety/kill_switch.py: the registry keeps one switch for a key, and
-- the listing shows just those that are on.
use cyber_sage.Prelude.{
  String, ◌≡◌, refl, Bool, false, Option, List, [], ◌∷◌, ◌++◌, ◌||◌, ◌∙◌, ap, arith, ◌==◌, eq_iff,
}
use cyber_sage.Prelude.Dict.{Dict, lookup, Unique, insert-Unique}
use cyber_sage.Safety.KillSwitch.{
  KillSwitchScope, SwitchState, KillSwitch, global, agent, action, init, new_switch, create_in,
  get_or_create, write_back, activate, deactivate, is_blocked, get_state, active_in, get_all_active,
}
use cyber_sage.Safety.KillSwitch.View.{
  flag, is_active, same_switch, Request, activate_request, deactivate_request, check_request,
  state_request, handle, serve, last_word, is_active-serve,
}

pub record IsUnique (ks : KillSwitch) : Type 0 where
  pub agents : Unique ks.agents
  pub actions : Unique ks.actions

create_in-Unique : (k : String) (d : Dict SwitchState) → Unique d → Unique (create_in k d).1
unfolding create_in
create_in-Unique k d u = ground (arith, insert-Unique k new_switch d)

get_or_create-IsUnique :
    (scope : KillSwitchScope) (k : String) {ks : KillSwitch}
    → IsUnique ks
    → IsUnique (get_or_create scope k ks).1
unfolding get_or_create
get_or_create-IsUnique global k u = u
get_or_create-IsUnique agent k {ks} u = record {
  agents = create_in-Unique k ks.agents u.agents;
  actions = u.actions;
}
get_or_create-IsUnique action k {ks} u = record {
  agents = u.agents;
  actions = create_in-Unique k ks.actions u.actions;
}

written-IsUnique :
    (scope : KillSwitchScope) (k : String) (s : SwitchState) {ks : KillSwitch}
    → IsUnique ks
    → IsUnique (write_back scope k s ks)
unfolding write_back
written-IsUnique global k s u = record { agents = u.agents; actions = u.actions }
written-IsUnique agent k s {ks} u = record {
  agents = insert-Unique k s ks.agents u.agents;
  actions = u.actions;
}
written-IsUnique action k s {ks} u = record {
  agents = u.agents;
  actions = insert-Unique k s ks.actions u.actions;
}

is_blocked-IsUnique :
    (scope : KillSwitchScope) (k : String) (a b : Option String) (ks : KillSwitch)
    → IsUnique ks
    → IsUnique (is_blocked scope k a b ks).1
unfolding is_blocked
is_blocked-IsUnique scope k a b ks u = ground (arith, get_or_create-IsUnique scope k u)

handle-IsUnique : (r : Request) (ks : KillSwitch) → IsUnique ks → IsUnique (handle r ks)
unfolding handle activate deactivate get_state
handle-IsUnique (activate_request scope k by reason now) ks u =
    written-IsUnique scope k _ (get_or_create-IsUnique scope k u)
handle-IsUnique (deactivate_request scope k) ks u =
    written-IsUnique scope k _ (get_or_create-IsUnique scope k u)
handle-IsUnique (check_request scope k a b) ks u = is_blocked-IsUnique scope k a b ks u
handle-IsUnique (state_request scope k) ks u = get_or_create-IsUnique scope k u

serve-IsUnique : (rs : List Request) (ks : KillSwitch) → IsUnique ks → IsUnique (serve rs ks)
unfolding serve
serve-IsUnique [] ks u = u
serve-IsUnique (r ∷ rs) ks u = serve-IsUnique rs (handle r ks) (handle-IsUnique r ks u)

-- Is the switch among the listed ones?
abbrev pub listed : List (KillSwitchScope × String × SwitchState) → KillSwitchScope → String → Bool
listed [] at k = false
listed ((scope, j, s) ∷ es) at k = same_switch scope j at k || listed es at k

listed-append :
    (xs ys : List (KillSwitchScope × String × SwitchState)) (at : KillSwitchScope) (k : String)
    → listed (xs ++ ys) at k ≡ (listed xs at k || listed ys at k)
listed-append [] ys at k = refl
listed-append ((scope, j, s) ∷ xs) ys at k = ground (arith, listed-append xs ys at k)

module _ (scope at : KillSwitchScope) (k : String) where
  listed-active_in :
      ((j : String) → same_switch scope j at k ≡ (j == k))
      → (d : Dict SwitchState) → Unique d
      → listed (active_in scope d) at k ≡ flag (lookup k d)
  unfolding active_in lookup
  listed-active_in same [] u = refl
  listed-active_in same ((j, s) ∷ d) u =
      ground (arith, listed-active_in same d u.1, same j, eq_iff j k, u.0)

  listed-active_in_other :
      ((j : String) → same_switch scope j at k ≡ false)
      → (d : Dict SwitchState) → listed (active_in scope d) at k ≡ false
  unfolding active_in
  listed-active_in_other other [] = refl
  listed-active_in_other other ((j, s) ∷ d) =
      ground (arith, listed-active_in_other other d, other j)

listed-get_all_active :
    (ks : KillSwitch) (at : KillSwitchScope) (k : String)
    → IsUnique ks
    → listed (get_all_active ks) at k ≡ is_active ks at k
unfolding get_all_active
listed-get_all_active ks global k u = ground (
  arith,
  listed-append (active_in agent ks.agents) (active_in action ks.actions) global k,
  listed-active_in_other agent global k (λ j. refl) ks.agents,
  listed-active_in_other action global k (λ j. refl) ks.actions,
)
listed-get_all_active ks agent k u = ground (
  arith,
  listed-append (active_in agent ks.agents) (active_in action ks.actions) agent k,
  listed-active_in agent agent k (λ j. refl) ks.agents u.agents,
  listed-active_in_other action agent k (λ j. refl) ks.actions,
)
listed-get_all_active ks action k u = ground (
  arith,
  listed-append (active_in agent ks.agents) (active_in action ks.actions) action k,
  listed-active_in_other agent action k (λ j. refl) ks.agents,
  listed-active_in action action k (λ j. refl) ks.actions u.actions,
)

-- After any requests to a new registry the listing holds a switch exactly if the last activation
-- or deactivation that names it was an activation.
pub listed-get_all_active-serve :
    (rs : List Request) (at : KillSwitchScope) (k : String)
    → listed (get_all_active (serve rs init)) at k ≡ last_word false rs at k
listed-get_all_active-serve rs at k =
    listed-get_all_active (serve rs init) at k
      (serve-IsUnique rs init (record { agents = tt; actions = tt }))
    ∙ is_active-serve rs init at k
    ∙ ap (λ b. last_word b rs at k) (off at)
  where
    off : (at : KillSwitchScope) → is_active init at k ≡ false
    off global = refl
    off agent = unfold lookup in refl
    off action = unfold lookup in refl
