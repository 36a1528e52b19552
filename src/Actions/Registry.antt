-- ===== src/Actions/Registry.antt =====
-- guardian/actions/registry.py: the actions that are registered, by type and name.
use cyber_sage.Prelude.{String, Bool, Option, [], ◌∷◌, is_some, concat}
use cyber_sage.Prelude.Dict.{Dict, lookup, insert}

abbrev registry_key : String → String → String
registry_key action_type action_name = concat (action_type ∷ ":" ∷ action_name ∷ [])

module _ {A : Type 0} where
  unfoldable pub register_action : (action_type action_name : String) → A → Dict A → Dict A
  register_action action_type action_name action registry =
      insert (registry_key action_type action_name) action registry

  unfoldable pub get_action : Dict A → (action_type action_name : String) → Option A
  get_action registry action_type action_name =
      lookup (registry_key action_type action_name) registry

  unfoldable pub is_registered : Dict A → (action_type action_name : String) → Bool
  unfolding get_action
  is_registered registry action_type action_name =
      is_some (get_action registry action_type action_name)
