-- ===== src/Actions/Rollback.antt =====
-- guardian/actions/rollback.py. The action's own `rollback` is a function that may raise; `O`
-- stands for the outputs, `T` for targets and `S` for snapshots.
use cyber_sage.Prelude.{
  String, Bool, true, false, not, Option, none, some, Result, ok, err, if◌then◌else◌, ◌≡◌, ◌↔◌,
  arith, refl,
}

pub data RollbackError : Type 0 where
  not_supported : RollbackError
  no_snapshot : RollbackError
  raised : String → RollbackError
  reported : String → RollbackError

pub record RollbackResult (O : Type 0) : Type 0 where
  pub success : Bool
  pub output : Option O
  pub error : Option RollbackError

-- The parts of a `BaseAction` that a rollback uses.
pub record Action (T S O : Type 0) : Type 0 where
  pub rollback_supported : Bool
  pub rollback : T → S → Result String (RollbackResult O)

module _ {O : Type 0} where
  refuse : RollbackError → RollbackResult O
  refuse e = record { success = false; output = none; error = some e }

  -- `except Exception` reports the failure.
  caught : Result String (RollbackResult O) → RollbackResult O
  unfolding refuse
  caught (ok result) = result
  caught (err message) = refuse (raised message)

  reports_success :
      (o : Result String (RollbackResult O))
      → (caught o).success ≡ true
      → (r : RollbackResult O) × (o ≡ ok r) × (r.success ≡ true)
  unfolding caught
  reports_success (ok r) h = (r, refl, h)
  reports_success (err m) h = cc

module _ {T S O : Type 0} where
  unfoldable pub is_rollback_needed : Bool → Action T S O → Bool
  is_rollback_needed passed action =
      if not action.rollback_supported then false else if passed then false else true

  roll_back_to : Action T S O → T → Option S → RollbackResult O
  unfolding refuse caught
  roll_back_to action target none = refuse no_snapshot
  roll_back_to action target (some s) = caught (action.rollback target s)

  unfoldable pub request_rollback : Action T S O → T → Option S → RollbackResult O
  unfolding roll_back_to
  request_rollback action target snapshot =
      if not action.rollback_supported
      then refuse not_supported
      else roll_back_to action target snapshot

  supported-success :
      (action : Action T S O) (target : T) (snapshot : Option S)
      → (request_rollback action target snapshot).success ≡ true
      → (action.rollback_supported ≡ true) × ((roll_back_to action target snapshot).success ≡ true)
  unfolding request_rollback
  supported-success action target snapshot h = ground arith

  snapshot-success :
      (action : Action T S O) (target : T) (snapshot : Option S)
      → (roll_back_to action target snapshot).success ≡ true
      → (s : S) × (snapshot ≡ some s)
        × ((r : RollbackResult O) × (action.rollback target s ≡ ok r) × (r.success ≡ true))
  unfolding roll_back_to
  snapshot-success action target none h = cc
  snapshot-success action target (some s) h =
      (s, refl, reports_success (action.rollback target s) h)

  -- A rollback succeeds exactly if the action supports it, a snapshot was kept, and the action's
  -- own rollback returns a result that reports success.
  pub request_rollback_iff :
      (action : Action T S O) (target : T) (snapshot : Option S)
      → ((request_rollback action target snapshot).success ≡ true) ↔ (
          (action.rollback_supported ≡ true)
          × ((s : S) × (snapshot ≡ some s)
              × ((r : RollbackResult O) × (action.rollback target s ≡ ok r) × (r.success ≡ true))))
  unfolding request_rollback
  request_rollback_iff action target snapshot = (
    λ h.
        let (supported, rest) = supported-success action target snapshot h in
        (supported, snapshot-success action target snapshot rest),
    λ (supported, (s, kept, (r, returned, good))). ground arith,
  )
