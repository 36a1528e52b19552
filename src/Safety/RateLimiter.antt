-- ===== src/Safety/RateLimiter.antt =====
-- guardian/safety/rate_limiter.py. Times are microseconds since the epoch, and a clock that raises
-- is `none`. `t < now - 60.0` is written `t + 60 s < now`, which is the same where `-` would stop
-- at 0. A `deque` is a list with its oldest entry first.
pub mod Windows
pub mod Promise
pub mod Served
pub mod Bounds
use cyber_sage.Prelude.{
  ℕ, ◌+◌, String, Bool, true, false, not, Option, none, some, List, [], ◌∷◌, ◌++◌, length, count_if,
  ltb, leb, if◌then◌else◌, map, truthy,
}
use cyber_sage.Prelude.Dict.{Dict, lookup, insert}

abbrev pub minute : ℕ
minute = 60000000

abbrev pub hour : ℕ
hour = 3600000000

pub record ActionRateLimiter : Type 0 where
  pub max_per_minute : ℕ
  pub max_per_hour : ℕ
  pub minute_windows : Dict (List ℕ)
  pub hour_windows : Dict (List ℕ)

unfoldable pub init : ℕ → ℕ → ActionRateLimiter
init max_per_minute max_per_hour = record {
  max_per_minute = max_per_minute;
  max_per_hour = max_per_hour;
  minute_windows = [];
  hour_windows = [];
}

-- `d[key]` of a `defaultdict`: a missing key is an empty window.
abbrev pub or_empty : Option (List ℕ) → List ℕ
or_empty none = []
or_empty (some w) = w

abbrev pub window : String → Dict (List ℕ) → List ℕ
window key d = or_empty (lookup key d)

-- Older than the window `width` that ends at `now`.
abbrev pub stale : ℕ → ℕ → ℕ → Bool
stale width now t = ltb (t + width) now

-- The loop pops from the front while the oldest entry is stale.
unfoldable pub prune : ℕ → ℕ → List ℕ → List ℕ
prune width now [] = []
prune width now (t ∷ w) = let rest = prune width now w in if stale width now t then rest else t ∷ w

pub data Refusal : Type 0 where
  minute_limit : (count limit : ℕ) → Refusal
  hour_limit : (count limit : ℕ) → Refusal
  limiter_error : Refusal

-- Both `defaultdict` reads create the entry, so the pruned windows are written in every case.
record_at : String → ℕ → ActionRateLimiter → (Bool × Option Refusal) × ActionRateLimiter
record_at key now rl =
    let mw = prune minute now (window key rl.minute_windows) in
    let hw = prune hour now (window key rl.hour_windows) in
    if leb rl.max_per_minute (length mw)
    then (
      (false, some (minute_limit (length mw) rl.max_per_minute)),
      record rl {
        minute_windows = insert key mw rl.minute_windows;
        hour_windows = insert key hw rl.hour_windows;
      },
    )
    else if leb rl.max_per_hour (length hw)
    then (
      (false, some (hour_limit (length hw) rl.max_per_hour)),
      record rl {
        minute_windows = insert key mw rl.minute_windows;
        hour_windows = insert key hw rl.hour_windows;
      },
    )
    else (
      (true, none),
      record rl {
        minute_windows = insert key (mw ++ now ∷ []) rl.minute_windows;
        hour_windows = insert key (hw ++ now ∷ []) rl.hour_windows;
      },
    )

-- `except Exception` blocks.
unfoldable pub check_and_record :
    String → Option ℕ → ActionRateLimiter → (Bool × Option Refusal) × ActionRateLimiter
unfolding record_at prune
check_and_record key none rl = ((false, some limiter_error), rl)
check_and_record key (some now) rl = record_at key now rl

fresh : ℕ → ℕ → List ℕ → ℕ
fresh width now w = count_if (λ t. not (stale width now t)) w

-- Only counts, but its reads create the missing windows too.
check_at : String → ℕ → ActionRateLimiter → (Bool × Option Refusal) × ActionRateLimiter
unfolding fresh
check_at key now rl =
    let mc = fresh minute now (window key rl.minute_windows) in
    let hc = fresh hour now (window key rl.hour_windows) in
    (
      if leb rl.max_per_minute mc
          then (false, some (minute_limit mc rl.max_per_minute))
          else if leb rl.max_per_hour hc
          then (false, some (hour_limit hc rl.max_per_hour))
          else (true, none),
      record rl {
        minute_windows = insert key (window key rl.minute_windows) rl.minute_windows;
        hour_windows = insert key (window key rl.hour_windows) rl.hour_windows;
      },
    )

unfoldable pub check_only :
    String → Option ℕ → ActionRateLimiter → (Bool × Option Refusal) × ActionRateLimiter
unfolding check_at
check_only key none rl = ((false, some limiter_error), rl)
check_only key (some now) rl = check_at key now rl

clear_in : String → Dict (List ℕ) → Dict (List ℕ)
clear_in key d = insert key [] d

reset_for : Option String → ActionRateLimiter → ActionRateLimiter
unfolding clear_in
reset_for none rl = record rl { minute_windows = []; hour_windows = [] }
reset_for (some key) rl = record rl {
  minute_windows = clear_in key rl.minute_windows;
  hour_windows = clear_in key rl.hour_windows;
}

unfoldable pub reset : Option String → ActionRateLimiter → ActionRateLimiter
unfolding reset_for
reset action_type rl = reset_for (truthy action_type) rl
