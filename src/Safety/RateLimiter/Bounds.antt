-- ===== src/Safety/RateLimiter/Bounds.antt =====
-- The limits of guardian/safety/rate_limiter.py: what a verdict says, and how many actions pass.
use cyber_sage.Prelude.{
  ℕ, suc, ◌≤◌, ◌<◌, String, ◌≡◌, ◌&&◌, ◌==◌, eq_iff, true, Option, none, some, List, [], ◌∷◌, ◌++◌,
  arith, length-append, ltb, if◌then◌else◌, truthy, Bool-cases, inl, inr, sym, ap, ap₂, subst, ◌∙◌,
}
use cyber_sage.Safety.RateLimiter.{
  ActionRateLimiter, minute, hour, init, check_and_record, check_only,
}
use cyber_sage.Safety.RateLimiter.Windows.{recent-append, length-recent-le}
use cyber_sage.Safety.RateLimiter.Promise.{
  Log, times, used, has_room, TracksLog, forget, times-append, times-forget,
}
use cyber_sage.Safety.RateLimiter.Served.{
  Request, act, look, clear, handle, note, serve, moment, Timely, end_time, act-has_room,
  look-has_room, handle-TracksLog, serve-TracksLog, config-handle, config-serve, TracksLog-init,
}

used-append :
    (width now later : ℕ) (key k : String) (log : Log)
    → now ≤ later
    → used width later k (log ++ (key, now) ∷ [])
      ≤ (if key == k then suc (used width now k log) else used width later k log)
used-append width now later key k log h = elim (Bool-cases (key == k)) [
  | inl e ↦
      rw (times-append key k now log, e, recent-append width later now (times k log))
        (rw length-append (ground (arith, length-recent-le width now later (times k log) h)))
  | inr e ↦ rw (times-append key k now log, e) (omega arith)
]

used-forget :
    (width now : ℕ) (key : Option String) (k : String) (log : Log)
    → used width now k (forget key log) ≤ used width now k log
used-forget width now none k log = omega arith
used-forget width now (some key) k log = rw (times-forget key k log) (ground arith)

pub record IsBounded (last : ℕ) (rl : ActionRateLimiter) (log : Log) : Type 0 where
  pub minutes : (now : ℕ) (k : String) → last ≤ now → used minute now k log ≤ rl.max_per_minute
  pub hours : (now : ℕ) (k : String) → last ≤ now → used hour now k log ≤ rl.max_per_hour

passed-le :
    (width now later : ℕ) (key k : String) (log : Log) (limit : ℕ)
    → now ≤ later
    → used width now key log < limit
    → used width later k log ≤ limit
    → used width later k (log ++ (key, now) ∷ []) ≤ limit
passed-le width now later key k log limit h room old = elim (Bool-cases (key == k)) [
  | inl e ↦ ground (
    arith,
    used-append width now later key k log h,
    e,
    ap (λ j. used width now j log) ((eq_iff key k).0 e),
  )
  | inr e ↦ ground (arith, used-append width now later key k log h)
]

module _ (last now : ℕ) (key : String) (rl : ActionRateLimiter) (log : Log) (late : last ≤ now)
    (t : TracksLog last rl log) (b : IsBounded last rl log) where
  act-IsBounded : IsBounded now (handle (act key (some now)) rl) (note (act key (some now)) rl log)
  unfolding note
  act-IsBounded = elim (Bool-cases (check_and_record key (some now) rl).0.0) [
    | inl ok ↦
        let room : has_room rl now key log ≡ true =
          sym (act-has_room last now rl log key late t) ∙ ok in
        rw ok (record {
          minutes = λ m k h. rw (config-handle (act key (some now)) rl).0 (
              passed-le minute now m key k log rl.max_per_minute h (ground arith)
                (b.minutes m k (omega arith)));
          hours = λ m k h. rw (config-handle (act key (some now)) rl).1 (
              passed-le hour now m key k log rl.max_per_hour h (ground arith)
                (b.hours m k (omega arith)));
        })
    | inr full ↦ rw full (record {
      minutes = λ m k h. rw (config-handle (act key (some now)) rl).0 (b.minutes m k (omega arith));
      hours = λ m k h. rw (config-handle (act key (some now)) rl).1 (b.hours m k (omega arith));
    })
  ]

-- A call after which the log holds no more than before.
kept-IsBounded :
    (last now : ℕ) (r : Request) (rl : ActionRateLimiter) (log log' : Log)
    → last ≤ now
    → IsBounded last rl log
    → ((m : ℕ) (k : String) → used minute m k log' ≤ used minute m k log)
    → ((m : ℕ) (k : String) → used hour m k log' ≤ used hour m k log)
    → IsBounded now (handle r rl) log'
kept-IsBounded last now r rl log log' late b fm fh = record {
  minutes = λ m k h. rw (config-handle r rl).0 (omega (arith, fm m k, b.minutes m k (omega arith)));
  hours = λ m k h. rw (config-handle r rl).1 (omega (arith, fh m k, b.hours m k (omega arith)));
}

handle-IsBounded :
    (last : ℕ) (r : Request) (rl : ActionRateLimiter) (log : Log)
    → last ≤ moment last r
    → TracksLog last rl log
    → IsBounded last rl log
    → IsBounded (moment last r) (handle r rl) (note r rl log)
unfolding note
handle-IsBounded last (act key none) rl log late t b =
    kept-IsBounded last last (act key none) rl log log late b (λ m k. omega arith)
      (λ m k. omega arith)
handle-IsBounded last (act key (some now)) rl log late t b =
    act-IsBounded last now key rl log late t b
handle-IsBounded last (look key clock) rl log late t b =
    kept-IsBounded last (moment last (look key clock)) (look key clock) rl log log late b
      (λ m k. omega arith) (λ m k. omega arith)
handle-IsBounded last (clear key) rl log late t b =
    kept-IsBounded last last (clear key) rl log (forget (truthy key) log) late b
      (λ m k. used-forget minute m (truthy key) k log)
      (λ m k. used-forget hour m (truthy key) k log)

serve-IsBounded :
    (last : ℕ) (rs : List Request) (rl : ActionRateLimiter) (log : Log)
    → Timely last rs
    → TracksLog last rl log
    → IsBounded last rl log
    → IsBounded (end_time last rs) (serve rs rl log).0 (serve rs rl log).1
unfolding serve
serve-IsBounded last [] rl log timely t b = b
serve-IsBounded last (r ∷ rs) rl log timely t b =
    serve-IsBounded (moment last r) rs (handle r rl) (note r rl log) timely.1
      (handle-TracksLog last r rl log timely.0 t) (handle-IsBounded last r rl log timely.0 t b)

module _ (rl : ActionRateLimiter) (tracks : TracksLog 0 rl []) (rs : List Request)
    (timely : Timely 0 rs) (now : ℕ) (late : end_time 0 rs ≤ now) (key : String) where
  has_room-serve : has_room (serve rs rl []).0 now key (serve rs rl []).1 ≡ (
      ltb (used minute now key (serve rs rl []).1) rl.max_per_minute
      && ltb (used hour now key (serve rs rl []).1) rl.max_per_hour)
  has_room-serve =
      ap₂
        (λ a b.
          ltb (used minute now key (serve rs rl []).1) a
          && ltb (used hour now key (serve rs rl []).1) b)
        (config-serve rs rl []).0 (config-serve rs rl []).1

  verdict-serve :
      ((check_and_record key (some now) (serve rs rl []).0).0.0
        ≡ has_room (serve rs rl []).0 now key (serve rs rl []).1)
      × ((check_only key (some now) (serve rs rl []).0).0.0
          ≡ has_room (serve rs rl []).0 now key (serve rs rl []).1)
  verdict-serve =
      let t = serve-TracksLog 0 rs rl [] timely tracks in
      (
        act-has_room (end_time 0 rs) now (serve rs rl []).0 (serve rs rl []).1 key late t,
        look-has_room (end_time 0 rs) now (serve rs rl []).0 (serve rs rl []).1 key late t,
      )

  used-serve :
      (used minute now key (serve rs rl []).1 ≤ rl.max_per_minute)
      × (used hour now key (serve rs rl []).1 ≤ rl.max_per_hour)
  used-serve =
      let b =
        serve-IsBounded 0 rs rl [] timely tracks
          (record { minutes = λ _ _ _. omega arith; hours = λ _ _ _. omega arith }) in
      (
        subst (λ a. used minute now key (serve rs rl []).1 ≤ a) (config-serve rs rl []).0
            (b.minutes now key late),
        subst (λ a. used hour now key (serve rs rl []).1 ≤ a) (config-serve rs rl []).1
            (b.hours now key late),
      )

module _ (m h : ℕ) (rs : List Request) (timely : Timely 0 rs) (now : ℕ) (late : end_time 0 rs ≤ now)
    (key : String) where
  -- Whatever calls came before, by a clock that does not go back: an action is let through exactly
  -- if fewer than `max_per_minute` actions of its type passed in the last minute and fewer than
  -- `max_per_hour` in the last hour, counted since the last reset. `check_only` answers the same.
  pub verdict_exact :
      let (rl, log) = serve rs (init m h) [] in
      ((check_and_record key (some now) rl).0.0
        ≡ (ltb (used minute now key log) m && ltb (used hour now key log) h))
      × ((check_only key (some now) rl).0.0
          ≡ (ltb (used minute now key log) m && ltb (used hour now key log) h))
  unfolding init
  verdict_exact =
      let t = TracksLog-init m h in
      let room = has_room-serve (init m h) t rs timely now late key in
      let (recorded, checked) = verdict-serve (init m h) t rs timely now late key in
      (recorded ∙ room, checked ∙ room)

  -- Whatever calls came before, by a clock that does not go back: at no time were more than
  -- `max_per_minute` actions of one type let through within the last minute, or more than
  -- `max_per_hour` within the last hour, counted since the last reset.
  pub used-le-limit :
      let log = (serve rs (init m h) []).1 in
      (used minute now key log ≤ m) × (used hour now key log ≤ h)
  unfolding init
  used-le-limit = used-serve (init m h) (TracksLog-init m h) rs timely now late key
