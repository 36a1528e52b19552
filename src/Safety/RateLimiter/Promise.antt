-- ===== src/Safety/RateLimiter/Promise.antt =====
-- The sliding-window promise of guardian/safety/rate_limiter.py, against a log of every action that
-- was let through.
use cyber_sage.Prelude.{
  ℕ, ◌≤◌, String, ◌≡◌, refl, sym, ap, subst, eq_refl, ◌∙◌, Bool, false, Option, none, some, List,
  [], ◌∷◌, ◌++◌, arith, length, ltb, ◌&&◌, ◌==◌, eq_iff, if◌then◌else◌, Bool-cases, inl, inr,
}
use cyber_sage.Prelude.Dict.{Dict, insert, lookup-insert}
use cyber_sage.Safety.RateLimiter.{ActionRateLimiter, minute, hour, window, prune}
use cyber_sage.Safety.RateLimiter.Windows.{
  Ordered, recent, prune-eq-recent, Ordered-append, Ordered-later, Ordered-select, recent-append,
  recent-recent,
}

abbrev pub Log : Type 0
Log = List (String × ℕ)

abbrev pub times : String → Log → List ℕ
times key [] = []
times key ((k, t) ∷ log) = if k == key then t ∷ times key log else times key log

-- How many actions of a type were let through in the window that ends at `now`.
abbrev pub used : ℕ → ℕ → String → Log → ℕ
used width now key log = length (recent width now (times key log))

-- The promise: an action may pass exactly if both windows have room.
abbrev pub has_room : ActionRateLimiter → ℕ → String → Log → Bool
has_room rl now key log =
    ltb (used minute now key log) rl.max_per_minute && ltb (used hour now key log) rl.max_per_hour

-- A window stands for a history if it shows the same recent times, now and ever after.
pub record Tracks (width last : ℕ) (w history : List ℕ) : Type 0 where
  pub ordered : Ordered last w
  pub same : (now : ℕ) → last ≤ now → recent width now w ≡ recent width now history

pub record TracksLog (last : ℕ) (rl : ActionRateLimiter) (log : Log) : Type 0 where
  pub minutes : (key : String) → Tracks minute last (window key rl.minute_windows) (times key log)
  pub hours : (key : String) → Tracks hour last (window key rl.hour_windows) (times key log)

module _ (width last now : ℕ) (w history : List ℕ) (late : last ≤ now)
    (t : Tracks width last w history) where
  pub prune-eq : prune width now w ≡ recent width now history
  prune-eq = prune-eq-recent width now last w t.ordered ∙ t.same now late

  Tracks-later : Tracks width now w history
  Tracks-later = record {
    ordered = Ordered-later last now w late t.ordered;
    same = λ m h. t.same m (omega arith);
  }

  Tracks-prune : Tracks width now (prune width now w) history
  Tracks-prune = rw (prune-eq-recent width now last w t.ordered) (record {
    ordered = Ordered-later last now _ late (Ordered-select _ last w t.ordered);
    same = λ m h. recent-recent width now m w h ∙ t.same m (omega arith);
  })

  Tracks-record : Tracks width now (prune width now w ++ now ∷ []) (history ++ now ∷ [])
  Tracks-record = record {
    ordered = Ordered-append now now _ (omega arith) Tracks-prune.ordered;
    same = λ m h.
        recent-append width m now (prune width now w)
        ∙ ap (λ l. l ++ recent width m (now ∷ [])) (Tracks-prune.same m h)
        ∙ sym (recent-append width m now history);
  }

-- A write to one key of a dictionary of windows.
module _ (d : Dict (List ℕ)) (key : String) (w : List ℕ) where
  window-insert : (k : String) → window k (insert key w d) ≡ (if key == k then w else window k d)
  window-insert k = rw (lookup-insert key k w d) (ground arith)

pub times-append :
    (key k : String) (t : ℕ) (log : Log)
    → times k (log ++ (key, t) ∷ []) ≡ (if key == k then times k log ++ t ∷ [] else times k log)
times-append key k t [] = ground arith
times-append key k t ((j, u) ∷ log) = ground (arith, times-append key k t log)

-- The log after a reset.
abbrev pub forget : Option String → Log → Log
forget none log = []
forget (some k) [] = []
forget (some k) ((j, t) ∷ log) =
    if j == k then forget (some k) log else (j, t) ∷ forget (some k) log

pub times-forget :
    (key k : String) (log : Log)
    → times k (forget (some key) log) ≡ (if key == k then [] else times k log)
times-forget key k [] = ground arith
times-forget key k ((j, u) ∷ log) =
    ground (arith, times-forget key k log, eq_iff j k, eq_iff j key, eq_iff key k)

module _ (width now : ℕ) (d : Dict (List ℕ)) (key : String) (w : List ℕ) (log : Log)
    (this : Tracks width now w (times key log))
    (others : (k : String) → (key == k) ≡ false → Tracks width now (window k d) (times k log)) where
  insert-Tracks : (k : String) → Tracks width now (window k (insert key w d)) (times k log)
  insert-Tracks k = elim (Bool-cases (key == k)) [
    | inl e ↦
        rw (window-insert d key w k, e)
          (subst (λ j. Tracks width now w (times j log)) ((eq_iff key k).0 e) this)
    | inr e ↦ rw (window-insert d key w k, e) (others k e)
  ]

-- One dictionary of windows after a call: pruned for the key where the action is refused, and with
-- the new time at its end where it passes.
module _ (width last now : ℕ) (d : Dict (List ℕ)) (key : String) (log : Log) (late : last ≤ now)
    (tracks : (k : String) → Tracks width last (window k d) (times k log)) where
  pub all-Tracks-later : (k : String) → Tracks width now (window k d) (times k log)
  all-Tracks-later k = Tracks-later width last now _ _ late (tracks k)

  pub refused-Tracks :
      (k : String)
      → Tracks width now (window k (insert key (prune width now (window key d)) d)) (times k log)
  refused-Tracks =
      insert-Tracks width now d key _ log (Tracks-prune width last now _ _ late (tracks key))
        (λ k e. all-Tracks-later k)

  pub passed-Tracks :
      (k : String)
      → Tracks width now
          (window k (insert key (prune width now (window key d) ++ now ∷ []) d))
          (times k (log ++ (key, now) ∷ []))
  passed-Tracks =
      insert-Tracks width now d key _ (log ++ (key, now) ∷ [])
        (rw (times-append key key now log, eq_refl key)
          (Tracks-record width last now _ _ late (tracks key)))
        (λ k e. rw (times-append key k now log, e) (all-Tracks-later k))

  -- Writing back what was read changes no window.
  pub read-Tracks :
      (k : String) → Tracks width last (window k (insert key (window key d) d)) (times k log)
  read-Tracks = insert-Tracks width last d key _ log (tracks key) (λ k e. tracks k)

  pub forget-Tracks :
      (k : String)
      → Tracks width last (window k (insert key [] d)) (times k (forget (some key) log))
  forget-Tracks =
      insert-Tracks width last d key [] (forget (some key) log)
        (rw (times-forget key key log, eq_refl key) (record { ordered = tt; same = λ m h. refl }))
        (λ k e. rw (times-forget key k log, e) (tracks k))
