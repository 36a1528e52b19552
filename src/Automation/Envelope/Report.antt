-- ===== src/Automation/Envelope/Report.antt =====
-- The report of `check_gates`: every gate once, in order, and nothing after the one that fails.
use cyber_sage.Prelude.{
  ℕ, drop, drop-suc, suc, ◌≡◌, ◌∙◌, refl, sym, ap, subst, Bool, true, false, Option, none, some,
  List, [], ◌∷◌, ◌++◌, if◌then◌else◌, map, All, arith, Bool-cases, inl, inr, ok, Result-cases,
  ok-injective,
}
use mathlib.Core.List.{append-nil}
use cyber_sage.Prelude.Sorting.{all}
use cyber_sage.Prelude.Dict.{}
use cyber_sage.Automation.V5.Rules.{AutomationPolicyV5, EvaluationResult}
use cyber_sage.Automation.V5.Evaluation.{evaluate_policies}
use cyber_sage.Automation.Envelope.State.{
  GateName, GateResult, gate_order, EnvelopeRequest, Setting, World, skipped_after_failure,
  validate_envelope_request,
}
use cyber_sage.Automation.Envelope.Checks.{Verdict, policy_gate, version_gate}
use cyber_sage.Automation.Envelope.Gates.{
  Check, skipped, run_gates, evaluation_request, get_policy, leading, following, is_current,
  check_policy, check_gates,
}

abbrev pub all_passed : List GateResult → Bool
all_passed = all (λ g. g.passed)

abbrev names : List GateResult → List GateName
names = map (λ g. g.gate)

-- After a gate that fails every one is skipped.
abbrev pub IsCut : List GateResult → Type 0
IsCut [] = Unit
IsCut (g ∷ gs) =
    if g.passed
    then IsCut gs
    else All (λ h. (h.passed ≡ false) × (h.reason ≡ skipped_after_failure)) gs

names-skipped : (gs : List GateName) → names (map skipped gs) ≡ gs
names-skipped [] = refl
names-skipped (g ∷ gs) = ap (◌∷◌ g) (names-skipped gs)

skipped-All :
    (gs : List GateName)
    → All (λ h. (h.passed ≡ false) × (h.reason ≡ skipped_after_failure)) (map skipped gs)
skipped-All [] = tt
skipped-All (g ∷ gs) = ((refl, refl), skipped-All gs)

abbrev checks_named : {W : Type 0} → List (Check W) → List GateName
checks_named = map (λ c. c.0)

nothing-after : (b : Bool) (gs : List GateName) → gs ++ (if b then [] else []) ≡ gs
nothing-after true gs = append-nil gs
nothing-after false gs = append-nil gs

module _ {W : Type 0} where
  -- Where the checks are those that GATE_ORDER has after `done` gates, and then `rest`.
  run_gates-names :
      (cs : List (Check W)) (done : ℕ) (rest : List GateName) (w : W)
      → drop done gate_order ≡ checks_named cs ++ rest
      → names (run_gates cs done w).0
        ≡ checks_named cs ++ (if all_passed (run_gates cs done w).0 then [] else rest)
  unfolding run_gates
  run_gates-names [] done rest w h = refl
  run_gates-names ((g, c) ∷ cs) done rest w h =
      let left = drop-suc done gate_order g (checks_named cs ++ rest) h in
      elim (Bool-cases (c w).0.0) [
        | inl e ↦ rw e (ap (◌∷◌ g) (run_gates-names cs (suc done) rest (c w).1 left))
        | inr e ↦ rw e (ap (◌∷◌ g) (names-skipped (drop (suc done) gate_order) ∙ left))
      ]

  run_gates-IsCut : (cs : List (Check W)) (done : ℕ) (w : W) → IsCut (run_gates cs done w).0
  unfolding run_gates
  run_gates-IsCut [] done w = tt
  run_gates-IsCut ((g, c) ∷ cs) done w = elim (Bool-cases (c w).0.0) [
    | inl e ↦ rw e (run_gates-IsCut cs (suc done) (c w).1)
    | inr e ↦ rw e (skipped-All (drop (suc done) gate_order))
  ]

  run_gates-passed :
      (g : GateName) (c : W → Verdict × W) (cs : List (Check W)) (done : ℕ) (w : W)
      → (c w).0.0 ≡ true
      → run_gates ((g, c) ∷ cs) done w ≡ (
        record { gate = g; passed = true; reason = (c w).0.1 }
            ∷ (run_gates cs (suc done) (c w).1).0,
        (run_gates cs (suc done) (c w).1).1,
      )
  unfolding run_gates
  run_gates-passed g c cs done w e = rw e refl

  run_gates-failed :
      (g : GateName) (c : W → Verdict × W) (cs : List (Check W)) (done : ℕ) (w : W)
      → (c w).0.0 ≡ false
      → run_gates ((g, c) ∷ cs) done w ≡ (
        record { gate = g; passed = false; reason = (c w).0.1 }
            ∷ map skipped (drop (suc done) gate_order),
        (c w).1,
      )
  unfolding run_gates
  run_gates-failed g c cs done w e = rw e refl

  -- Every gate passes, each on the world that the one before it leaves.
  abbrev pub Pass : List (Check W) → W → W → Type 0
  Pass [] w v = w ≡ v
  Pass ((g, c) ∷ cs) w v = ((c w).0.0 ≡ true) × Pass cs (c w).1 v

  pub run_gates-Pass :
      (cs : List (Check W)) (done : ℕ) (w : W)
      → all_passed (run_gates cs done w).0 ≡ true
      → Pass cs w (run_gates cs done w).1
  run_gates-Pass [] done w h = unfold run_gates in refl
  run_gates-Pass ((g, c) ∷ cs) done w h = elim (Bool-cases (c w).0.0) [
    | inl e ↦
        let s = run_gates-passed g c cs done w e in
        subst (λ (r : List GateResult × W). Pass ((g, c) ∷ cs) w r.1) (sym s)
          (
            e,
            run_gates-Pass cs (suc done) (c w).1
                (ap (λ (r : List GateResult × W). all_passed r.0) (sym s) ∙ h),
          )
    | inr e ↦
        let s = run_gates-failed g c cs done w e in
        absurd (ground (arith, ap (λ (r : List GateResult × W). all_passed r.0) (sym s) ∙ h))
  ]

  -- The world after all the gates.
  abbrev pub world_after : List (Check W) → W → W
  world_after [] w = w
  world_after ((g, c) ∷ cs) w = world_after cs (c w).1

  pub Pass-run_gates :
      (cs : List (Check W)) (done : ℕ) (w v : W)
      → Pass cs w v
      → all_passed (run_gates cs done w).0 ≡ true
  unfolding run_gates
  Pass-run_gates [] done w v h = refl
  Pass-run_gates ((g, c) ∷ cs) done w v (e, h) = rw e (Pass-run_gates cs (suc done) (c w).1 v h)

abbrev IsReport : List GateResult → Type 0
IsReport gs = (names gs ≡ gate_order) × IsCut gs

full-names :
    {W : Type 0} (cs : List (Check W)) (w : W)
    → checks_named cs ≡ gate_order
    → names (run_gates cs 0 w).0 ≡ gate_order
full-names cs w e =
    run_gates-names cs 0 [] w (sym e ∙ sym (append-nil (checks_named cs)))
    ∙ nothing-after _ (checks_named cs)
    ∙ e

module _ {J S : Type 0} (s : Setting J S) (request : EnvelopeRequest J) where
  leading-IsReport :
      (policy : AutomationPolicyV5) (w : World J)
      → is_current s request policy ≡ false
      → IsReport (run_gates (leading s request policy) 0 w).0
  unfolding run_gates
  leading-IsReport policy w h = elim (Bool-cases (policy_gate policy s.clocks.active_at).0) [
    | inr e ↦ rw e (refl, skipped-All (drop 1 gate_order))
    | inl e ↦
        let f : (version_gate policy request.expected_policy_version).0 ≡ false =
          ground (arith, h, e) in
        rw (e, f) (refl, skipped-All (drop 2 gate_order))
  ]

  pub stepped :
      (q : Bool) (policy : AutomationPolicyV5) (w : World J) (fresh : EvaluationResult)
      → is_current s request policy ≡ true
      → evaluate_policies s.texts s.point
          (policy ∷ [])
          (evaluation_request request)
          s.clocks.evaluated_at
          false
        ≡ ok fresh
      → check_policy s request q (some policy) w
        ≡ ok (run_gates (leading s request policy ++ following s request q policy fresh) 0 w)
  unfolding check_policy
  stepped q policy w fresh e f = rw (e, f) refl

  -- Which gates are run for a policy that is found.
  pub check_policy-stale :
      (q : Bool) (policy : AutomationPolicyV5) (w : World J)
      → is_current s request policy ≡ false
      → check_policy s request q (some policy) w ≡ ok (run_gates (leading s request policy) 0 w)
  unfolding check_policy
  check_policy-stale q policy w e = rw e refl

  pub check_policy-current :
      (q : Bool) (policy : AutomationPolicyV5) (w : World J) (gs : List GateResult) (w' : World J)
      → is_current s request policy ≡ true
      → check_policy s request q (some policy) w ≡ ok (gs, w')
      → (fresh : EvaluationResult) × (evaluate_policies s.texts s.point
            (policy ∷ [])
            (evaluation_request request)
            s.clocks.evaluated_at
            false
          ≡ ok fresh)
        × (run_gates (leading s request policy ++ following s request q policy fresh) 0 w
            ≡ (gs, w'))
  unfolding check_policy
  check_policy-current q policy w gs w' e h =
      elim (Result-cases (
        evaluate_policies s.texts s.point (policy ∷ []) (evaluation_request request)
          s.clocks.evaluated_at false)) [
            | inr (x, f) ↦ absurd (ground (arith, e, f, h))
            | inl (fresh, f) ↦ (fresh, f, ok-injective (sym (stepped q policy w fresh e f) ∙ h))
          ]

  check_policy-IsReport :
      (record_quota : Bool) (p : Option AutomationPolicyV5) (w w' : World J) (gs : List GateResult)
      → check_policy s request record_quota p w ≡ ok (gs, w')
      → IsReport gs
  unfolding check_policy
  check_policy-IsReport q none w w' gs h =
      subst IsReport (ap (λ (r : List GateResult × World J). r.0) (ok-injective h))
        (refl, skipped-All (drop 1 gate_order))
  check_policy-IsReport q (some policy) w w' gs h =
      elim (Bool-cases (is_current s request policy)) [
        | inr e ↦
            subst IsReport
              (ap (λ (r : List GateResult × World J). r.0)
                (ok-injective (sym (check_policy-stale q policy w e) ∙ h)))
              (leading-IsReport policy w e)
        | inl e ↦
            let (fresh, f, r) = check_policy-current q policy w gs w' e h in
            let cs = leading s request policy ++ following s request q policy fresh in
            subst IsReport (ap (λ (r : List GateResult × World J). r.0) r)
              (full-names cs w refl, run_gates-IsCut cs 0 w)
      ]

  -- The report of `check_gates`, whether for an execution or a simulation, names the twelve gates in
  -- the order of GATE_ORDER, and after the first gate that fails every one is skipped and counts as
  -- failed.
  pub check_gates-names :
      (record_quota : Bool) (w w' : World J) (gs : List GateResult)
      → check_gates s request record_quota w ≡ ok (gs, w')
      → (names gs ≡ gate_order) × IsCut gs
  unfolding check_gates
  check_gates-names q w w' gs h =
      elim (Result-cases (validate_envelope_request s.texts s.point s.tables request)) [
        | inr (x, e) ↦ absurd (ground (arith, e, h))
        | inl (x, e) ↦
            check_policy-IsReport q (get_policy request.policy_id s.tables.policies) w w' gs
              (ground (arith, h, e))
      ]
