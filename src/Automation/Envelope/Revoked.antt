-- ===== src/Automation/Envelope/Revoked.antt =====
-- `revoke_grant` and what it does to the gates of `check_gates`.
use cyber_sage.Prelude.{
  ℕ, String, ◌≡◌, refl, ◌∙◌, sym, ap, subst, Bool, true, false, some, List, [], ◌∷◌, arith, inl,
  inr, eq_iff, ◌==◌, ok, guard-ok, ok-injective, Bool-cases, is_some,
}
use cyber_sage.Automation.V5.Rules.{AutomationPolicyV5, EvaluationResult}
use cyber_sage.Automation.V5.Validation.{has_length_of}
use cyber_sage.Automation.Envelope.Grants.{Grant, get_grant}
use cyber_sage.Automation.Envelope.State.{GateResult, EnvelopeRequest, Setting, World}
use cyber_sage.Automation.Envelope.Authority.{is_bounded}
use cyber_sage.Automation.Envelope.Gates.{get_policy, check_gates}
use cyber_sage.Automation.Envelope.Granting.{
  store_revoked, revoke_grant, policy_id_length, reason_length, grant_missing, revoked,
}
use cyber_sage.Automation.Envelope.Report.{all_passed}
use cyber_sage.Automation.Envelope.Requirements.{granted, approved, Authorized}
use cyber_sage.Automation.Envelope.Authorized.{check_gates-Authorized}

get_policy-id :
    (id : String) (policies : List AutomationPolicyV5) (policy : AutomationPolicyV5)
    → get_policy id policies ≡ some policy
    → policy.policy_id ≡ id
unfolding get_policy
get_policy-id id [] policy h = absurd (ground (arith, h))
get_policy-id id (p ∷ policies) policy h = elim (Bool-cases (p.policy_id == id)) [
  | inr e ↦ get_policy-id id policies policy (ground (arith, h, e))
  | inl e ↦
      let same : p ≡ policy = ground (arith, h, e) in
      ap (λ (q : AutomationPolicyV5). q.policy_id) (sym same) ∙ (eq_iff p.policy_id id).0 e
]

store_revoked-inactive :
    (now : ℕ) (revoked_by reason id : String) (grants : List Grant) (grant : Grant)
    → get_grant id (store_revoked now revoked_by reason id grants) ≡ some grant
    → grant.active ≡ false
unfolding get_grant store_revoked
store_revoked-inactive now by reason id [] grant h = absurd (ground (arith, h))
store_revoked-inactive now by reason id (g ∷ grants) grant h =
    elim (Bool-cases (g.policy_id == id)) [
      | inr e ↦ store_revoked-inactive now by reason id grants grant (sym (rw (e, e) refl) ∙ h)
      | inl e ↦
          let same : revoked now by reason g ≡ grant = ground (arith, h, e) in
          ap (λ (q : Grant). q.active) (sym same)
    ]

revoke_grant-inactive :
    (now : ℕ) (policy_id revoked_by reason : String) (grants after : List Grant) (grant : Grant)
    → revoke_grant now policy_id revoked_by reason grants ≡ ok after
    → get_grant policy_id after ≡ some grant
    → grant.active ≡ false
unfolding revoke_grant
revoke_grant-inactive now id by reason grants after grant h g =
    let (a, h1) = guard-ok (has_length_of 128 id) policy_id_length _ _ h in
    let (b, h2) = guard-ok (has_length_of 2048 reason) reason_length _ _ h1 in
    let (c, h3) = guard-ok (is_some (get_grant id grants)) grant_missing _ _ h2 in
    store_revoked-inactive now by reason id grants grant (ap (get_grant id) (ok-injective h3) ∙ g)

module _ {J S : Type 0} (s : Setting J S) (request : EnvelopeRequest J) where
  bounded-active :
      (w : World J) (policy : AutomationPolicyV5) {fresh : EvaluationResult}
      → is_bounded s.texts request ≡ true
      → Authorized s request w policy fresh
      → (grant : Grant) × (get_grant request.policy_id s.tables.grants ≡ some grant)
        × (grant.active ≡ true)
  bounded-active w policy b a = elim a.authority [
    | approved id m f v ↦ absurd (ground (arith, b, m))
    | granted grant m r c ↦ (
      grant,
      subst (λ id. get_grant id s.tables.grants ≡ some grant)
          (get_policy-id request.policy_id s.tables.policies policy a.is_found) c.is_granted,
      c.is_active,
    )
  ]

  -- Where the grants are what a revocation of the policy's grant left, no bounded request under the
  -- policy passes every gate.
  pub revoke_grant-check_gates :
      (now : ℕ) (revoked_by reason : String) (grants : List Grant) (record_quota : Bool)
      (w w' : World J) (gs : List GateResult)
      → revoke_grant now request.policy_id revoked_by reason grants ≡ ok s.tables.grants
      → is_bounded s.texts request ≡ true
      → check_gates s request record_quota w ≡ ok (gs, w')
      → all_passed gs ≡ false
  revoke_grant-check_gates now by reason grants q w w' gs r b h =
      elim (Bool-cases (all_passed gs)) [
        | inr e ↦ e
        | inl e ↦
            let (policy, fresh, a) = check_gates-Authorized s request q w w' gs h e in
            let (grant, g, active) = bounded-active w policy b a in
            absurd (
              ground (
                arith,
                active,
                revoke_grant-inactive now request.policy_id by reason grants s.tables.grants grant r
                    g,
              ))
      ]
