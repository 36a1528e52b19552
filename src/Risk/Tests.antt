-- ===== src/Risk/Tests.antt =====
-- Scores and recommendations for two detections. Confidences are in thousandths here.
use cyber_sage.Prelude.{
  ℕ, String, ◌≡◌, refl, ◌≤◌, true, none, some, List, [], ◌∷◌, ◌++◌, ◌↔◌, arith,
}
use cyber_sage.Risk.Engine.{
  Detection, compute_risk, max_severity, severity_base, mitre_bonus, technique_factors,
  new_technique, scored, total_score,
}
use cyber_sage.Risk.Response.{ResponseDecision}
use cyber_sage.Risk.Laws.{risk, compute_risk-append, response, response_iff}

abbrev powershell : Detection ℕ
powershell = record {
  severity = some "high";
  detector_id = some "process";
  confidence = some 900;
  mitre_technique = some "T1059.001";
}

abbrev beacon : Detection ℕ
beacon = record {
  severity = some "medium";
  detector_id = none;
  confidence = none;
  mitre_technique = some "T1071";
}

abbrev first : List ℕ → ℕ
first [] = 0
first (c ∷ cs) = c

abbrev said : ℕ → String → ℕ → List String → String
said total severity count names = severity

abbrev shown : ℕ → String
shown n = "n"

scores :
    ((risk 0 first said (powershell ∷ beacon ∷ []) 2 1).score ≡ 100)
    × ((risk 0 first said (beacon ∷ []) 2 3).score ≡ 55)
unfolding compute_risk scored total_score max_severity severity_base technique_factors new_technique
    mitre_bonus
scores = (refl, refl)

compute_risk-append_example :
    (risk 0 first said (beacon ∷ []) 2 1).score
    ≤ (risk 0 first said (beacon ∷ [] ++ powershell ∷ []) 3 2).score
compute_risk-append_example =
    compute_risk-append 0 first said (beacon ∷ []) (powershell ∷ []) 2 3 1 2 (omega arith)
      (omega arith)

abbrev answer : ResponseDecision ℕ String
answer = response 0 first said shown shown (powershell ∷ beacon ∷ []) 2 1 ("e" ∷ []) none "rd-1" 5

response_iff_example :
    ((answer.requires_approval ≡ true)
      ↔ (65 ≤ (risk 0 first said (powershell ∷ beacon ∷ []) 2 1).score))
    × (answer.rollback_available ≡ answer.requires_approval)
    × (((risk 0 first said (powershell ∷ beacon ∷ []) 2 1).severity ≡ "critical")
        → answer.requires_approval ≡ true)
response_iff_example =
    response_iff 0 first said shown shown (powershell ∷ beacon ∷ []) 2 1 ("e" ∷ []) none "rd-1" 5
