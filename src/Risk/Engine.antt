-- ===== src/Risk/Engine.antt =====
-- guardian/risk/engine.py. Every score is a whole number there, so that the sums are exact and the
-- final rounding changes nothing. `C` is the type of confidences; their rounded average is a
-- parameter, and so are the texts that format numbers.
use cyber_sage.Prelude.{
  ℕ, String, ◌+◌, ◌-◌, ◌*◌, min, max, Bool, true, false, Option, none, some, List, [], ◌∷◌, ◌++◌,
  map, ltb, leb, if◌then◌else◌, length, take, truthy, concat, ◌==◌,
}

unfoldable pub severity_base : String → ℕ
severity_base s =
    if s == "critical"
    then 90
    else if s == "high"
    then 70
    else if s == "medium"
    then 40
    else if s == "low"
    then 15
    else if s == "informational"
    then 5
    else 10

unfoldable pub mitre_bonus : String → ℕ
mitre_bonus t =
    if t == "T1059"
    then 10
    else if t == "T1059.001"
    then 15
    else if t == "T1059.003"
    then 10
    else if t == "T1547"
    then 12
    else if t == "T1571"
    then 8
    else if t == "T1071"
    then 8
    else if t == "T1071.004"
    then 10
    else if t == "T1027"
    then 5
    else if t == "T1055"
    then 15
    else if t == "T1003"
    then 12
    else if t == "T1087"
    then 5
    else if t == "T1105"
    then 8
    else if t == "T1569"
    then 10
    else 3

-- The entries of a detection that are read, each of which may be missing.
pub record Detection (C : Type 0) : Type 0 where
  pub severity : Option String
  pub detector_id : Option String
  pub confidence : Option C
  pub mitre_technique : Option String

-- `source`, or `detail` with its count.
pub data Origin : Type 0 where
  source : String → Origin
  detail : ℕ → String → Origin

pub record Factor : Type 0 where
  pub name : String
  pub value : ℕ
  pub origin : Origin

pub record RiskScore (C : Type 0) : Type 0 where
  pub score : ℕ
  pub severity : String
  pub confidence : C
  pub factors : List Factor
  pub explanation : String

abbrev pub or_text : String → Option String → String
or_text s none = s
or_text s (some t) = t

abbrev pub or_confidence : {C : Type 0} → C → Option C → C
or_confidence c none = c
or_confidence c (some d) = d

abbrev pub severity_of : {C : Type 0} → Detection C → String
severity_of d = or_text "low" d.severity

abbrev pub base_of : {C : Type 0} → Detection C → ℕ
base_of d = severity_base (severity_of d)

abbrev pub severity_factor : {C : Type 0} → Detection C → Factor
severity_factor d = record {
  name = concat ("severity_" ∷ severity_of d ∷ []);
  value = base_of d;
  origin = source (or_text "unknown" d.detector_id);
}

-- `max(severity_scores)`, of a list that is not empty.
unfoldable pub max_severity : {C : Type 0} → List (Detection C) → ℕ
max_severity [] = 0
max_severity (d ∷ ds) = max (base_of d) (max_severity ds)

abbrev pub seen_before : String → List String → Bool
seen_before t [] = false
seen_before t (s ∷ seen) = if s == t then true else seen_before t seen

unseen : List String → Option String → Option String
unseen seen none = none
unseen seen (some t) = if seen_before t seen then none else some t

-- The technique of a detection, where it has one that was not seen.
unfoldable pub new_technique : {C : Type 0} → List String → Detection C → Option String
unfolding unseen
new_technique seen d = unseen seen (truthy d.mitre_technique)

abbrev pub see : Option String → List String → List String
see none seen = seen
see (some t) seen = t ∷ seen

abbrev pub technique_factor : Option String → List Factor
technique_factor none = []
technique_factor (some t) =
    record {
      name = concat ("mitre_" ∷ t ∷ []);
      value = mitre_bonus t;
      origin = source "mitre_mapping";
    }
    ∷ []

unfoldable pub technique_factors : {C : Type 0} → List String → List (Detection C) → List Factor
unfolding new_technique
technique_factors seen [] = []
technique_factors seen (d ∷ ds) =
    let t = new_technique seen d in technique_factor t ++ technique_factors (see t seen) ds

abbrev pub sum_values : List Factor → ℕ
sum_values [] = 0
sum_values (f ∷ fs) = f.value + sum_values fs

-- `min((count - 1) * step, limit)` where the count is over one, else nothing.
abbrev pub repeated_bonus : (count step limit : ℕ) → ℕ
repeated_bonus count step limit = if ltb 1 count then min ((count - 1) * step) limit else 0

unfoldable pub repeated_factor : (name noun : String) (count step limit : ℕ) → List Factor
repeated_factor name noun count step limit =
    if ltb 1 count
    then record { name = name; value = min ((count - 1) * step) limit; origin = detail count noun }
      ∷ []
    else []

unfoldable pub total_score : {C : Type 0} → List (Detection C) → (groups recurrences : ℕ) → ℕ
total_score ds groups recurrences = min 100 (
    max_severity ds
    + sum_values (technique_factors [] ds)
    + repeated_bonus (length ds) 5 20
    + repeated_bonus groups 3 15
    + repeated_bonus recurrences 2 10)

unfoldable pub severity_for : ℕ → String
severity_for score =
    if leb 80 score
    then "critical"
    else if leb 60 score
    then "high"
    else if leb 35 score
    then "medium"
    else "low"

-- `sorted(factors, key=value, reverse=True)`, which keeps the order of equal values.
place_factor : Factor → List Factor → List Factor
place_factor f [] = f ∷ []
place_factor f (g ∷ gs) = if ltb g.value f.value then f ∷ g ∷ gs else g ∷ place_factor f gs

sort_factors : List Factor → List Factor → List Factor
unfolding place_factor
sort_factors done [] = done
sort_factors done (f ∷ fs) = sort_factors (place_factor f done) fs

abbrev name_of : Factor → String
name_of f = f.name

unfoldable pub all_factors :
    {C : Type 0} → List (Detection C) → (groups recurrences : ℕ) → List Factor
unfolding repeated_factor technique_factors
all_factors ds groups recurrences =
    map severity_factor ds
    ++ technique_factors [] ds
    ++ repeated_factor "corroborating_signals" "detections" (length ds) 5 20
    ++ repeated_factor "evidence_groups" "groups" groups 3 15
    ++ repeated_factor "recurrence" "occurrences" recurrences 2 10

module _ {C : Type 0} (zero_confidence : C) (rounded_average : List C → C)
    (explain : ℕ → String → ℕ → List String → String) where
  unfoldable pub scored : List (Detection C) → (groups recurrences : ℕ) → RiskScore C
  unfolding sort_factors
  scored ds groups recurrences =
      let total = total_score ds groups recurrences in
      let factors = all_factors ds groups recurrences in
      record {
        score = total;
        severity = severity_for total;
        confidence = rounded_average (map (λ d. or_confidence zero_confidence d.confidence) ds);
        factors = factors;
        explanation =
            explain total (severity_for total) (length ds)
              (map name_of (take 3 (sort_factors [] factors)));
      }

  unfoldable pub compute_risk : List (Detection C) → (groups recurrences : ℕ) → RiskScore C
  unfolding scored
  compute_risk [] groups recurrences = record {
    score = 0;
    severity = "low";
    confidence = zero_confidence;
    factors = [];
    explanation = "No detections to evaluate";
  }
  compute_risk (d ∷ ds) groups recurrences = scored (d ∷ ds) groups recurrences
