-- ===== src/Blast.antt =====
-- src/core/blast/BlastRadiusEstimator.ts and src/core/blast/BlastRadiusPolicy.ts, with
-- src/adapters/aws/extractInstanceIds.ts. A context has instances or not.
pub mod Laws
use Prim.Native.String.{String}
use openkedge.Prelude.{
  ℕ, suc, Bool, true, false, not, ◌&&◌, ◌||◌, Option, none, some, List, [], ◌∷◌, ◌++◌, map, filter,
  length, any, leb, ltb, eqb, ◌==◌, string_eq, concat, decimal, or_else, Assoc, lookup,
  if◌then◌else◌,
}
use openkedge.Json.{Value, null, exotic, str, arr, obj, num, bool, Items, nil, cons, own_field}
use openkedge.Contracts.{Intent, BlastRadius, BlastRiskLevel, low, medium, high, critical}

pub record AwsInstanceContext : Type 0 where
  pub instance_id : Option String
  pub state : Option String
  pub tags : Assoc String String

abbrev pub Context : Type 0
Context = Option (List AwsInstanceContext)

abbrev format_resource_count : ℕ → String
format_resource_count n = concat (decimal n ∷ " resource" ∷ (if eqb n 1 then "" else "s") ∷ [])

-- The texts of an array, and whether it holds nothing else.
strings_of : Items → List String
strings_of nil = []
strings_of (cons (str s) rest) = s ∷ strings_of rest
strings_of (cons _ rest) = strings_of rest

all_strings : Items → Bool
all_strings nil = true
all_strings (cons (str s) rest) = all_strings rest
all_strings (cons _ rest) = false

-- The texts of a value that is an array of texts only.
abbrev string_array : Option Value → List String
string_array (some (arr xs)) = if all_strings xs then strings_of xs else []
string_array _ = []

unfoldable pub extract_instance_ids : Intent → List String
unfolding strings_of all_strings own_field
extract_instance_ids intent = elim intent.payload [
  | obj fs ↦ string_array (own_field "instanceIds" fs)
  | arr xs ↦ string_array (some (arr xs))
  | _ ↦ []
]

abbrev present : List (Option String) → List String
present [] = []
present (none ∷ rest) = present rest
present (some id ∷ rest) = id ∷ present rest

-- `resourceId ? [resourceId] : []`
abbrev one_resource : Option Value → List String
one_resource (some (str s)) = if s == "" then [] else s ∷ []
one_resource _ = []

abbrev pub is_termination : Intent → Bool
is_termination intent = intent.type == "ec2:TerminateInstances"

unfoldable pub extract_resource_ids : Intent → Context → List String
unfolding extract_instance_ids strings_of own_field
extract_resource_ids intent context =
    if is_termination intent
    then elim context [
      | some instances ↦ present (map (λ (i : AwsInstanceContext). i.instance_id) instances)
      | none ↦ extract_instance_ids intent
    ]
    else elim intent.payload [
      | arr xs ↦ strings_of xs
      | obj fs ↦ one_resource (own_field "resourceId" fs)
      | _ ↦ []
    ]

unfoldable pub base_risk_level : ℕ → BlastRiskLevel
base_risk_level n =
    if leb n 1 then low else if leb n 5 then medium else if leb n 20 then high else critical

unfoldable pub bump_risk_level : BlastRiskLevel → BlastRiskLevel
bump_risk_level low = medium
bump_risk_level medium = high
bump_risk_level high = critical
bump_risk_level critical = critical

abbrev pub has_tag : String → String → AwsInstanceContext → Bool
has_tag name value i = elim (lookup name i.tags) [ none ↦ false | some v ↦ v == value ]

abbrev pub is_critical_instance : AwsInstanceContext → Bool
is_critical_instance = has_tag "critical" "true"

abbrev pub is_production_instance : AwsInstanceContext → Bool
is_production_instance = has_tag "env" "prod"

abbrev risk_name : BlastRiskLevel → String
risk_name low = "LOW"
risk_name medium = "MEDIUM"
risk_name high = "HIGH"
risk_name critical = "CRITICAL"

abbrev listed : List AwsInstanceContext → String
listed [] = ""
listed (i ∷ []) = or_else i.instance_id "unknown"
listed (i ∷ j ∷ rest) = concat (or_else i.instance_id "unknown" ∷ ", " ∷ listed (j ∷ rest) ∷ [])

-- The level, and the reasons, that the tags of the instances add to the level of the count.
unfoldable pub adjusted : Intent → Context → BlastRiskLevel → BlastRiskLevel × List String
unfolding bump_risk_level
adjusted intent context level =
    let instances = or_else context [] in
    if not (is_termination intent)
    then (level, [])
    else if any is_critical_instance instances
    then (
      critical,
      concat ("Critical instances detected: " ∷ listed (filter is_critical_instance instances) ∷ [])
          ∷ [],
    )
    else if any is_production_instance instances
    then (
      bump_risk_level level,
      concat (
            "Production instances detected: "
            ∷ listed (filter is_production_instance instances)
            ∷ [])
          ∷ [],
    )
    else (level, [])

unfoldable pub estimate : Intent → Context → BlastRadius
unfolding extract_resource_ids base_risk_level adjusted
estimate intent context =
    let ids = extract_resource_ids intent context in
    let (level, why) = adjusted intent context (base_risk_level (length ids)) in
    record {
      resource_count = length ids;
      resource_ids = ids;
      risk_level = level;
      reasons =
          (concat ("Intent targets " ∷ format_resource_count (length ids) ∷ []) ∷ why)
          ++ (concat (
                "Blast radius evaluated as "
                ∷ risk_name level
                ∷ " ("
                ∷ format_resource_count (length ids)
                ∷ ")"
                ∷ [])
              ∷ []);
    }

pub record PolicyConfig : Type 0 where
  pub max_allowed : Option ℕ
  pub allow_high_risk : Option Bool

pub record PolicyDecision : Type 0 where
  pub allowed : Bool
  pub reasons : List String

-- `config.maxAllowed !== undefined && resourceCount > config.maxAllowed`
abbrev pub exceeds : Option ℕ → ℕ → Bool
exceeds none n = false
exceeds (some m) n = ltb m n

abbrev max_reason : PolicyConfig → ℕ → String
max_reason config n = concat (
    "Blocked because resource count "
    ∷ decimal n
    ∷ " exceeds the configured maximum of "
    ∷ decimal (or_else config.max_allowed 0)
    ∷ [])

-- `config.allowHighRisk !== false`
abbrev pub high_allowed : PolicyConfig → Bool
high_allowed config = or_else config.allow_high_risk true

abbrev pub judged_level : PolicyConfig → BlastRiskLevel → Bool × String
judged_level config critical = (false, "Blocked due to CRITICAL blast radius")
judged_level config high =
    if high_allowed config
    then (true, "High-risk mutation allowed with warning")
    else (false, "Blocked because HIGH blast radius is disabled by policy")
judged_level config medium = (true, "Medium blast radius accepted by policy")
judged_level config low = (true, "Low blast radius accepted by policy")

unfoldable pub evaluate : PolicyConfig → BlastRadius → PolicyDecision
evaluate config radius =
    if exceeds config.max_allowed radius.resource_count
    then record {
      allowed = false;
      reasons = radius.reasons ++ max_reason config radius.resource_count ∷ [];
    }
    else (let verdict = judged_level config radius.risk_level in
        record { allowed = verdict.0; reasons = radius.reasons ++ verdict.1 ∷ [] })
