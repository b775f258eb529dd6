-- ===== src/Compliance/Ssdf.antt =====
-- EvaluatePractices (pkg/compliance/ssdf.go), over the float operations of Score/Float.
use devtrace.Base.{
  String_eq, ◌∷◌, nat_eq, ◌&&◌, none, ◌==◌, List, false, leb, ltb, ◌+◌, some, ◌||◌, if◌then◌else◌,
  ℕ, Option, Bool, [],
}
use Prim.Native.String.{String, ◌++◌}
use devtrace.Model.Response.{Signals, RepoContext, AiSensing}
use devtrace.Score.Signals.{Behavior}
use devtrace.Score.Heuristics.{BehavioralHeuristics}
use devtrace.Score.Float.{Float, of_nat, ◌⊘◌, ◌⊗◌}
use devtrace.Score.Curves.{zero_w}
use devtrace.Base.Maps.{get}

abbrev pub status_present : String
status_present = "present"

abbrev pub status_absent : String
status_absent = "absent"

abbrev pub status_no_data : String
status_no_data = "no_data"

abbrev pub msg_need_repo : String
msg_need_repo = "Requires repository context (?repo=owner/name)"

abbrev pub msg_no_signals : String
msg_no_signals = "No signal data available"

abbrev pub msg_need_behavior : String
msg_need_behavior = "Requires behavioral data (ingested over time)"

pub record PracticeResult : Type 0 where
  pub id : String
  pub name : String
  pub signal : String
  pub status : String

abbrev pub result : String → String → String → String → PracticeResult
result id name signal status = record { id = id; name = name; signal = signal; status = status }

abbrev pub present_if : Bool → String
present_if b = if b then status_present else status_absent

abbrev pub is_associated : RepoContext → Bool
is_associated c =
    c.org_member
    || c.author_association == "MEMBER"
    || c.author_association == "OWNER"
    || c.author_association == "COLLABORATOR"

unfoldable pub eval_ps1 : Option RepoContext → PracticeResult
eval_ps1 none = result "PS.1" "Protect Code from Unauthorized Access" msg_need_repo status_no_data
eval_ps1 (some c) =
    result "PS.1" "Protect Code from Unauthorized Access"
      ("Author association: "
        ++ c.author_association
        ++ (if c.org_member || c.trusted_org_member then " (org member)" else ""))
      (present_if (is_associated c))

unfoldable pub eval_ps2 : Option RepoContext → PracticeResult
eval_ps2 none = result "PS.2" "Verify Software Release Integrity" msg_need_repo status_no_data
eval_ps2 (some c) =
    result "PS.2" "Verify Software Release Integrity"
      (if c.commits_verified
        then "Commits are cryptographically signed"
        else "No signed commits detected")
      (present_if c.commits_verified)

abbrev pub one_if_set : Bool → ℕ
one_if_set b = if b then 1 else 0

abbrev pub count_fields : Signals → ℕ
count_fields s =
    one_if_set s.has_bio
    + one_if_set s.has_company
    + one_if_set s.has_location
    + one_if_set s.has_website
    + one_if_set s.has_public_email

abbrev pub profile_signal_text : ℕ → String
profile_signal_text n =
    if leb 4 n
    then "Strong identity: profile is well-populated"
    else (if leb 3 n
        then "Moderate identity: most profile fields present"
        else (if leb 1 n
            then "Weak identity: few profile fields populated"
            else "Empty profile: no identity fields populated"))

unfoldable pub eval_ps3 : Option Signals → PracticeResult
eval_ps3 none =
    result "PS.3" "Archive and Provide Software Provenance" msg_no_signals status_no_data
eval_ps3 (some s) =
    result "PS.3" "Archive and Provide Software Provenance" (profile_signal_text (count_fields s))
      (present_if (leb 3 (count_fields s)))

abbrev pub is_mature : Signals → Bool
is_mature s = ltb 365 s.account_age_days && ltb 5 s.followers

abbrev pub fork_pct : {W : Type 0} ⦃f : Float W⦄ → Signals → W
fork_pct s = (of_nat s.forked_repos ⊘ of_nat s.public_repos) ⊗ of_nat 100

unfoldable pub eval_pw4 : (W : Type 0) ⦃f : Float W⦄ → Option Signals → PracticeResult
eval_pw4 W none = result "PW.4" "Reuse Well-Secured Software" msg_no_signals status_no_data
eval_pw4 W ⦃f⦄ (some s) =
    if nat_eq s.public_repos 0
    then result "PW.4" "Reuse Well-Secured Software" "No public repositories" status_absent
    else (if f.less (of_nat 80) (fork_pct s)
        then result "PW.4" "Reuse Well-Secured Software" "High fork ratio: limited original work"
            status_absent
        else result "PW.4" "Reuse Well-Secured Software" "Original work present across repositories"
            status_present)

module _ {W : Type 0} ⦃f : Float W⦄ where
  unfoldable pub eval_pw6 : Option (Behavior W) → PracticeResult
  eval_pw6 none = result "PW.6" "Review Human-Readable Code" msg_need_behavior status_no_data
  eval_pw6 (some b) =
      result "PW.6" "Review Human-Readable Code"
        (if ltb 0 b.reviews_given_30d
          then "Active reviewer: participates in code review"
          else "No code reviews in the last 30 days")
        (present_if (ltb 0 b.reviews_given_30d))

  unfoldable pub eval_pw7 : Option (Behavior W) → PracticeResult
  eval_pw7 none = result "PW.7" "Test Executable Code" msg_need_behavior status_no_data
  eval_pw7 (some b) =
      if f.less (f.ratio 5 10) b.consistency_score
      then result "PW.7" "Test Executable Code"
          "Consistent activity pattern suggests disciplined practices" status_present
      else (if f.less zero_w b.consistency_score
          then result "PW.7" "Test Executable Code" "Low consistency: irregular activity pattern"
              status_absent
          else result "PW.7" "Test Executable Code"
              "Insufficient activity data for consistency analysis" status_no_data)

  abbrev pub is_anomalous : BehavioralHeuristics W → Bool
  is_anomalous b = leb 3 b.synthetic_risk_flags || f.less (of_nat 5) b.velocity_anomaly_ratio

  abbrev pub rv1_of : Option (BehavioralHeuristics W) → PracticeResult
  rv1_of none =
      result "RV.1" "Identify Vulnerabilities" "Requires Pro-tier behavioral heuristics"
        status_no_data
  rv1_of (some b) =
      if is_anomalous b
      then result "RV.1" "Identify Vulnerabilities"
          "Anomalous patterns detected — review recommended" status_absent
      else result "RV.1" "Identify Vulnerabilities" "No anomalous contributor patterns detected"
          status_present

  abbrev pub behavioral_of : Option (AiSensing W) → Option (BehavioralHeuristics W)
  behavioral_of none = none
  behavioral_of (some a) = a.behavioral

  unfoldable pub eval_rv1 : Option (AiSensing W) → PracticeResult
  eval_rv1 a = rv1_of (behavioral_of a)

  abbrev pub is_above : W → Option W → Bool
  is_above bound none = false
  is_above bound (some x) = f.less bound x

  unfoldable pub eval_po4 : Option Signals → List (String × W) → PracticeResult
  eval_po4 none categories = result "PO.4" "Security Awareness" msg_no_signals status_no_data
  eval_po4 (some s) categories =
      if is_above (f.ratio 3 10) (get categories "community") && is_mature s
      then result "PO.4" "Security Awareness" "Established contributor with community presence"
          status_present
      else (if is_mature s
          then result "PO.4" "Security Awareness"
              "Established account but limited community engagement" status_present
          else result "PO.4" "Security Awareness" "Young or low-visibility account" status_absent)

  unfoldable pub evaluate_practices :
      Option Signals
      → Option RepoContext
      → List (String × W)
      → Option (Behavior W)
      → Option (AiSensing W)
      → List PracticeResult
  unfolding eval_ps1 eval_ps2 eval_ps3 eval_pw4 eval_pw6 eval_pw7 eval_rv1 eval_po4
  evaluate_practices signals repo categories behavior ai_sensing =
      eval_ps1 repo
      ∷ eval_ps2 repo
      ∷ eval_ps3 signals
      ∷ eval_pw4 W signals
      ∷ eval_pw6 behavior
      ∷ eval_pw7 behavior
      ∷ eval_rv1 ai_sensing
      ∷ eval_po4 signals categories
      ∷ []
