-- ===== src/Report/Print.antt =====
-- `Fprint` and `FprintJSON` of tools/pkg/validate/report.go. What is written is a text; the JSON is
-- the value that goes to the encoder.
use quietfill.Prelude.{
  String, Bool, true, false, not, List, [], ◌∷◌, map, any, sprintf, trim_space, ◌==◌, if◌then◌else◌,
}
use quietfill.Report.{Status, CheckResult, Report, pass, warn, fail, skip, label, summary}

abbrev color_reset : String
color_reset = "\u{1b}[0m"

abbrev color_cyan : String
color_cyan = "\u{1b}[36m"

-- `statusColor`.
abbrev pub status_color : Status → String
status_color pass = "\u{1b}[32m"
status_color warn = "\u{1b}[33m"
status_color fail = "\u{1b}[31m"
status_color skip = "\u{1b}[90m"

-- `stepLabel`; a missing key gives the empty text.
unfoldable pub step_label : String → String
step_label step =
    if step == "deploy"
    then "Contract Deployment"
    else if step == "register"
    then "Extension Registration"
    else if step == "services"
    then "Service Startup"
    else if step == "tee-version"
    then "TEE Version Registration"
    else if step == "tee-machine"
    then "TEE Machine Registration"
    else if step == "test"
    then "Testing"
    else ""

-- The first loop of `Fprint`: the steps in the order of their first results.
unfoldable pub first_steps : List String → List CheckResult → List String
first_steps seen [] = []
first_steps seen (res ∷ rest) = elim (any (λ s. s == res.step) seen) [
  | true ↦ first_steps seen rest
  | false ↦ res.step ∷ first_steps (res.step ∷ seen) rest
]

abbrev shows_detail : Status → Bool
shows_detail fail = true
shows_detail warn = true
shows_detail _ = false

abbrev message_line : String → String
message_line message = if message == "" then "" else sprintf ("         " ∷ message ∷ "\n" ∷ [])

abbrev fix_line : String → String
fix_line fix = if fix == "" then "" else sprintf ("         Fix: " ∷ fix ∷ "\n" ∷ [])

-- The lines of one result.
unfoldable pub print_result : CheckResult → String
print_result res = sprintf (
    "  "
    ∷ status_color res.status
    ∷ "["
    ∷ label res.status
    ∷ "]"
    ∷ color_reset
    ∷ " "
    ∷ res.id
    ∷ "  "
    ∷ res.name
    ∷ "\n"
    ∷ (if shows_detail res.status
        then sprintf (message_line res.message ∷ fix_line res.fix ∷ [])
        else "")
    ∷ [])

-- The inner loop: the results of a step, the others passed over.
unfoldable pub print_results : String → List CheckResult → List String
unfolding print_result
print_results step [] = []
print_results step (res ∷ rest) =
    let printed = print_results step rest in
    if not (res.step == step) then printed else print_result res ∷ printed

abbrev pub heading : String → String
heading step = if step_label step == "" then step else step_label step

-- One round of the outer loop.
unfoldable pub print_step : List CheckResult → String → String
unfolding print_results step_label
print_step results step =
    sprintf (heading step ∷ ":\n" ∷ sprintf (print_results step results) ∷ "\n" ∷ [])

-- `Fprint`: what is written to `w`.
unfoldable pub fprint : Report → String
unfolding first_steps print_step
fprint r = sprintf (
    "\n"
    ∷ color_cyan
    ∷ "=== Deployment Verification Report ==="
    ∷ color_reset
    ∷ "\n\n"
    ∷ sprintf (map (print_step r.results) (first_steps [] r.results))
    ∷ summary r
    ∷ "\n"
    ∷ [])

pub record JsonResult : Type 0 where
  pub step : String
  pub id : String
  pub name : String
  pub status : String
  pub message : String
  pub fix : String

pub record JsonReport : Type 0 where
  pub results : List JsonResult
  pub summary : String

unfoldable pub to_json : CheckResult → JsonResult
to_json res = record {
  step = res.step;
  id = res.id;
  name = res.name;
  status = label res.status;
  message = trim_space res.message;
  fix = trim_space res.fix;
}

-- `FprintJSON` up to the encoder.
unfoldable pub json_report : Report → JsonReport
unfolding to_json
json_report r = record { results = map to_json r.results; summary = quietfill.Report.summary r }
