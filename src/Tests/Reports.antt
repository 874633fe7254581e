-- ===== src/Tests/Reports.antt =====
-- The theorems about a report at a sample.
use mathlib.Core.List.{Perm}
use quietfill.Prelude.{◌≡◌, refl, [], ◌∷◌, map, length, keep_if, sprintf}
use quietfill.Report.{summary}
use quietfill.Report.Print.{first_steps, fprint}
use quietfill.Report.Groups.{block, grouped, firsts, fprint_lem, of_step}
use quietfill.VerifyDeploy.{filter_in_place}
use quietfill.VerifyDeploy.Filter.{filter_in_place_lem}
use quietfill.Tests.Data.{sample}

summary-sample : summary sample ≡ "1 passed, 1 warning, 1 failed, 1 skipped"
unfolding summary sprintf quietfill.Decimal.decimal
summary-sample = refl

first_steps-sample : first_steps [] sample.results ≡ "deploy" ∷ "register" ∷ []
unfolding first_steps
first_steps-sample = refl

fprint_lem_example :
    (fprint sample
      ≡ sprintf (
          "\n"
          ∷ "\u{1b}[36m"
          ∷ "=== Deployment Verification Report ==="
          ∷ "\u{1b}[0m"
          ∷ "\n\n"
          ∷ sprintf (map (block sample.results) (firsts sample.results))
          ∷ summary sample
          ∷ "\n"
          ∷ []))
    × Perm (grouped (firsts sample.results) sample.results) sample.results
fprint_lem_example = fprint_lem sample

filter_in_place_lem_example :
    filter_in_place (of_step "register") (length sample.results) 0 0 sample.results
    ≡ keep_if (of_step "register") sample.results
filter_in_place_lem_example = filter_in_place_lem (of_step "register") sample.results
