-- ===== src/VerifyDeploy/Exit.antt =====
-- The exit status of the tool against its report, and the step `all` against the single steps.
use quietfill.Prelude.{
  String, ◌≡◌, ◌↔◌, ◌⊎◌, Bool, true, false, ◌||◌, none, some, List, keep_if, arith, ◌==◌,
  if◌then◌else◌,
}
use quietfill.World.{World, Eth, Reply, fail as error}
use quietfill.Report.{CheckResult, Report, empty, any_failure, has_failures}
use quietfill.Report.Checker.{Emits, Anything, Emits-Anything, ◌▸◌, adds_failure-then}
use quietfill.Deploy.Emitted.{register_deploy_checks-Emits}
use quietfill.Register.Emitted.{register_registration_checks-Emits}
use quietfill.Startup.{register_services_checks, register_tee_version_checks}
use quietfill.Startup.Emitted.{register_services_checks-Emits, register_tee_version_checks-Emits}
use quietfill.Machine.{register_tee_machine_checks, register_test_checks}
use quietfill.Machine.Emitted.{register_tee_machine_checks-Emits, register_test_checks-Emits}
use quietfill.VerifyDeploy.{
  Support, deploy_step, register_step, all_steps, run_step, allowed_ids, is_allowed, apply_filter,
  main,
}
use quietfill.VerifyDeploy.Filter.{filter_in_place_lem}

-- The results that `-checks` leaves.
abbrev pub shown : String → List CheckResult → List CheckResult
shown checks_filter results =
    if checks_filter == ""
    then results
    else keep_if (is_allowed (allowed_ids checks_filter)) results

results-apply_filter :
    (checks_filter : String) (r : Report)
    → (apply_filter checks_filter r).results ≡ shown checks_filter r.results
unfolding apply_filter
results-apply_filter checks_filter r =
    ground (arith, filter_in_place_lem (is_allowed (allowed_ids checks_filter)) r.results)

pub main_exit :
    (w : World) (lib : Eth) (support : Reply Support) (step path checks_filter : String)
    → ((r : Report)
        → run_step w lib support step path ≡ some r
        → (q : Report) × ((main w lib support step path checks_filter).0 ≡ some q)
          × (q.results ≡ shown checks_filter r.results)
          × ((main w lib support step path checks_filter).1
              ≡ (if any_failure (shown checks_filter r.results) then 1 else 0)))
      × (run_step w lib support step path ≡ none
          → (main w lib support step path checks_filter ≡ (none, 1)))
unfolding main has_failures
main_exit w lib support step path checks_filter = (
  λ r e. (
    apply_filter checks_filter r,
    rw e,
    results-apply_filter checks_filter r,
    rw (e, results-apply_filter checks_filter r),
  ),
  λ e. rw e,
)

abbrev pub needs_chain : String → Bool
needs_chain step = step == "deploy" || step == "register" || step == "all"

abbrev pub is_known : String → Bool
is_known step =
    needs_chain step
    || step == "services"
    || step == "tee-version"
    || step == "tee-machine"
    || step == "test"

-- There is no report exactly when the step has no name that the switch knows, or it is one of the
-- three that need the chain and `DefaultSupport` fails; the other steps run without it.
pub run_step-none :
    (w : World) (lib : Eth) (support : Reply Support) (step path : String)
    → (run_step w lib support step path ≡ none) ↔ (
        (is_known step ≡ false)
        ⊎ ((needs_chain step ≡ true) × ((e : String) × (support ≡ error e))))
unfolding run_step
run_step-none w lib support step path = ground arith

-- The step `all` of a support that connects fails exactly when one of the six single steps does.
all_failure :
    (w : World) (lib : Eth) (s : Support) (path : String)
    → has_failures (all_steps w lib s path empty) ≡ (
        has_failures (deploy_step w lib s path empty)
        || (has_failures (register_step w lib s path empty)
            || (has_failures (register_services_checks w lib path empty)
                || (has_failures (register_tee_version_checks w path empty)
                    || (has_failures (register_tee_machine_checks w path empty)
                        || has_failures (register_test_checks w path empty))))))
unfolding all_steps has_failures deploy_step register_step
all_failure w lib s path =
    let f1 : Emits Anything (deploy_step w lib s path) =
      Emits-Anything (register_deploy_checks-Emits w lib _ _ _ _ path) in
    let f2 : Emits Anything (register_step w lib s path) =
      Emits-Anything (register_registration_checks-Emits w lib _ _ _ _ path) in
    let f3 : Emits Anything (register_services_checks w lib path) =
      Emits-Anything (register_services_checks-Emits w lib path) in
    let f4 : Emits Anything (register_tee_version_checks w path) =
      Emits-Anything (register_tee_version_checks-Emits w path) in
    let f5 : Emits Anything (register_tee_machine_checks w path) =
      Emits-Anything (register_tee_machine_checks-Emits w path) in
    let f6 : Emits Anything (register_test_checks w path) =
      Emits-Anything (register_test_checks-Emits w path) in
    rw (
      adds_failure-then _ _ f1 (f2 ▸ f3 ▸ f4 ▸ f5 ▸ f6),
      adds_failure-then _ _ f2 (f3 ▸ f4 ▸ f5 ▸ f6),
      adds_failure-then _ _ f3 (f4 ▸ f5 ▸ f6),
      adds_failure-then _ _ f4 (f5 ▸ f6),
      adds_failure-then _ _ f5 f6,
    )
