-- ===== src/VerifyDeploy.antt =====
-- tools/cmd/verify-deploy/main.go: the dispatch on `-step`, the filter `-checks`, the exit status.
-- The value of `support.DefaultSupport`, which dials the chain, is a parameter.
pub mod Filter
pub mod Exit
use quietfill.Prelude.{
  Char, ℕ, zero, suc, ◌+◌, String, code, Bool, true, false, Option, none, some, List, [], ◌∷◌,
  length, any, collect, keep_if, trim_space, eqb, ◌==◌, if◌then◌else◌,
}
use quietfill.World.{World, Eth, Client, Registry, Allowlist, Reply, ok, fail as error}
use quietfill.Report.{CheckResult, Report, empty, has_failures}
use quietfill.Report.Checker.{Checker, ◌>>◌}
use quietfill.Deploy.{register_deploy_checks}
use quietfill.Register.{register_registration_checks}
use quietfill.Startup.{register_services_checks, register_tee_version_checks}
use quietfill.Machine.{register_tee_machine_checks, register_test_checks}

-- What the tool takes of `*support.Support`; `NewSupport` sets every field.
pub record Support : Type 0 where
  pub prv : ℕ
  pub chain_client : Client
  pub tee_extension_registry : Registry
  pub tee_owner_allowlist : Allowlist
  pub flare_tee_manager : ℕ

-- The inner switch of `main`, on a step that needs the chain.
unfoldable pub deploy_step : World → Eth → Support → String → Checker
deploy_step w lib s path =
    register_deploy_checks w lib (some s.chain_client) (some s.prv)
      (("FlareTeeManager", s.flare_tee_manager) ∷ [])
      (("FlareTeeManager", s.flare_tee_manager) ∷ []) path

unfoldable pub register_step : World → Eth → Support → String → Checker
register_step w lib s path =
    register_registration_checks w lib (some s.chain_client) (some s.prv)
      (some s.tee_extension_registry) (some s.tee_owner_allowlist) path

unfoldable pub all_steps : World → Eth → Support → String → Checker
all_steps w lib s path = do
  deploy_step w lib s path
  register_step w lib s path
  register_services_checks w lib path
  register_tee_version_checks w path
  register_tee_machine_checks w path
  register_test_checks w path

abbrev with_support : Reply Support → (Support → Checker) → Option Report
with_support (error e) run = none
with_support (ok s) run = some (run s empty)

-- The switch of `main` on `-step`; `none` where it calls `os.Exit(1)` with no report.
unfoldable pub run_step : World → Eth → Reply Support → String → String → Option Report
run_step w lib support step path =
    if step == "deploy"
    then with_support support (λ s. deploy_step w lib s path)
    else if step == "register"
    then with_support support (λ s. register_step w lib s path)
    else if step == "all"
    then with_support support (λ s. all_steps w lib s path)
    else if step == "services"
    then some (register_services_checks w lib path empty)
    else if step == "tee-version"
    then some (register_tee_version_checks w path empty)
    else if step == "tee-machine"
    then some (register_tee_machine_checks w path empty)
    else if step == "test"
    then some (register_test_checks w path empty)
    else none

-- `strings.Split(s, ",")`.
abbrev extend : Char → List String → List String
extend c [] = String.◌∷◌ c "" ∷ []
extend c (l ∷ ls) = String.◌∷◌ c l ∷ ls

unfoldable pub split_commas : String → List String
split_commas String.[] = "" ∷ []
split_commas (String.◌∷◌ c s) =
    let rest = split_commas s in if eqb (code c) b',' then "" ∷ rest else extend c rest

abbrev named : String → Option String
named part = let t = trim_space part in if t == "" then none else some t

-- The keys of the map `allowed`.
unfoldable pub allowed_ids : String → List String
unfolding split_commas
allowed_ids checks_filter = collect named (split_commas checks_filter)

-- The slice's array after an append at position `i`, which is within its capacity: the element
-- there is overwritten.
unfoldable pub write : List CheckResult → ℕ → CheckResult → List CheckResult
write [] i v = []
write (x ∷ xs) zero v = v ∷ xs
write (x ∷ xs) (suc i) v = x ∷ write xs i v

unfoldable pub read : List CheckResult → ℕ → Option CheckResult
read [] i = none
read (x ∷ xs) zero = some x
read (x ∷ xs) (suc i) = read xs i

unfoldable pub prefix : ℕ → List CheckResult → List CheckResult
prefix zero xs = []
prefix (suc n) [] = []
prefix (suc n) (x ∷ xs) = x ∷ prefix n xs

-- The loop `filtered := report.Results[:0]; for _, res := range report.Results { … }`: `filtered`
-- shares the array that the loop reads, and has the length `kept`.
unfoldable pub filter_in_place :
    (CheckResult → Bool) → ℕ → ℕ → ℕ → List CheckResult → List CheckResult
unfolding read write prefix
filter_in_place allowed zero i kept array = prefix kept array
filter_in_place allowed (suc rounds) i kept array = elim (read array i) [
  | none ↦ prefix kept array
  | some res ↦ elim (allowed res) [
    | true ↦ filter_in_place allowed rounds (suc i) (suc kept) (write array kept res)
    | false ↦ filter_in_place allowed rounds (suc i) kept array
  ]
]

abbrev pub is_allowed : List String → CheckResult → Bool
is_allowed allowed res = any (λ id. id == res.id) allowed

-- The part of `main` under `if *checksFilter != ""`.
unfoldable pub apply_filter : String → Report → Report
apply_filter checks_filter r = if checks_filter == "" then r else record {
  results =
      filter_in_place (is_allowed (allowed_ids checks_filter)) (length r.results) 0 0 r.results;
}

abbrev pub exit_status : Report → ℕ
exit_status r = if has_failures r then 1 else 0

abbrev pub finish : String → Option Report → Option Report × ℕ
finish checks_filter none = (none, 1)
finish checks_filter (some r) =
    (some (apply_filter checks_filter r), exit_status (apply_filter checks_filter r))

-- `main`: the report that is printed, if any, and the exit status.
unfoldable pub main : World → Eth → Reply Support → String → String → String → Option Report × ℕ
main w lib support step path checks_filter = finish checks_filter (run_step w lib support step path)
