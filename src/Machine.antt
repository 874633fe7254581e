-- ===== src/Machine.antt =====
-- The checks of tools/pkg/validate/checks.go for the registration of the TEE machine and for the
-- end-to-end test, and the placeholder for checks that are not written yet.
pub mod Emitted
pub mod Agree
use quietfill.Prelude.{String, Bool, true, false, ◌&&◌, [], ◌∷◌, sprintf, ◌==◌, if◌then◌else◌}
use quietfill.World.{World}
use quietfill.Report.{CheckResult, check, pass, warn, fail, skip}
use quietfill.Report.Checker.{Checker, emit, ◌>>◌}
use quietfill.EnvFile.{parse_extension_env}
use quietfill.EnvFile.Format.{address_matches}
use quietfill.Startup.{reachable}

-- T1.
unfoldable pub t1 : World → CheckResult
t1 w =
    let simulated_tee = w.getenv "SIMULATED_TEE" in
    let local_mode = w.getenv "LOCAL_MODE" in
    if (simulated_tee == "true") && (local_mode == "false")
    then check "tee-machine" "T1" "SIMULATED_TEE mode" warn
        "SIMULATED_TEE=true on non-local deployment — machine will be registered with test attestation values. Set SIMULATED_TEE=false for real TEE hardware"
        "Set SIMULATED_TEE=false in .env when deploying to a real GCP TEE"
    else if simulated_tee == "true"
    then check "tee-machine" "T1" "SIMULATED_TEE mode" pass "simulated TEE mode (local)" ""
    else check "tee-machine" "T1" "SIMULATED_TEE mode" pass "real attestation mode" ""

-- T5.
unfoldable pub t5 : World → CheckResult
unfolding reachable
t5 w =
    let normal_proxy_url = w.getenv "NORMAL_PROXY_URL" in
    if normal_proxy_url == ""
    then check "tee-machine" "T5" "NORMAL_PROXY_URL reachable" skip "NORMAL_PROXY_URL not set" ""
    else if reachable w normal_proxy_url
    then check "tee-machine" "T5" "NORMAL_PROXY_URL reachable" pass
        (sprintf ("normal proxy reachable at " ∷ normal_proxy_url ∷ [])) ""
    else check "tee-machine" "T5" "NORMAL_PROXY_URL reachable" warn
        (sprintf (
          "normal proxy not reachable at " ∷ normal_proxy_url
          ∷ " — required for FTDC availability check" ∷ []))
        "Ensure the normal/FTDC proxy is running and NORMAL_PROXY_URL is correct in .env"

-- T10.
unfoldable pub t10 : World → CheckResult
unfolding reachable
t10 w =
    let ext_proxy_url = w.getenv "EXT_PROXY_URL" in
    if ext_proxy_url == ""
    then check "tee-machine" "T10" "host URL reachable" skip "EXT_PROXY_URL not set" ""
    else if reachable w ext_proxy_url
    then check "tee-machine" "T10" "host URL reachable" pass
        (sprintf ("host URL reachable at " ∷ ext_proxy_url ∷ [])) ""
    else check "tee-machine" "T10" "host URL reachable" warn
        (sprintf (
          "host URL not reachable at " ∷ ext_proxy_url
          ∷ " — machine will be registered with unreachable host. Data providers can't relay instructions"
          ∷ []))
        "Ensure the host is accessible and EXT_PROXY_URL or -h flag points to the right URL"

-- `RegisterTeeMachineChecks`; the path is not read.
unfoldable pub register_tee_machine_checks : World → String → Checker
register_tee_machine_checks w path = do emit (t1 w); emit (t5 w); emit (t10 w)

-- E1.
unfoldable pub e1 : World → String → CheckResult
unfolding parse_extension_env
e1 w path =
    let instr_sender = (parse_extension_env w path).instruction_sender in
    if path == ""
    then check "test" "E1" "INSTRUCTION_SENDER valid" skip "no --config provided" ""
    else if w.not_exist path
    then check "test" "E1" "INSTRUCTION_SENDER valid" skip
        "extension.env not found — run pre-build.sh first" ""
    else if instr_sender == ""
    then check "test" "E1" "INSTRUCTION_SENDER valid" fail
        "INSTRUCTION_SENDER not set — run pre-build.sh"
        "Run scripts/pre-build.sh to deploy and register the extension"
    else if address_matches instr_sender
    then check "test" "E1" "INSTRUCTION_SENDER valid" pass instr_sender ""
    else check "test" "E1" "INSTRUCTION_SENDER valid" fail "INSTRUCTION_SENDER malformed"
        "Delete config/extension.env and re-run scripts/pre-build.sh"

-- E3.
unfoldable pub e3 : World → CheckResult
unfolding reachable
e3 w =
    let proxy_url = w.getenv "EXT_PROXY_URL" in
    if proxy_url == ""
    then check "test" "E3" "proxy reachable for test results" skip "EXT_PROXY_URL not set" ""
    else if reachable w proxy_url
    then check "test" "E3" "proxy reachable for test results" pass
        "proxy reachable for test result polling" ""
    else check "test" "E3" "proxy reachable for test results" warn
        "proxy not reachable — test results cannot be polled"
        "Start the proxy or check EXT_PROXY_URL"

-- E6.
abbrev pub e6 : CheckResult
e6 =
    check "test" "E6" "OPType/OPCommand alignment info" pass
      "OPType/OPCommand hashes are validated at runtime — if a 501 error occurs, check the hash values in the error message"
      ""

-- `RegisterTestChecks`.
unfoldable pub register_test_checks : World → String → Checker
register_test_checks w path = do emit (e1 w path); emit (e3 w); emit e6

-- `RegisterStubChecks`.
unfoldable pub register_stub_checks : String → String → String → Checker
register_stub_checks step id_range name =
    emit (check step id_range name skip "not yet implemented" "")
