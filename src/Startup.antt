-- ===== src/Startup.antt =====
-- The checks of tools/pkg/validate/checks.go that read the environment, the file
-- config/extension.env, a port and the proxies: services, TEE version, TEE machine and testing.
pub mod Emitted
use quietfill.Prelude.{
  ℕ, String, Bool, true, false, not, ◌&&◌, ◌||◌, Option, none, some, List, [], ◌∷◌, sprintf, eqb,
  ◌==◌, if◌then◌else◌,
}
use quietfill.World.{World, Eth}
use quietfill.Report.{CheckResult, check, pass, warn, fail, skip}
use quietfill.Report.Checker.{Checker, emit, ◌>>◌}
use quietfill.EnvFile.{parse_extension_env}
use quietfill.EnvFile.Format.{address_matches, extension_id_matches}

-- S2.
unfoldable pub s2 : World → Eth → String → CheckResult
unfolding parse_extension_env
s2 w lib path =
    let ext_id = (parse_extension_env w path).extension_id in
    if path == ""
    then check "services" "S2" "EXTENSION_ID is set and well-formed" skip "run pre-build.sh first"
        ""
    else if ext_id == ""
    then check "services" "S2" "EXTENSION_ID is set and well-formed" fail
        "EXTENSION_ID is empty or not found in extension.env"
        "Delete config/extension.env and re-run scripts/pre-build.sh"
    else if extension_id_matches ext_id
    then check "services" "S2" "EXTENSION_ID is set and well-formed" pass ext_id ""
    else check "services" "S2" "EXTENSION_ID is set and well-formed" fail
        (sprintf ("EXTENSION_ID has invalid format: " ∷ lib.quote ext_id ∷ []))
        "Delete config/extension.env and re-run scripts/pre-build.sh"

abbrev or_default : String → String → String
or_default s d = if s == "" then d else s

-- S5.
unfoldable pub s5 : World → CheckResult
s5 w =
    let port = or_default (w.getenv "EXTENSION_PORT") "7702" in
    if w.dial (sprintf ("localhost:" ∷ port ∷ []))
    then check "services" "S5" "extension port not in use" warn
        (sprintf ("port " ∷ port ∷ " is already in use — extension server will fail to bind" ∷ []))
        "Stop the process using that port or change EXTENSION_PORT"
    else check "services" "S5" "extension port not in use" pass "port available" ""

-- S7.
unfoldable pub s7 : World → CheckResult
s7 w =
    let ext_port = w.getenv "EXTENSION_PORT" in
    let sign_port = w.getenv "SIGN_PORT" in
    if not (ext_port == "") || not (sign_port == "")
    then check "services" "S7" "port configuration" pass
        (sprintf ("EXTENSION_PORT=" ∷ ext_port ∷ ", SIGN_PORT=" ∷ sign_port ∷ [])) ""
    else check "services" "S7" "port configuration" pass
        "using defaults (standalone: 8080/9090, Docker: 7702/7701)" ""

abbrev is_ok : Option ℕ → Bool
is_ok none = false
is_ok (some status) = eqb status 200

-- `err == nil && resp.StatusCode == http.StatusOK` of `GET url/info`.
unfoldable pub reachable : World → String → Bool
reachable w url = is_ok (w.http_get (sprintf (url ∷ "/info" ∷ [])))

-- S9.
unfoldable pub s9 : World → CheckResult
unfolding reachable
s9 w =
    let proxy_url = w.getenv "EXT_PROXY_URL" in
    if proxy_url == ""
    then check "services" "S9" "EXT_PROXY_URL reachable" skip "EXT_PROXY_URL not set" ""
    else if reachable w proxy_url
    then check "services" "S9" "EXT_PROXY_URL reachable" pass
        (sprintf ("proxy reachable at " ∷ proxy_url ∷ [])) ""
    else check "services" "S9" "EXT_PROXY_URL reachable" warn
        (sprintf ("proxy not reachable at " ∷ proxy_url ∷ " — is the proxy running?" ∷ []))
        "Start the proxy or check EXT_PROXY_URL"

-- S10.
unfoldable pub s10 : World → CheckResult
s10 w =
    let local_mode = w.getenv "LOCAL_MODE" in
    let private_key = w.getenv "PROXY_PRIVATE_KEY" in
    if (local_mode == "true") || (local_mode == "")
    then check "services" "S10" "PROXY_PRIVATE_KEY set on non-local" pass "local mode, dev key OK"
        ""
    else if (local_mode == "false") && (private_key == "")
    then check "services" "S10" "PROXY_PRIVATE_KEY set on non-local" warn
        "PROXY_PRIVATE_KEY not set in non-local mode — proxy will use default key"
        "Set PROXY_PRIVATE_KEY in .env for non-local deployments"
    else check "services" "S10" "PROXY_PRIVATE_KEY set on non-local" pass
        "PROXY_PRIVATE_KEY is configured" ""

-- `RegisterServicesChecks`.
unfoldable pub register_services_checks : World → Eth → String → Checker
register_services_checks w lib path = do
  emit (s2 w lib path)
  emit (s5 w)
  emit (s7 w)
  emit (s9 w)
  emit (s10 w)

-- V2.
unfoldable pub v2 : World → CheckResult
v2 w =
    let ext_owner_key = w.getenv "EXTENSION_OWNER_KEY" in
    let priv_key = w.getenv "DEPLOYMENT_PRIVATE_KEY" in
    let local_mode = w.getenv "LOCAL_MODE" in
    if not (ext_owner_key == "")
    then check "tee-version" "V2" "extension owner key" pass "EXTENSION_OWNER_KEY is configured" ""
    else if not (priv_key == "")
    then check "tee-version" "V2" "extension owner key" pass
        "using DEPLOYMENT_PRIVATE_KEY (EXTENSION_OWNER_KEY not set)" ""
    else if not (local_mode == "true") && not (local_mode == "")
    then check "tee-version" "V2" "extension owner key" warn
        "neither EXTENSION_OWNER_KEY nor DEPLOYMENT_PRIVATE_KEY set — AddTeeVersion will use dev key which isn't the extension owner on Coston2"
        "Set EXTENSION_OWNER_KEY or DEPLOYMENT_PRIVATE_KEY in .env"
    else check "tee-version" "V2" "extension owner key" pass "using dev key (local mode)" ""

-- V4; the branch for an error of `parseExtensionEnv` is left out, as it returns none.
unfoldable pub v4 : World → String → CheckResult
unfolding parse_extension_env
v4 w path =
    let ext_id = (parse_extension_env w path).extension_id in
    if path == ""
    then check "tee-version" "V4" "EXTENSION_ID valid" skip "no --config provided" ""
    else if ext_id == ""
    then (if w.not_exist path
        then check "tee-version" "V4" "EXTENSION_ID valid" skip
            "extension.env not found — run pre-build.sh first" ""
        else check "tee-version" "V4" "EXTENSION_ID valid" fail "EXTENSION_ID not set"
            "Delete config/extension.env and re-run scripts/pre-build.sh")
    else if extension_id_matches ext_id
    then check "tee-version" "V4" "EXTENSION_ID valid" pass ext_id ""
    else check "tee-version" "V4" "EXTENSION_ID valid" fail "EXTENSION_ID malformed"
        "Delete config/extension.env and re-run scripts/pre-build.sh"

-- V6.
unfoldable pub v6 : World → CheckResult
unfolding reachable
v6 w =
    let proxy_url = w.getenv "EXT_PROXY_URL" in
    if proxy_url == ""
    then check "tee-version" "V6" "proxy reachable" skip
        "EXT_PROXY_URL not set — allow-tee-version uses -p flag" ""
    else if reachable w proxy_url
    then check "tee-version" "V6" "proxy reachable" pass
        (sprintf ("proxy reachable at " ∷ proxy_url ∷ [])) ""
    else check "tee-version" "V6" "proxy reachable" warn
        (sprintf ("proxy not reachable at " ∷ proxy_url ∷ " — start services first" ∷ []))
        "Start the proxy or check EXT_PROXY_URL"

-- `RegisterTeeVersionChecks`.
unfoldable pub register_tee_version_checks : World → String → Checker
register_tee_version_checks w path = do emit (v2 w); emit (v4 w path); emit (v6 w)
