-- ===== src/Register.antt =====
-- `RegisterRegistrationChecks` of tools/pkg/validate/checks.go: the checks R1, R2, R3, R4 and R7 of
-- a registered extension. A nil pointer among the parameters is `none`.
pub mod Emitted
pub mod Passed
use quietfill.Prelude.{
  ℕ, zero, suc, ◌+◌, ◌-◌, ◌*◌, ◌%◌, ◌^◌, String, code, Bool, true, false, ◌&&◌, Option, none, some,
  List, [], ◌∷◌, length, sprintf, eqb, leb, ltb, ◌==◌, if◌then◌else◌,
}
use quietfill.Decimal.{decimal}
use quietfill.World.{World, Eth, Client, Registry, Allowlist, Reply, ok, fail as error}
use quietfill.Report.{CheckResult, check, pass, warn, fail, skip}
use quietfill.Report.Checker.{Checker, emit, done, when, branch, ◌>>◌}
use quietfill.EnvFile.{ExtensionEnv, parse_extension_env}
use quietfill.EnvFile.Format.{address_matches, extension_id_matches}

-- `registry != nil && client != nil`.
abbrev pub connected : Option Registry → Option Client → Option Registry
connected (some registry) (some client) = some registry
connected _ _ = none

-- The local variable `counter` after R1: `nil` where the call fails.
abbrev pub counter_of : Option Registry → Option ℕ
counter_of none = none
counter_of (some registry) = elim registry.next_public_extension_id [
  | ok n ↦ some n
  | error e ↦ none
]

abbrev r1_result : Reply ℕ → CheckResult
r1_result (error e) =
    check "register" "R1" "next public extension id" fail
      (sprintf ("failed to query nextPublicExtensionId: " ∷ e ∷ [])) ""
r1_result (ok counter) =
    if eqb counter 0
    then check "register" "R1" "next public extension id" warn
        "nextPublicExtensionId is 0 — no public extensions registered yet" ""
    else check "register" "R1" "next public extension id" pass
        (sprintf ("nextPublicExtensionId = " ∷ decimal counter ∷ [])) ""

unfoldable pub r1 : Option Registry → Checker
r1 none = done
r1 (some registry) = emit (r1_result registry.next_public_extension_id)

abbrev r2_result : Eth → String → Reply ℕ → CheckResult
r2_result lib instr_sender (error e) =
    check "register" "R2" "instruction sender matches on-chain" fail
      (sprintf ("failed to query instruction sender: " ∷ e ∷ [])) ""
r2_result lib instr_sender (ok on_chain_sender) =
    if eqb on_chain_sender (lib.hex_to_address instr_sender)
    then check "register" "R2" "instruction sender matches on-chain" pass
        (sprintf ("on-chain sender " ∷ lib.hex on_chain_sender ∷ " matches extension.env" ∷ [])) ""
    else check "register" "R2" "instruction sender matches on-chain" fail
        (sprintf
          ("on-chain sender " ∷ lib.hex on_chain_sender ∷ " != extension.env " ∷ instr_sender ∷ []))
        "Re-register the extension or update extension.env"

unfoldable pub r2 : Eth → Option Registry → ℕ → String → Checker
r2 lib none extension_id instr_sender = done
r2 lib (some registry) extension_id instr_sender =
    when (address_matches instr_sender)
      (emit (r2_result lib instr_sender (registry.get_instructions_sender extension_id)))

abbrev r3_result : Reply Bool → CheckResult
r3_result (error e) =
    check "register" "R3" "deployer is allowed TEE machine owner" fail
      (sprintf ("failed to query allowlist: " ∷ e ∷ [])) ""
r3_result (ok true) =
    check "register" "R3" "deployer is allowed TEE machine owner" pass
      "deployer is on the TEE machine owner allowlist" ""
r3_result (ok false) =
    check "register" "R3" "deployer is allowed TEE machine owner" fail
      "deployer is NOT on the TEE machine owner allowlist"
      "Run the register step to add the deployer as a TEE machine owner"

unfoldable pub r3 : Eth → Option ℕ → Option Allowlist → Option Client → ℕ → Checker
r3 lib (some key) (some allowlist) (some client) extension_id =
    emit (r3_result (allowlist.is_allowed_machine_owner extension_id (lib.pubkey_to_address key)))
r3 lib _ _ _ extension_id = done

abbrev r4_result : Reply Bool → CheckResult
r4_result (error e) =
    check "register" "R4" "EVM key type supported" fail
      (sprintf ("failed to query key type support: " ∷ e ∷ [])) ""
r4_result (ok true) =
    check "register" "R4" "EVM key type supported" pass
      "EVM key type is supported for this extension" ""
r4_result (ok false) =
    check "register" "R4" "EVM key type supported" fail
      "EVM key type is NOT supported for this extension"
      "Run the register step to add EVM key type support"

unfoldable pub r4 : Eth → Option Registry → ℕ → Checker
r4 lib none extension_id = done
r4 lib (some registry) extension_id =
    emit (r4_result (registry.is_key_type_supported extension_id lib.evm_type))

-- The rounds of `for i := int64(0); i < counter.Int64(); i++`: `Int64` keeps the low 64 bits, and
-- a value that reads negative gives no round.
unfoldable pub int64_rounds : ℕ → ℕ
int64_rounds counter = let low = counter % 2 ^ 64 in if ltb low (2 ^ 63) then low else 0

abbrev is_sender : ℕ → Reply ℕ → Bool
is_sender expected (error e) = false
is_sender expected (ok sender) = eqb sender expected

-- `matchingIDs`, for the rounds left from the id `i` on; a failed query is passed over.
unfoldable pub matching_ids : Registry → ℕ → ℕ → ℕ → List ℕ
matching_ids registry expected i zero = []
matching_ids registry expected i (suc rounds) =
    let rest = matching_ids registry expected (i + 1) rounds in
    if is_sender expected (registry.get_instructions_sender i) then i ∷ rest else rest

-- `strings.Join(…, ", ")` of the printed ids.
unfoldable pub join_ids : List ℕ → String
join_ids [] = ""
join_ids (i ∷ []) = decimal i
join_ids (i ∷ j ∷ rest) = sprintf (decimal i ∷ ", " ∷ join_ids (j ∷ rest) ∷ [])

unfoldable pub r7_result : String → List ℕ → CheckResult
unfolding join_ids
r7_result instr_sender ids =
    if ltb 1 (length ids)
    then check "register" "R7" "unique instruction sender" warn
        (sprintf (
          "INSTRUCTION_SENDER "
          ∷ instr_sender
          ∷ " is used by multiple extensions: "
          ∷ join_ids ids
          ∷ []))
        ""
    else check "register" "R7" "unique instruction sender" pass
        "instruction sender is unique across registered extensions" ""

unfoldable pub r7 : Eth → Option Registry → Option ℕ → String → Checker
unfolding int64_rounds matching_ids r7_result
r7 lib (some registry) (some counter) instr_sender =
    when (ltb 0 counter && address_matches instr_sender) (
      emit (
        r7_result instr_sender
          (matching_ids registry (lib.hex_to_address instr_sender) 0 (int64_rounds counter))))
r7 lib _ _ instr_sender = done

-- `new(big.Int).SetString(extIDStr[2:], 16)` of a text that the regular expression accepts.
abbrev hex_value : ℕ → ℕ
hex_value c = if leb c b'9' then c - b'0' else if leb b'a' c then c - b'a' + 10 else c - b'A' + 10

unfoldable pub hex_number : ℕ → String → ℕ
hex_number n String.[] = n
hex_number n (String.◌∷◌ c s) = hex_number (n * 16 + hex_value (code c)) s

unfoldable pub parse_extension_id : String → ℕ
unfolding hex_number
parse_extension_id (String.◌∷◌ c (String.◌∷◌ d s)) = hex_number 0 s
parse_extension_id _ = 0

-- The checks that need the id, in order.
unfoldable pub id_checks :
    Eth → Option Client → Option ℕ → Option Registry → Option Allowlist → String → ℕ → Checker
unfolding r2 r3 r4 r7
id_checks lib client key registry allowlist instr_sender extension_id = do
  r2 lib (connected registry client) extension_id instr_sender
  r3 lib key allowlist client extension_id
  r4 lib (connected registry client) extension_id
  r7 lib (connected registry client) (counter_of (connected registry client)) instr_sender

-- R1, then the format of the id, which the later checks need.
unfoldable pub chain_side_checks :
    Eth → Option Client → Option ℕ → Option Registry → Option Allowlist → ExtensionEnv → Checker
unfolding r1 id_checks parse_extension_id
chain_side_checks lib client key registry allowlist env = do
  r1 (connected registry client)
  branch (extension_id_matches env.extension_id)
      (id_checks lib client key registry allowlist env.instruction_sender
        (parse_extension_id env.extension_id))
      (emit (
        check "register" "R2" "EXTENSION_ID format" fail
          (sprintf ("malformed EXTENSION_ID: " ∷ lib.quote env.extension_id ∷ []))
          "Delete config/extension.env and re-run scripts/pre-build.sh"))

unfoldable pub env_checks :
    Eth → Option Client → Option ℕ → Option Registry → Option Allowlist → ExtensionEnv → Checker
unfolding chain_side_checks
env_checks lib client key registry allowlist env =
    branch ((env.extension_id == "") && (env.instruction_sender == ""))
      (emit (
        check "register" "R1-R7" "registration checks" skip
          "config/extension.env not found — run pre-build.sh first" ""))
      (chain_side_checks lib client key registry allowlist env)

-- `RegisterRegistrationChecks`. The branch for an error of `parseExtensionEnv` is left out: the
-- function returns none.
unfoldable pub register_registration_checks :
    World → Eth → Option Client → Option ℕ → Option Registry → Option Allowlist → String → Checker
unfolding env_checks parse_extension_env
register_registration_checks w lib client key registry allowlist path =
    branch (path == "")
      (emit (check "register" "R1-R7" "registration checks" skip "no --config path provided" ""))
      (env_checks lib client key registry allowlist (parse_extension_env w path))
