-- ===== src/Deploy.antt =====
-- `RegisterDeployChecks` of tools/pkg/validate/checks.go, with the helpers of
-- tools/pkg/validate/validate.go. An address is a number, and the zero address is 0. A Go map is
-- enumerated in an order of its own by each `range`, so the two loops over `addresses` take a list
-- each.
pub mod Emitted
pub mod Failure
pub mod Order
use quietfill.Prelude.{
  ℕ, ◌^◌, ◌*◌, String, Bool, true, false, ◌||◌, Option, none, some, List, [], ◌∷◌, sprintf, eqb,
  ltb, any, ◌==◌, if◌then◌else◌,
}
use quietfill.Decimal.{decimal}
use quietfill.World.{World, Eth, Client, Reply, ok, fail as error}
use quietfill.Report.{CheckResult, check, pass, warn, fail}
use quietfill.Report.Checker.{Checker, emit, done, unless, ◌>>◌}
use quietfill.EnvFile.Format.{check_extension_env_format}

-- `MinDeployBalance`, 0.01 ETH in wei.
abbrev pub min_deploy_balance : ℕ
min_deploy_balance = 10_000_000_000_000_000

-- `AddressNotZero`: the error's text, or `none` for `nil`.
unfoldable pub address_not_zero : Eth → ℕ → String → Option String
address_not_zero lib addr label =
    if eqb addr 0
    then some
        (sprintf (label ∷ " is the zero address (" ∷ lib.hex addr ∷ ") in the addresses file" ∷ []))
    else none

abbrev code_error : Eth → ℕ → String → Reply ℕ → Option String
code_error lib addr label (error e) = some (sprintf ("cannot check " ∷ label ∷ ": " ∷ e ∷ []))
code_error lib addr label (ok size) =
    if eqb size 0
    then some (
        sprintf (
          label
          ∷ " at "
          ∷ lib.hex addr
          ∷ " has no deployed code. This address will be set as immutable in the contract constructor and cannot be changed. Check your deployed-addresses.json file — are you on the right network?"
          ∷ []))
    else none

-- `AddressHasCode`; `none` as the client is a nil pointer.
unfoldable pub address_has_code : Eth → Option Client → ℕ → String → Option String
address_has_code lib none addr label =
    some (sprintf ("cannot check " ∷ label ∷ ": no chain client connected" ∷ []))
address_has_code lib (some client) addr label = code_error lib addr label (client.code_at addr)

abbrev funds_error : Eth → ℕ → ℕ → Reply ℕ → Option String
funds_error lib addr min_wei (error e) = some (sprintf ("cannot check deployer balance: " ∷ e ∷ []))
funds_error lib addr min_wei (ok balance) =
    if ltb balance min_wei
    then some (
        sprintf (
          "deployer "
          ∷ lib.hex addr
          ∷ " has insufficient funds (balance: "
          ∷ decimal balance
          ∷ " wei, minimum required: "
          ∷ decimal min_wei
          ∷ " wei). Fund this account before deploying"
          ∷ []))
    else none

-- `KeyHasFunds`.
unfoldable pub key_has_funds : Eth → Option Client → ℕ → ℕ → Option String
key_has_funds lib none key min_wei = some "cannot check deployer balance: no chain client connected"
key_has_funds lib (some client) key min_wei =
    funds_error lib (lib.pubkey_to_address key) min_wei
      (client.balance_at (lib.pubkey_to_address key))

-- A check of the form `if err := …; err != nil { FAIL } else { PASS }`.
unfoldable pub from_error : String → String → String → Option String → String → String → CheckResult
from_error step id name (some err) message fix = check step id name fail err fix
from_error step id name none message fix = check step id name pass message ""

-- D3, for one address.
unfoldable pub zero_check : Eth → String × ℕ → CheckResult
unfolding from_error address_not_zero
zero_check lib (label, addr) =
    from_error "deploy" "D3" (sprintf (label ∷ " address not zero" ∷ []))
      (address_not_zero lib addr label) (lib.hex addr)
      "Re-run the deploy script or check deployed-addresses.json"

unfoldable pub zero_checks : Eth → List (String × ℕ) → Checker
unfolding zero_check
zero_checks lib [] = done
zero_checks lib (entry ∷ rest) = emit (zero_check lib entry) >> zero_checks lib rest

abbrev pub is_some : Option String → Bool
is_some none = false
is_some (some _) = true

-- `zeroAddrs`: the labels that the first loop marks.
unfoldable pub zero_addrs : Eth → List (String × ℕ) → List String
unfolding address_not_zero
zero_addrs lib [] = []
zero_addrs lib ((label, addr) ∷ rest) =
    let marked = zero_addrs lib rest in
    if is_some (address_not_zero lib addr label) then label ∷ marked else marked

-- D1, for one address.
unfoldable pub code_check : Eth → Option Client → String × ℕ → CheckResult
unfolding from_error address_has_code
code_check lib client (label, addr) =
    from_error "deploy" "D1" (sprintf (label ∷ " has deployed code" ∷ []))
      (address_has_code lib client addr label) (sprintf ("code found at " ∷ lib.hex addr ∷ []))
      "Deploy contracts or check CHAIN_URL / deployed-addresses.json"

unfoldable pub code_checks : Eth → Option Client → List String → List (String × ℕ) → Checker
unfolding code_check
code_checks lib client zeros [] = done
code_checks lib client zeros ((label, addr) ∷ rest) =
    unless (any (λ l. l == label) zeros) (emit (code_check lib client (label, addr)))
    >> code_checks lib client zeros rest

-- `CheckDeployerKeySource`.
unfoldable pub check_deployer_key_source : World → CheckResult
check_deployer_key_source w =
    let priv_key = w.getenv "DEPLOYMENT_PRIVATE_KEY" in
    let local_mode = w.getenv "LOCAL_MODE" in
    if priv_key == ""
    then (if (local_mode == "true") || (local_mode == "")
        then check "deploy" "D5" "deployer key source" pass "using Hardhat dev key (LOCAL_MODE)" ""
        else check "deploy" "D5" "deployer key source" warn
            "DEPLOYMENT_PRIVATE_KEY not set — using Hardhat dev key which has no funds on Coston2"
            "Set DEPLOYMENT_PRIVATE_KEY in .env to a funded account on the target network")
    else check "deploy" "D5" "deployer key source" pass "DEPLOYMENT_PRIVATE_KEY is set" ""

-- `IsUsingDevKey`.
unfoldable pub is_using_dev_key : World → Bool
is_using_dev_key w = w.getenv "DEPLOYMENT_PRIVATE_KEY" == ""

-- D5, the balance; only with a key and a client.
unfoldable pub funds_checks : Eth → Option Client → Option ℕ → Checker
unfolding from_error key_has_funds
funds_checks lib (some client) (some key) = emit (
    from_error "deploy" "D5" "deployer has sufficient funds"
      (key_has_funds lib (some client) key min_deploy_balance) "balance above minimum threshold"
      "Fund the deployer account before deploying")
funds_checks lib _ _ = done

-- `chainName`, of the decimal text of the id.
unfoldable pub chain_name : String → String
chain_name id =
    if id == "31337"
    then "Hardhat/Anvil (local devnet)"
    else if id == "114"
    then "Coston2 (testnet)"
    else if id == "14"
    then "Flare (mainnet)"
    else "unknown network"

abbrev chain_id_result : Reply ℕ → CheckResult
chain_id_result (error e) =
    check "deploy" "D6" "chain ID" fail (sprintf ("failed to get chain ID: " ∷ e ∷ []))
      "Check CHAIN_URL"
chain_id_result (ok id) =
    check "deploy" "D6" "chain ID" pass
      (sprintf ("chain ID " ∷ decimal id ∷ " (" ∷ chain_name (decimal id) ∷ ")" ∷ [])) ""

-- `checkChainID`.
unfoldable pub check_chain_id : Client → CheckResult
check_chain_id client = chain_id_result client.chain_id

-- D6; only with a client.
unfoldable pub chain_checks : Option Client → Checker
unfolding check_chain_id
chain_checks none = done
chain_checks (some client) = emit (check_chain_id client)

-- The loop that adds the results of a slice.
unfoldable pub emit_all : List CheckResult → Checker
emit_all [] = done
emit_all (x ∷ xs) = emit x >> emit_all xs

-- `RegisterDeployChecks`: `first` and `second` are the entries of the map `addresses` in the order
-- of each loop.
unfoldable pub register_deploy_checks :
    World
    → Eth
    → Option Client
    → Option ℕ
    → List (String × ℕ)
    → List (String × ℕ)
    → String
    → Checker
unfolding zero_checks code_checks zero_addrs funds_checks chain_checks emit_all
register_deploy_checks w lib client key first second path = do
  zero_checks lib first
  code_checks lib client (zero_addrs lib first) second
  emit (check_deployer_key_source w)
  funds_checks lib client key
  chain_checks client
  unless (path == "") (emit_all (check_extension_env_format w lib path))
