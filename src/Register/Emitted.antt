-- ===== src/Register/Emitted.antt =====
-- What `RegisterRegistrationChecks` leaves in the report.
use quietfill.Prelude.{ℕ, String, Option, none, some, List, refl, arith}
use quietfill.World.{World, Eth, Client, Registry, Allowlist}
use quietfill.Report.{CheckResult}
use quietfill.Report.Checker.{Emits, Emits-done, Emits-emit, Emits-branch, Emits-when, ◌▸◌}
use quietfill.Report.Entry.{IsEntry}
use quietfill.EnvFile.{ExtensionEnv, parse_extension_env}
use quietfill.Register.{
  connected, counter_of, r1, r2, r3, r4, r7, r7_result, id_checks, chain_side_checks, env_checks,
  register_registration_checks, parse_extension_id,
}

abbrev pub RegisterEntry : CheckResult → Type 0
RegisterEntry = IsEntry "register"

pub r1-Emits : (registry : Option Registry) → Emits RegisterEntry (r1 registry)
unfolding r1
r1-Emits none = Emits-done
r1-Emits (some registry) = Emits-emit _ (ground arith)

pub r2-Emits :
    (lib : Eth) (registry : Option Registry) (id : ℕ) (sender : String)
    → Emits RegisterEntry (r2 lib registry id sender)
unfolding r2
r2-Emits lib none id sender = Emits-done
r2-Emits lib (some registry) id sender = Emits-when _ (Emits-emit _ (ground arith))

pub r3-Emits :
    (lib : Eth) (key : Option ℕ) (allowlist : Option Allowlist) (client : Option Client) (id : ℕ)
    → Emits RegisterEntry (r3 lib key allowlist client id)
unfolding r3
r3-Emits lib (some key) (some allowlist) (some client) id = Emits-emit _ (ground arith)
r3-Emits lib _ _ _ id = Emits-done

pub r4-Emits :
    (lib : Eth) (registry : Option Registry) (id : ℕ) → Emits RegisterEntry (r4 lib registry id)
unfolding r4
r4-Emits lib none id = Emits-done
r4-Emits lib (some registry) id = Emits-emit _ (ground arith)

r7_result-IsEntry : (sender : String) (ids : List ℕ) → RegisterEntry (r7_result sender ids)
unfolding r7_result
r7_result-IsEntry sender ids = ground arith

pub r7-Emits :
    (lib : Eth) (registry : Option Registry) (counter : Option ℕ) (sender : String)
    → Emits RegisterEntry (r7 lib registry counter sender)
unfolding r7
r7-Emits lib (some registry) (some counter) sender =
    Emits-when _ (Emits-emit _ (r7_result-IsEntry sender _))
r7-Emits lib _ _ sender = Emits-done

module _ (lib : Eth) (client : Option Client) (key : Option ℕ) (registry : Option Registry)
    (allowlist : Option Allowlist) where
  pub id_checks-Emits :
      (sender : String) (id : ℕ)
      → Emits RegisterEntry (id_checks lib client key registry allowlist sender id)
  unfolding id_checks
  id_checks-Emits sender id =
      r2-Emits lib (connected registry client) id sender
      ▸ r3-Emits lib key allowlist client id
      ▸ r4-Emits lib (connected registry client) id
      ▸ r7-Emits lib (connected registry client) (counter_of (connected registry client)) sender

  chain_side_checks-Emits :
      (env : ExtensionEnv)
      → Emits RegisterEntry (chain_side_checks lib client key registry allowlist env)
  unfolding chain_side_checks
  chain_side_checks-Emits env =
      r1-Emits (connected registry client)
      ▸ Emits-branch _
          (id_checks-Emits env.instruction_sender (parse_extension_id env.extension_id))
          (Emits-emit _ (refl, tt))

  env_checks-Emits :
      (env : ExtensionEnv) → Emits RegisterEntry (env_checks lib client key registry allowlist env)
  unfolding env_checks
  env_checks-Emits env = Emits-branch _ (Emits-emit _ (refl, refl)) (chain_side_checks-Emits env)

-- Whatever the report, the contracts and the surroundings, the registration checks only append to
-- the report, always the same results, each of the step `register` and with a fix only for a failure
-- or a warning.
pub register_registration_checks-Emits :
    (w : World) (lib : Eth) (client : Option Client) (key : Option ℕ)
    → (registry : Option Registry) (allowlist : Option Allowlist) (path : String)
    → Emits RegisterEntry (register_registration_checks w lib client key registry allowlist path)
unfolding register_registration_checks
register_registration_checks-Emits w lib client key registry allowlist path =
    Emits-branch _ (Emits-emit _ (refl, refl))
      (env_checks-Emits lib client key registry allowlist (parse_extension_env w path))
