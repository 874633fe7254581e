-- ===== src/Deploy/Emitted.antt =====
-- What `RegisterDeployChecks` leaves in the report.
use quietfill.Prelude.{
  ℕ, String, Bool, Option, none, some, List, [], ◌∷◌, All, refl, arith, Option-cases, inl, inr,
  ◌==◌,
}
use quietfill.World.{World, Eth, Client}
use quietfill.Report.{CheckResult}
use quietfill.Report.Checker.{
  Emits, Emits-done, Emits-emit, Emits-unless, ◌▸◌, Checker, emit, unless, ◌>>◌,
}
use quietfill.Report.Entry.{IsEntry}
use quietfill.Deploy.{
  zero_check, zero_checks, zero_addrs, code_check, code_checks, check_deployer_key_source,
  funds_checks, chain_checks, emit_all, register_deploy_checks, check_chain_id,
}
use quietfill.EnvFile.Format.{
  check_entry, check_extension_env_format, address_matches, extension_id_matches, lookup,
  insert_all,
}
use quietfill.EnvFile.{parse_pairs}

abbrev pub DeployEntry : CheckResult → Type 0
DeployEntry = IsEntry "deploy"

pub zero_check-IsEntry : (lib : Eth) (e : String × ℕ) → DeployEntry (zero_check lib e)
unfolding zero_check
zero_check-IsEntry lib e = ground arith

pub zero_checks-Emits :
    (lib : Eth) (es : List (String × ℕ)) → Emits DeployEntry (zero_checks lib es)
unfolding zero_checks
zero_checks-Emits lib [] = Emits-done
zero_checks-Emits lib (e ∷ es) =
    Emits-emit _ (zero_check-IsEntry lib e) ▸ (zero_checks-Emits lib es)

pub code_check-IsEntry :
    (lib : Eth) (client : Option Client) (e : String × ℕ) → DeployEntry (code_check lib client e)
unfolding code_check
code_check-IsEntry lib client e = ground arith

pub code_checks-Emits :
    (lib : Eth) (client : Option Client) (zeros : List String) (es : List (String × ℕ))
    → Emits DeployEntry (code_checks lib client zeros es)
unfolding code_checks
code_checks-Emits lib client zeros [] = Emits-done
code_checks-Emits lib client zeros ((label, addr) ∷ es) =
    Emits-unless _ (Emits-emit _ (code_check-IsEntry lib client (label, addr)))
    ▸ code_checks-Emits lib client zeros es

pub key_source-IsEntry : (w : World) → DeployEntry (check_deployer_key_source w)
unfolding check_deployer_key_source
key_source-IsEntry w = ground arith

pub funds_checks-Emits :
    (lib : Eth) (client : Option Client) (key : Option ℕ)
    → Emits DeployEntry (funds_checks lib client key)
unfolding funds_checks
funds_checks-Emits lib (some client) (some key) = Emits-emit _ (ground arith)
funds_checks-Emits lib _ _ = Emits-done

chain_id-IsEntry : (client : Client) → DeployEntry (check_chain_id client)
unfolding check_chain_id
chain_id-IsEntry client = ground arith

pub chain_checks-Emits : (client : Option Client) → Emits DeployEntry (chain_checks client)
unfolding chain_checks
chain_checks-Emits none = Emits-done
chain_checks-Emits (some client) = Emits-emit _ (chain_id-IsEntry client)

pub emit_all-Emits : (xs : List CheckResult) → All DeployEntry xs → Emits DeployEntry (emit_all xs)
unfolding emit_all
emit_all-Emits [] h = Emits-done
emit_all-Emits (x ∷ xs) (p, h) = Emits-emit x p ▸ (emit_all-Emits xs h)

check_entry-IsEntry :
    (lib : Eth) (key : String) (matches : String → Bool) (o : Option String)
    → DeployEntry (check_entry lib key matches o)
unfolding check_entry
check_entry-IsEntry lib key matches o = ground arith

pub env_format-IsEntry :
    (w : World) (lib : Eth) (path : String)
    → All DeployEntry (check_extension_env_format w lib path)
unfolding check_extension_env_format
env_format-IsEntry w lib path = elim (Option-cases (w.open_file path)) [
  | inl e ↦ rw e ((refl, refl), tt)
  | inr (content, e) ↦ rw e (
    check_entry-IsEntry lib "INSTRUCTION_SENDER" address_matches
        (lookup "INSTRUCTION_SENDER" (insert_all [] (parse_pairs content))),
    (
      check_entry-IsEntry lib "EXTENSION_ID" extension_id_matches
          (lookup "EXTENSION_ID" (insert_all [] (parse_pairs content))),
      tt,
    ),
  )
]

-- What follows the two loops over the map.
abbrev pub after_loops : World → Eth → Option Client → Option ℕ → String → Checker
after_loops w lib client key path =
    emit (check_deployer_key_source w)
    >> (funds_checks lib client key
        >> (chain_checks client
            >> unless (path == "") (emit_all (check_extension_env_format w lib path))))

pub after_loops-Emits :
    (w : World) (lib : Eth) (client : Option Client) (key : Option ℕ) (path : String)
    → Emits DeployEntry (after_loops w lib client key path)
after_loops-Emits w lib client key path =
    Emits-emit _ (key_source-IsEntry w)
    ▸ funds_checks-Emits lib client key
    ▸ chain_checks-Emits client
    ▸ Emits-unless _ (emit_all-Emits _ (env_format-IsEntry w lib path))

-- Whatever the report, the map and the surroundings, the deploy checks only append to the report,
-- always the same results, each of the step `deploy` and with a fix only for a failure or a warning.
pub register_deploy_checks-Emits :
    (w : World) (lib : Eth) (client : Option Client) (key : Option ℕ)
    → (first second : List (String × ℕ)) (path : String)
    → Emits DeployEntry (register_deploy_checks w lib client key first second path)
unfolding register_deploy_checks
register_deploy_checks-Emits w lib client key first second path =
    zero_checks-Emits lib first
    ▸ code_checks-Emits lib client (zero_addrs lib first) second
    ▸ after_loops-Emits w lib client key path
