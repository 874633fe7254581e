-- ===== src/Tests/Steps.antt =====
-- The theorems about the steps at a deployment.
use mathlib.Core.List.Perm
use quietfill.Prelude.{◌≡◌, refl, none, some, [], ◌∷◌, if◌then◌else◌}
use quietfill.World.{ok}
use quietfill.Report.{Report, any_failure}
use quietfill.EnvFile.{parse_extension_env, parse_pairs, assign_all, no_env}
use quietfill.EnvFile.Format.{lookup, insert_all}
use quietfill.EnvFile.Agree.{value, readers_agree}
use quietfill.Deploy.{register_deploy_checks}
use quietfill.Report.Order.{Agree}
use quietfill.Deploy.Order.{register_deploy_checks-Agree}
use quietfill.VerifyDeploy.{run_step, main}
use quietfill.VerifyDeploy.Exit.{shown, main_exit}
use quietfill.Tests.Data.{world, eth, support, sample, env_file, sender_text, id_text}

parse-world :
    parse_extension_env world "extension.env"
    ≡ record { extension_id = id_text; instruction_sender = sender_text }
unfolding parse_extension_env
parse-world = refl

readers_agree_example :
    ((assign_all no_env (parse_pairs env_file)).extension_id
      ≡ value (lookup "EXTENSION_ID" (insert_all [] (parse_pairs env_file))))
    × ((assign_all no_env (parse_pairs env_file)).instruction_sender
        ≡ value (lookup "INSTRUCTION_SENDER" (insert_all [] (parse_pairs env_file))))
readers_agree_example = readers_agree env_file

main_exit_example :
    ((r : Report)
      → run_step world eth (ok support) "all" "extension.env" ≡ some r
      → (q : Report) × ((main world eth (ok support) "all" "extension.env" "D5, R2").0 ≡ some q)
        × (q.results ≡ shown "D5, R2" r.results)
        × ((main world eth (ok support) "all" "extension.env" "D5, R2").1
            ≡ (if any_failure (shown "D5, R2" r.results) then 1 else 0)))
    × (run_step world eth (ok support) "all" "extension.env" ≡ none
        → (main world eth (ok support) "all" "extension.env" "D5, R2" ≡ (none, 1)))
main_exit_example = main_exit world eth (ok support) "all" "extension.env" "D5, R2"

-- Two contracts, of which one has the zero address.
register_deploy_checks-Agree_example :
    Agree
      (register_deploy_checks world eth none none
        (("FlareTeeManager", 9) ∷ ("Fdc2Hub", 0) ∷ [])
        (("Fdc2Hub", 0) ∷ ("FlareTeeManager", 9) ∷ [])
        "extension.env"
        sample)
      (register_deploy_checks world eth none none
        (("Fdc2Hub", 0) ∷ ("FlareTeeManager", 9) ∷ [])
        (("FlareTeeManager", 9) ∷ ("Fdc2Hub", 0) ∷ [])
        "extension.env"
        sample)
register_deploy_checks-Agree_example =
    register_deploy_checks-Agree world eth none none "extension.env" sample
      (Perm.swap ("Fdc2Hub", 0) ("FlareTeeManager", 9) [])
      (Perm.swap ("FlareTeeManager", 9) ("Fdc2Hub", 0) [])
