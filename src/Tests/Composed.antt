-- ===== src/Tests/Composed.antt =====
-- verify-deploy after a register-extension, at a concrete chain.
use quietfill.Prelude.{◌≡◌, refl, true, not, ◌&&◌, ◌||◌, ◌==◌, if◌then◌else◌}
use quietfill.World.{ok}
use quietfill.EnvFile.{parse_extension_env}
use quietfill.EnvFile.Format.{is_hex_of}
use quietfill.Register.{parse_extension_id}
use quietfill.SetupExtension.Verified.{main-verified}
use quietfill.Deploy.Failure.{is_error}
use quietfill.DeployContract.{main as deploy_main}
use quietfill.DeployContract.Verified.{malformed, deploy_exit-preflight}
use quietfill.VerifyDeploy.{Support, main as verify_main}
use quietfill.Tests.Data.{world, eth, client, registry, support, sender_text}
use quietfill.Tests.Tools.{chain_support}
use quietfill.Tests.Owners.{
  contracts, contracts-Promises, contracts-Records, sender_of, two_tokens, deployment, bare, owned,
  registered,
}

-- The support of a chain on which the sender is the one of every extension.
abbrev connected : Support
connected = record support {
  tee_extension_registry = record registry { get_instructions_sender = λ id. ok 7 };
}

main-verified_example :
    (verify_main world eth (ok connected) "register" "extension.env" "R3, R7").1 ≡ 0
unfolding parse_extension_env parse_extension_id is_hex_of
main-verified_example =
    main-verified contracts sender_of eth (λ s. client) (ok chain_support) sender_text 66_046 bare
      owned world connected "extension.env" "R3, R7" contracts-Promises contracts-Records registered
      (record {
        deployer_key = refl;
        key_type = refl;
        owners = λ id owner. refl;
        key_types = λ id type. refl;
        senders = λ id. refl;
        next_id = 4;
        counted = refl;
      })
      (record { formed = refl; same_id = refl; same_sender = refl })

deploy_exit-preflight_example :
    (verify_main world two_tokens (ok support) "deploy" "extension.env" "").1 ≡ (
      if is_error (deploy_main deployment true "" "" "" 0).0
        || (is_error client.chain_id
            || (not ("extension.env" == "") && malformed deployment world "extension.env"))
      then 1
      else 0)
deploy_exit-preflight_example =
    deploy_exit-preflight deployment world support "extension.env" "" "" "" 0
      (record { same_key = refl; same_manager = refl; same_client = refl })
