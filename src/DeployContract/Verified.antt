-- ===== src/DeployContract/Verified.antt =====
-- tools/cmd/deploy-contract/main.go with -preflight-only against tools/cmd/verify-deploy/main.go with
-- -step deploy.
use quietfill.Prelude.{
  String, Bool, true, not, ◌&&◌, ◌||◌, ◌≡◌, ◌∙◌, refl, some, ◌==◌, eqb, if◌then◌else◌, arith,
}
use quietfill.World.{World, ok}
use quietfill.Io.{◌>>◌, ◌>>=◌, view, return}
use quietfill.Report.{empty, any_failure, has_failures}
use quietfill.EnvFile.{parse_extension_env}
use quietfill.EnvFile.Format.{address_matches, extension_id_matches, check_extension_env_format}
use quietfill.EnvFile.Agree.{opens, env_format_failure}
use quietfill.Deploy.{
  address_not_zero, address_has_code, key_has_funds, min_deploy_balance, is_some, zero_addrs,
}
use quietfill.Deploy.Failure.{is_error, register_deploy_checks-failure}
use quietfill.DeployContract.{Deployment, preflight, main as deploy_contract_main}
use quietfill.VerifyDeploy.{Support, deploy_step, run_step, main as verify_main}
use quietfill.VerifyDeploy.Exit.{main_exit}

module _ {S : Type 0} (d : Deployment S) where
  -- The verifier's support has the key, the manager and the chain of the deployment, in the state.
  pub record IsSupportOf (v : Support) (s : S) : Type 0 where
    pub same_key : v.prv ≡ d.prv
    pub same_manager : v.flare_tee_manager ≡ d.code.flare_tee_manager
    pub same_client : v.chain_client ≡ d.rpc s

  -- A run with -preflight-only fails exactly when one of its three checks has an error.
  preflight_only-fails :
      (out_file base_hex quote_hex : String) (s : S)
      → is_error (deploy_contract_main d true out_file base_hex quote_hex s).0 ≡ (
          eqb d.code.flare_tee_manager 0
          || (is_some
                (address_has_code d.eth (some (d.rpc s)) d.code.flare_tee_manager "FlareTeeManager")
              || is_some (key_has_funds d.eth (some (d.rpc s)) d.prv min_deploy_balance)))
  unfolding deploy_contract_main preflight view return ◌>>◌ ◌>>=◌ address_not_zero
  preflight_only-fails out_file base_hex quote_hex s = ground arith

  -- The deploy checks of one address, the manager's.
  deploy_step-failure :
      (w : World) (v : Support) (path out_file base_hex quote_hex : String) (s : S)
      → IsSupportOf v s
      → has_failures (deploy_step w d.eth v path empty) ≡ (
          is_error (deploy_contract_main d true out_file base_hex quote_hex s).0
          || (is_error (d.rpc s).chain_id
              || (not (path == "") && any_failure (check_extension_env_format w d.eth path))))
  unfolding deploy_step has_failures zero_addrs address_not_zero
  deploy_step-failure w v path out_file base_hex quote_hex s is =
      register_deploy_checks-failure w d.eth (some v.chain_client) (some v.prv) _ _ path
      ∙ rw
          (
            is.same_key,
            is.same_manager,
            is.same_client,
            preflight_only-fails out_file base_hex quote_hex s,
          )
          (ground arith)

  -- extension.env, if there is one, has both values in their format.
  abbrev pub malformed : World → String → Bool
  malformed w path =
      opens (w.open_file path)
      && not (
          address_matches (parse_extension_env w path).instruction_sender
          && extension_id_matches (parse_extension_env w path).extension_id)

  -- On one chain, verify-deploy -step deploy, without -checks, exits with 1 exactly when
  -- deploy-contract -preflight-only fails, or the chain does not answer for its id, or the
  -- extension.env at the path that is given has a value that has not its format; it exits with 0
  -- else.
  pub deploy_exit-preflight :
      (w : World) (v : Support) (path out_file base_hex quote_hex : String) (s : S)
      → IsSupportOf v s
      → (verify_main w d.eth (ok v) "deploy" path "").1 ≡ (
          if is_error (deploy_contract_main d true out_file base_hex quote_hex s).0
            || (is_error (d.rpc s).chain_id || (not (path == "") && malformed w path))
          then 1
          else 0)
  unfolding run_step has_failures
  deploy_exit-preflight w v path out_file base_hex quote_hex s is =
      let (_, _, _, exits) =
        (main_exit w d.eth (ok v) "deploy" path "").0 (deploy_step w d.eth v path empty) refl in
      exits
      ∙ rw
          (
            deploy_step-failure w v path out_file base_hex quote_hex s is,
            env_format_failure w d.eth path,
          )
          refl
