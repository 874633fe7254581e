-- ===== src/SetupExtension/Verified.antt =====
-- tools/cmd/register-extension/main.go followed by tools/cmd/verify-deploy/main.go.
use quietfill.Prelude.{ℕ, String, Bool, true, false, ◌≡◌, refl, ◌∙◌, List, [], ◌∷◌, keep_if, arith}
use quietfill.World.{World, Reply, ok, Eth, Client}
use quietfill.Report.{CheckResult, empty, any_failure}
use quietfill.EnvFile.{parse_extension_env}
use quietfill.EnvFile.Format.{extension_id_matches}
use quietfill.Register.{parse_extension_id}
use quietfill.Register.Passed.{SetUp, register_registration_checks-passes}
use quietfill.SetupExtension.{ExtensionContracts}
use quietfill.SetupExtension.Owners.{Promises, Owned}
use quietfill.SetupExtension.Command.{main as register_extension_main, main-Owned}
use quietfill.SetupExtension.Sender.{Records, HasSender, main-HasSender}
use quietfill.Support.{Support as ChainSupport}
use quietfill.VerifyDeploy.{
  Support, register_step, run_step, main as verify_main, is_allowed, allowed_ids,
}
use quietfill.VerifyDeploy.Exit.{shown, main_exit}

any_failure-keep_if :
    (p : CheckResult → Bool) (xs : List CheckResult)
    → any_failure xs ≡ false
    → any_failure (keep_if p xs) ≡ false
unfolding any_failure
any_failure-keep_if p [] h = refl
any_failure-keep_if p (x ∷ xs) h = ground (arith, h, any_failure-keep_if p xs)

any_failure-shown :
    (checks_filter : String) (xs : List CheckResult)
    → any_failure xs ≡ false
    → any_failure (shown checks_filter xs) ≡ false
any_failure-shown checks_filter xs h =
    ground (arith, h, any_failure-keep_if (is_allowed (allowed_ids checks_filter)) xs h)

module _ {S : Type 0} (c : ExtensionContracts S) (sender_of : ℕ → S → Reply ℕ) (eth : Eth) where
  -- The verifier's support is about the chain in the state `s`: it has the deployer's key, and its
  -- bindings of the registry and of the allowlist answer as those that the registration called.
  pub record IsSupportOf (v : Support) (s : S) : Type 0 where
    pub deployer_key : eth.pubkey_to_address v.prv ≡ c.deployer
    pub key_type : eth.evm_type ≡ c.evm_type
    pub owners :
        (id owner : ℕ)
        → v.tee_owner_allowlist.is_allowed_machine_owner id owner
          ≡ c.is_allowed_tee_machine_owner id owner s
    pub key_types :
        (id type : ℕ)
        → v.tee_extension_registry.is_key_type_supported id type ≡ c.is_key_type_supported id type s
    pub senders : (id : ℕ) → v.tee_extension_registry.get_instructions_sender id ≡ sender_of id s
    pub next_id : ℕ
    pub counted : v.tee_extension_registry.next_public_extension_id ≡ ok next_id

  -- The file extension.env, at the path, has the extension's id, in its format, and its sender.
  pub record Names (w : World) (path : String) (id : ℕ) (sender : String) : Type 0 where
    pub formed : extension_id_matches (parse_extension_env w path).extension_id ≡ true
    pub same_id : parse_extension_id (parse_extension_env w path).extension_id ≡ id
    pub same_sender : (parse_extension_env w path).instruction_sender ≡ sender

  Owned-SetUp :
      (v : Support) (id : ℕ) (sender : String) (s : S)
      → IsSupportOf v s
      → HasSender c sender_of id (eth.hex_to_address sender) s
      → Owned c id s
      → SetUp eth v.chain_client v.prv v.tee_extension_registry v.tee_owner_allowlist id sender
  Owned-SetUp v id sender s is sends (machine, project, key) = record {
    next_id = is.next_id;
    counted = is.counted;
    sends = is.senders id ∙ sends;
    allowed = rw is.deployer_key (is.owners id c.deployer ∙ machine);
    supported = rw is.key_type (is.key_types id c.evm_type ∙ key);
  }

  -- Where the contracts keep their promises: after a register-extension that succeeds, on the chain
  -- that it leaves, with an extension.env that names the sender of its flag and the id that it
  -- returns, verify-deploy -step register exits with 0, whatever its -checks.
  pub main-verified :
      (rpc : S → Client) (support : Reply ChainSupport) (sender : String) (id : ℕ) (s s' : S)
      → (w : World) (v : Support) (path checks_filter : String) → Promises c
      → Records c sender_of
      → register_extension_main c eth rpc support sender s ≡ (ok id, s')
      → IsSupportOf v s'
      → Names w path id sender
      → (verify_main w eth (ok v) "register" path checks_filter).1 ≡ 0
  unfolding run_step register_step
  main-verified rpc support sender id s s' w v path checks_filter promises records done is names =
      let passes =
        register_registration_checks-passes eth v.chain_client v.prv v.tee_extension_registry
          v.tee_owner_allowlist w path names.formed
          (rw (names.same_id, names.same_sender)
            (Owned-SetUp v id sender s' is
              (main-HasSender c sender_of records eth rpc support sender id s s' done)
              (main-Owned c eth rpc support sender id s s' promises done).1)) in
      let (_, _, _, exits) =
        (main_exit w eth (ok v) "register" path checks_filter).0 (register_step w eth v path empty)
          refl in
      exits
      ∙ rw (any_failure-shown checks_filter (register_step w eth v path empty).results passes) refl
