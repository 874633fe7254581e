-- ===== src/Tests/Owners.antt =====
-- The commands that change the chain, at concrete inputs: registering an extension, deploying the
-- contract, allowing a version.
use quietfill.Prelude.{
  arith, ℕ, ◌≡◌, ◌⊎◌, refl, Bool, true, false, Option, none, some, [], ◌∷◌, ◌==◌, if◌then◌else◌,
}
use quietfill.World.{Reply, ok, Eth}
use quietfill.Io.{nil, return, throw, view, labelled, attempt, require, ◌>>=◌, ◌>>◌}
use quietfill.Deploy.{address_not_zero, address_has_code, key_has_funds}
use quietfill.Support.{check_tx, judge_receipt}
use quietfill.Instructions.{AuctionCode, sent, deploy_instruction_sender}
use quietfill.SetupExtension.{
  ExtensionContracts, register_extension, set_machine_owner, set_project_owner, set_key_type,
  allow_tee_machine_owners, allow_tee_project_manager_owners, add_supported_key_types,
  add_supported_key_types_tx, is_key_type_supported, setup_extension,
}
use quietfill.SetupExtension.Owners.{Promises, Owned, MachineOwner, ProjectOwner, KeyType}
use quietfill.SetupExtension.Sender.{Records, HasSender}
use quietfill.SetupExtension.Command.{main as register_main, main-Owned}
use quietfill.DeployContract.{
  Deployment, Deployed, describe_token, check_token, given_tokens, resolve_tokens, preflight,
  deploy, main as deploy_main,
}
use quietfill.DeployContract.Tokens.{HasCode, IsReady}
use quietfill.DeployContract.Live.{HasPair, main-IsReady}
use quietfill.TeeVersion.{
  VersionTools, string_to_bytes32, version_key, add_tee_version, tolerate_existing, allow,
  main as version_main,
}
use quietfill.TeeVersion.Supported.{IsSupported, IsRefused, main-IsSupported}
use quietfill.Revert.{CallOutcome}
use quietfill.Tests.Data.{eth, client, sender_text}
use quietfill.TeeCalls.{SignedTeeInfo, tee_info}
use quietfill.Tests.Tools.{mined_at_once, at_once, chain_support, reporting, machine_report}

-- What the contracts hold of the deployer and of the EVM key type.
pub record Facts : Type 0 where
  sender : ℕ
  machine : Bool
  project : Bool
  key : Bool

abbrev pub contracts : ExtensionContracts Facts
contracts = record {
  client = mined_at_once Facts;
  deployer = 5;
  evm_type = 1;
  keyed_transactor = ok nil;
  register = λ verifier sender s. (ok 70, record s { sender = sender });
  parse_tee_extension_registered = λ log. ok 66_046;
  parse_tee_extension_contracts_set = λ log. ok 1;
  is_allowed_tee_machine_owner = λ id owner s. ok s.machine;
  add_allowed_tee_machine_owners = λ id owners s. (ok 71, record s { machine = true });
  parse_allowed_tee_machine_owners_added = λ log. ok 1;
  is_allowed_tee_wallet_project_owner = λ id owner s. ok s.project;
  add_allowed_tee_wallet_project_owners = λ id owners s. (ok 72, record s { project = true });
  parse_allowed_tee_wallet_project_owners_added = λ log. ok 1;
  is_key_type_supported = λ id type s. ok s.key;
  add_supported_key_types = λ id types s. (ok 73, record s { key = true });
}

pub contracts-Promises : Promises contracts
contracts-Promises = record {
  machine_owner_added = λ id. at_once (MachineOwner contracts id) _ (λ s. refl);
  project_owner_added = λ id. at_once (ProjectOwner contracts id) _ (λ s. refl);
  key_type_added = λ id. at_once (KeyType contracts id) _ (λ s. refl);
  machine_owner_kept = λ id. (record { holds = λ s h. h }, record { holds = λ s h. h });
  project_owner_kept = λ id. record { holds = λ s h. h };
  mining_keeps = λ id tx. (record { holds = λ s h. h }, record { holds = λ s h. h });
}

abbrev pub sender_of : ℕ → Facts → Reply ℕ
sender_of id s = ok s.sender

pub contracts-Records : Records contracts sender_of
contracts-Records = record {
  recorded = λ sender verifier tx id log logs receipt s s₁ s₂ sends mined good found parsed.
      at_once (HasSender contracts sender_of id sender) (contracts.register verifier sender)
        (λ t. refl) tx receipt s s₁ s₂ sends mined good;
  sender_kept = λ id sender.
      (record { holds = λ s h. h }, record { holds = λ s h. h }, record { holds = λ s h. h });
  mining_keeps = λ id sender tx. record { holds = λ s h. h };
}

abbrev pub bare : Facts
bare = record { sender = 0; machine = false; project = false; key = false }

abbrev pub owned : Facts
owned = record { sender = 7; machine = true; project = true; key = true }

pub registered :
    register_main contracts eth (λ s. client) (ok chain_support) sender_text bare
    ≡ (ok 66_046, owned)
unfolding register_main setup_extension register_extension set_machine_owner set_project_owner
    set_key_type allow_tee_machine_owners allow_tee_project_manager_owners add_supported_key_types
    add_supported_key_types_tx is_key_type_supported check_tx judge_receipt address_has_code return
    throw view labelled require ◌>>=◌ ◌>>◌
registered = refl

main-Owned_example : HasCode client 7 × Owned contracts 66_046 owned
main-Owned_example =
    main-Owned contracts eth (λ s. client) (ok chain_support) sender_text 66_046 bare owned
      contracts-Promises registered

abbrev pub two_tokens : Eth
two_tokens = record {
  hex = λ n. "0xab";
  hex_to_address = λ t. if t == "0x1" then 1 else 2;
  pubkey_to_address = λ k. k;
  evm_type = 1;
  quote = λ t. t;
}

abbrev code : AuctionCode ℕ
code = record {
  client = mined_at_once ℕ;
  from = 5;
  flare_tee_manager = 9;
  keyed_transactor = ok nil;
  deploy_quiet_fill_auction = λ a b base quote s. (ok (77, 8), 1);
  new_quiet_fill_auction = λ addr. ok nil;
  set_extension_id = λ addr s. (sent 1, s);
  call_data = none;
  call_contract = λ from to bytes s. CallOutcome.returned [];
}

abbrev pub deployment : Deployment ℕ
deployment = record {
  code = code;
  eth = two_tokens;
  rpc = λ s. client;
  prv = 5;
  local_mode = "false";
  equal_fold = λ a b. a == b;
  new_test_token = λ addr. ok nil;
  symbol = λ addr s. ok "FXRP";
  decimals = λ addr s. ok 6;
  deploy_test_token = λ name symbol decimals s. (ok (1, 1), s);
  write_file = λ path text s. s;
}

abbrev deployed : Option Deployed
deployed = some (record { base_token = 1; quote_token = 2; address = 77 })

run : deploy_main deployment false "" "0x1" "0x2" 0 ≡ (ok deployed, 1)
unfolding deploy_main preflight deploy resolve_tokens given_tokens check_token describe_token
    deploy_instruction_sender address_not_zero address_has_code key_has_funds return throw view
    labelled require ◌>>=◌ ◌>>◌
run = refl

main-IsReady_example :
    IsReady deployment 0
    × (false ≡ true → (deployed ≡ none) × (◌≡◌ {A = ℕ} 1 0))
    × (false ≡ false → true ≡ true → HasPair deployment 0 deployed)
main-IsReady_example = main-IsReady deployment false "" "0x1" "0x2" deployed 0 1 run

abbrev version_tools : VersionTools Bool
version_tools = record {
  client = mined_at_once Bool;
  extension_owner_key = "";
  hex_to_ecdsa = λ t. ok 5;
  quote = λ s. "v1";
  libraries = reporting Bool (machine_report 6 8);
  proxy_url = "http://proxy";
  keyed_transactor = λ key. ok nil;
  is_code_hash_platform_supported = λ id hash platform s. ok s;
  add_tee_version = λ key id version hash platform s. (ok 9, true);
}

allowed : version_main version_tools (ok chain_support) (118 ∷ []) false ≡ (ok nil, true)
unfolding version_main version_key allow add_tee_version string_to_bytes32 tolerate_existing
    check_tx judge_receipt attempt return throw view labelled ◌>>=◌ ◌>>◌
allowed = refl

main-IsSupported_example :
    (m : SignedTeeInfo) × (tee_info version_tools.libraries version_tools.proxy_url false ≡ ok m)
    × (IsSupported version_tools m true
        ⊎ ((priv_key : ℕ) × IsRefused version_tools priv_key m (118 ∷ []) false true))
main-IsSupported_example =
    main-IsSupported version_tools (ok chain_support) (118 ∷ []) false true
      (λ m priv_key version. at_once (IsSupported version_tools m) _ (λ s. refl)) (λ key. refl)
      (omega arith) allowed
