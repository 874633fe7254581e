-- ===== src/SetupExtension.antt =====
-- tools/pkg/fccutils/extension.go, over the bindings of the two contracts that it calls.
pub mod Owners
pub mod Command
pub mod Sender
pub mod Verified
use quietfill.Prelude.{ℕ, String, Bool, List, [], ◌∷◌, length, ltb, eqb, sprintf, if◌then◌else◌}
use quietfill.Decimal.{decimal}
use quietfill.World.{Reply, ok, fail as error}
use quietfill.Io.{Io, NoError, nil, return, throw, view, labelled, ◌>>=◌, ◌>>◌}
use quietfill.Support.{TxClient, Receipt, check_tx}

-- The bindings of `ExtensionManager` and `OwnerAllowlist`, the key's transactor, and the client. A
-- key type is a number.
pub record ExtensionContracts (S : Type 0) : Type 0 where
  pub client : TxClient S
  pub deployer : ℕ  -- `crypto.PubkeyToAddress(s.Prv.PublicKey)`
  pub evm_type : ℕ  -- `wallets.EVMType`
  pub keyed_transactor : Reply NoError  -- `bind.NewKeyedTransactorWithChainID`
  pub register : ℕ → ℕ → Io S ℕ
  -- `ParseTeeExtensionRegistered`: the extension's id.
  pub parse_tee_extension_registered : ℕ → Reply ℕ
  pub parse_tee_extension_contracts_set : ℕ → Reply ℕ
  pub is_allowed_tee_machine_owner : ℕ → ℕ → S → Reply Bool
  pub add_allowed_tee_machine_owners : ℕ → List ℕ → Io S ℕ
  pub parse_allowed_tee_machine_owners_added : ℕ → Reply ℕ
  pub is_allowed_tee_wallet_project_owner : ℕ → ℕ → S → Reply Bool
  pub add_allowed_tee_wallet_project_owners : ℕ → List ℕ → Io S ℕ
  pub parse_allowed_tee_wallet_project_owners_added : ℕ → Reply ℕ
  pub is_key_type_supported : ℕ → ℕ → S → Reply Bool
  pub add_supported_key_types : ℕ → List ℕ → Io S ℕ

module _ {S : Type 0} (c : ExtensionContracts S) where
  abbrev pub registered_event : List ℕ → Io S ℕ
  registered_event (registered ∷ contracts_set ∷ _) = do
    id ←
        labelled "failed to parse TeeExtensionRegistered event: "
          (view (λ _. c.parse_tee_extension_registered registered))
    labelled "failed to parse TeeExtensionContractsSet event: "
        (view (λ _. c.parse_tee_extension_contracts_set contracts_set))
    return id
  registered_event logs = throw (
      sprintf (
        "expected at least 2 logs from Register() transaction, got "
        ∷ decimal (length logs)
        ∷ " — the registry contract may have changed or be behind a proxy"
        ∷ []))

  -- `registerExtension`, and of its results the extension's id, which is the one that is used.
  unfoldable pub register_extension : ℕ → ℕ → Io S ℕ
  register_extension instructions_sender state_verifier = do
    tx ←
        labelled "TeeExtensionRegistry.Register failed: "
          (c.register state_verifier instructions_sender)
    receipt ← labelled "Register transaction failed: " (check_tx c.client tx)
    registered_event receipt.logs

  abbrev pub added_event : String → (ℕ → Reply ℕ) → List ℕ → Io S ℕ
  added_event name parse [] =
      throw (sprintf ("no logs in Add" ∷ name ∷ " transaction — unexpected" ∷ []))
  added_event name parse (log ∷ _) =
      labelled (sprintf ("failed to parse " ∷ name ∷ "Added event: " ∷ [])) (view (λ _. parse log))

  -- `allowTeeMachineOwners`.
  unfoldable pub allow_tee_machine_owners : ℕ → List ℕ → Io S ℕ
  allow_tee_machine_owners extension_id owners = do
    tx ←
        labelled "AddAllowedTeeMachineOwners failed: "
          (c.add_allowed_tee_machine_owners extension_id owners)
    receipt ← labelled "AddAllowedTeeMachineOwners transaction failed: " (check_tx c.client tx)
    added_event "AllowedTeeMachineOwners" c.parse_allowed_tee_machine_owners_added receipt.logs

  -- `allowTeeProjectManagerOwners`.
  unfoldable pub allow_tee_project_manager_owners : ℕ → List ℕ → Io S ℕ
  allow_tee_project_manager_owners extension_id owners = do
    tx ←
        labelled "AddAllowedTeeWalletProjectOwners failed: "
          (c.add_allowed_tee_wallet_project_owners extension_id owners)
    receipt ←
        labelled "AddAllowedTeeWalletProjectOwners transaction failed: " (check_tx c.client tx)
    added_event "AllowedTeeWalletProjectOwners" c.parse_allowed_tee_wallet_project_owners_added
        receipt.logs

  -- `addSupportedKeyTypesTx`.
  unfoldable pub add_supported_key_types_tx : ℕ → List ℕ → Io S NoError
  add_supported_key_types_tx extension_id key_types = do
    tx ← c.add_supported_key_types extension_id key_types
    check_tx c.client tx
    return nil

  -- `AddSupportedKeyTypes`.
  unfoldable pub add_supported_key_types : ℕ → List ℕ → Io S NoError
  add_supported_key_types extension_id key_types = do
    view (λ _. c.keyed_transactor)
    add_supported_key_types_tx extension_id key_types

  -- `IsKeyTypeSupported`.
  unfoldable pub is_key_type_supported : ℕ → ℕ → Io S Bool
  is_key_type_supported extension_id key_type = view (c.is_key_type_supported extension_id key_type)

  abbrev pub unset : String → ℕ → String
  unset owners extension_id = sprintf (
      "failed adding "
      ∷ owners
      ∷ " (extension exists as ID "
      ∷ decimal extension_id
      ∷ " but owners not set): "
      ∷ [])

  -- Step 2, where the deployer is an allowed owner already or not.
  unfoldable pub set_machine_owner : ℕ → Bool → Io S NoError
  set_machine_owner extension_id already =
      if already
      then return nil
      else (labelled (unset "TEE machine owners" extension_id)
            (allow_tee_machine_owners extension_id (c.deployer ∷ []))
          >> return nil)

  -- Step 3.
  unfoldable pub set_project_owner : ℕ → Bool → Io S NoError
  set_project_owner extension_id already =
      if already
      then return nil
      else (labelled (unset "wallet project owners" extension_id)
            (allow_tee_project_manager_owners extension_id (c.deployer ∷ []))
          >> return nil)

  -- Step 4.
  unfoldable pub set_key_type : ℕ → Bool → Io S NoError
  set_key_type extension_id supported =
      if supported then return nil else add_supported_key_types extension_id (c.evm_type ∷ [])

  -- `SetupExtension`. It does not read its argument `governanceHash`.
  unfoldable pub setup_extension : ℕ → ℕ → Io S ℕ
  setup_extension instructions_sender state_verifier = do
    view (λ _. c.keyed_transactor)
    extension_id ← register_extension instructions_sender state_verifier
    already_machine_owner ←
        labelled "failed checking TEE machine owner status: "
          (view (c.is_allowed_tee_machine_owner extension_id c.deployer))
    set_machine_owner extension_id already_machine_owner
    already_project_owner ←
        labelled "failed checking wallet project owner status: "
          (view (c.is_allowed_tee_wallet_project_owner extension_id c.deployer))
    set_project_owner extension_id already_project_owner
    supported ← is_key_type_supported extension_id c.evm_type
    set_key_type extension_id supported
    return extension_id
