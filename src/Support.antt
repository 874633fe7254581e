-- ===== src/Support.antt =====
-- tools/pkg/support/support.go and `ReadAddresses` of tools/pkg/configs/configs.go: the addresses
-- file, the deployment key, the bindings of the contracts, and the wait for a transaction. An
-- address, a key, a transaction, a log and a binding are numbers.
pub mod Entries
pub mod Fields
pub mod Mined
pub mod Wired
use quietfill.Prelude.{
  ℕ, String, Bool, true, false, ◌||◌, Option, none, some, List, [], ◌∷◌, length, sprintf, eqb, ltb,
  ◌==◌, if◌then◌else◌, code, ◌&&◌,
}
use quietfill.Hex.{decode_hex, encode_hex, trim_0x}
use quietfill.World.{Reply, ok, fail as error}
use quietfill.Revert.{
  UnpackRevert, Payload, text, bytes, absent, other, RpcError, CallOutcome, returned, failed,
}
use quietfill.Io.{Io, return, throw, view, labelled, ◌>>=◌, ◌>>◌}

-- `types.Receipt`: the fields that are read.
pub record Receipt : Type 0 where
  pub status : ℕ
  pub logs : List ℕ

-- `*ethclient.Client`, as transactions need it, over the state of what is outside.
pub record TxClient (S : Type 0) : Type 0 where
  pub wait_mined : ℕ → Io S Receipt
  pub tx_hex : ℕ → String  -- `tx.Hash().Hex()`
  pub transaction_by_hash : ℕ → S → Reply ℕ
  pub sender : ℕ → Reply ℕ
  -- `CallContract` with the fields of a transaction, from its sender.
  pub call_contract : ℕ → ℕ → S → CallOutcome
  pub unpack_revert : UnpackRevert

abbrev pub unpacked : UnpackRevert → Option (List ℕ) → String
unpacked unpack none = ""
unpacked unpack (some decoded) = elim (unpack decoded) [ none ↦ "" | some reason ↦ reason ]

-- `decodeRevertFromError`.
unfoldable pub decode_revert_from_error : UnpackRevert → Payload → String
decode_revert_from_error unpack (text hex_str) = unpacked unpack (decode_hex (trim_0x hex_str))
decode_revert_from_error unpack (bytes b) = ""
decode_revert_from_error unpack absent = ""
decode_revert_from_error unpack other = ""

abbrev pub result_message : List ℕ → Option String → String
result_message res (some reason) = reason
result_message res none =
    if ltb 0 (length res) then sprintf ("0x" ∷ encode_hex res ∷ []) else "unknown revert reason"

-- The end of `getFailingMessage`.
unfoldable pub failing_text : UnpackRevert → CallOutcome → String
unfolding decode_revert_from_error
failing_text unpack (failed e) =
    let reason = decode_revert_from_error unpack e.payload in
    if reason == "" then e.message else reason
failing_text unpack (returned res) = result_message res (unpack res)

module _ {S : Type 0} (c : TxClient S) where
  -- `getFailingMessage`.
  unfoldable pub get_failing_message : ℕ → Io S String
  get_failing_message tx = do
    found ← view (c.transaction_by_hash tx)
    from ← view (λ _. c.sender found)
    view (λ s. ok (failing_text c.unpack_revert (c.call_contract found from s)))

  abbrev pub transaction_fail : String → Io S Receipt
  transaction_fail reason = throw (sprintf ("error: Transaction fail: " ∷ reason ∷ []))

  -- `if receipt.Status == 0`.
  unfoldable pub judge_receipt : ℕ → Receipt → Io S Receipt
  judge_receipt tx receipt =
      if eqb receipt.status 0 then get_failing_message tx >>= transaction_fail else return receipt

  -- `CheckTx`.
  unfoldable pub check_tx : ℕ → Io S Receipt
  check_tx tx =
      labelled (sprintf ("transaction not mined within 2 minutes (tx: " ∷ c.tx_hex tx ∷ "): " ∷ []))
        (c.wait_mined tx)
      >>= judge_receipt tx

-- `RawContract`: the fields that are read.
pub record RawContract : Type 0 where
  pub name : String
  pub address : String

pub record Addresses : Type 0 where
  pub flare_system_manager : ℕ
  pub fdc2_hub : ℕ
  pub flare_tee_manager : ℕ

abbrev pub no_addresses : Addresses
no_addresses = record { flare_system_manager = 0; fdc2_hub = 0; flare_tee_manager = 0 }

-- `*dest = …`, where `fieldMap` has the key: the JSON tags of the three fields.
unfoldable pub assign_address : String → ℕ → Addresses → Addresses
assign_address key addr a =
    if key == "FlareSystemsManager"
    then record a { flare_system_manager = addr }
    else if key == "Fdc2Hub"
    then record a { fdc2_hub = addr }
    else if key == "FlareTeeManager"
    then record a { flare_tee_manager = addr }
    else a

-- The loop of `ParseAddresses`.
unfoldable pub assign_addresses : (String → ℕ) → List RawContract → Addresses → Addresses
unfolding assign_address
assign_addresses hex_to_address [] a = a
assign_addresses hex_to_address (c ∷ rest) a =
    assign_addresses hex_to_address rest (assign_address c.name (hex_to_address c.address) a)

-- What `support.go` calls: files, JSON, the environment, keys, bindings and the chain's id.
pub record Setup : Type 0 where
  pub read_file : String → Reply String
  pub unmarshal_addresses : String → Reply Addresses
  pub unmarshal_contracts : String → Reply (List RawContract)
  pub hex_to_address : String → ℕ
  pub dial : String → Reply ℕ
  pub getenv : String → String
  pub hex_to_ecdsa : String → Reply ℕ
  pub prv_with_funds : ℕ
  -- The constructors of the bindings, by contract and address.
  pub new_binding : String → ℕ → ℕ → Reply ℕ
  pub chain_id : ℕ → Reply ℕ

abbrev pub and_then : {A B : Type 0} → Reply A → (A → Reply B) → Reply B
and_then (ok a) f = f a
and_then (error e) f = error e

abbrev pub or_else : {A : Type 0} → Reply A → Reply A → Reply A
or_else (ok a) fallback = ok a
or_else (error _) fallback = fallback

-- `ParseAddresses`.
unfoldable pub parse_addresses : Setup → String → Reply Addresses
unfolding assign_addresses
parse_addresses u path = and_then (u.read_file path) λ file.
    and_then (u.unmarshal_contracts file)
      λ raw. ok (assign_addresses u.hex_to_address raw no_addresses)

-- `ReadAddresses`.
unfoldable pub read_addresses : Setup → String → Reply Addresses
read_addresses u path = and_then (u.read_file path) u.unmarshal_addresses

-- `privKeyString[2:]` where it has a prefix `0x` or `0X`.
unfoldable pub strip_prefix : String → String
strip_prefix String.[] = ""
strip_prefix (String.◌∷◌ c String.[]) = String.◌∷◌ c ""
strip_prefix (String.◌∷◌ c (String.◌∷◌ d s)) =
    if eqb (code c) b'0' && (eqb (code d) b'x' || eqb (code d) b'X')
    then s
    else String.◌∷◌ c (String.◌∷◌ d s)

-- `DefaultPrivateKey`, once `.env` is loaded.
unfoldable pub default_private_key : Setup → Reply ℕ
unfolding strip_prefix
default_private_key u =
    if u.getenv "DEPLOYMENT_PRIVATE_KEY" == ""
    then ok u.prv_with_funds
    else u.hex_to_ecdsa (strip_prefix (u.getenv "DEPLOYMENT_PRIVATE_KEY"))

-- `Support`.
pub record Support : Type 0 where
  pub prv : ℕ
  pub addresses : Addresses
  pub chain_client : ℕ
  pub chain_id : ℕ
  pub flare_system_manager : ℕ
  pub fdc2_hub : ℕ
  pub tee_machine_registry : ℕ
  pub tee_wallet_project_manager : ℕ
  pub tee_wallet_manager : ℕ
  pub tee_wallet_key_manager : ℕ
  pub tee_verification : ℕ
  pub tee_extension_registry : ℕ
  pub tee_extension_governance : ℕ
  pub tee_owner_allowlist : ℕ

-- `NewSupport`.
unfoldable pub new_support : Setup → ℕ → ℕ → Addresses → Reply Support
new_support u prv client addresses =
    let at = λ (contract : String). u.new_binding contract addresses.flare_tee_manager client in
    and_then (at "MachineManager") λ tr. and_then (at "WalletManager") λ twm.
      and_then (at "WalletKeyManager") λ twkm. and_then (at "WalletProjectManager") λ twpm.
        and_then (u.new_binding "FlareSystemsManager" addresses.flare_system_manager client) λ sm.
          and_then (u.new_binding "Fdc2Hub" addresses.fdc2_hub client) λ ftdc.
            and_then (at "Verification") λ tv. and_then (at "ExtensionManager") λ ter.
              and_then (at "OwnerAllowlist") λ toal. and_then (at "ExtensionGovernance") λ teg.
                and_then (u.chain_id client) λ id. ok (record {
                  prv = prv;
                  addresses = addresses;
                  chain_client = client;
                  chain_id = id;
                  flare_system_manager = sm;
                  fdc2_hub = ftdc;
                  tee_machine_registry = tr;
                  tee_wallet_project_manager = twpm;
                  tee_wallet_manager = twm;
                  tee_wallet_key_manager = twkm;
                  tee_verification = tv;
                  tee_extension_registry = ter;
                  tee_extension_governance = teg;
                  tee_owner_allowlist = toal;
                })

-- `DefaultSupport`.
unfoldable pub default_support : Setup → String → String → Reply Support
unfolding parse_addresses read_addresses default_private_key new_support
default_support u path url =
    and_then (or_else (read_addresses u path) (parse_addresses u path)) λ addresses.
      and_then (u.dial url)
        λ client. and_then (default_private_key u) λ key. new_support u key client addresses
