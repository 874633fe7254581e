-- ===== src/AuditDeploy.antt =====
-- tools/cmd/audit-deploy/main.go: what it prints, line by line. The formats' blanks are kept; the
-- lines are without their newlines.
pub mod Packed
pub mod Named
pub mod Main
use quietfill.Prelude.{
  ℕ, zero, suc, ◌-◌, String, Bool, not, ◌&&◌, Option, none, some, List, [], ◌∷◌, ◌++◌, map, length,
  sprintf, eqb, ltb, ◌==◌, if◌then◌else◌,
}
use Prim.Native.String.{len}
use quietfill.Decimal.{decimal}
use quietfill.World.{Reply, ok, fail as error}
use quietfill.Io.{NoError}
use quietfill.Revert.{
  UnpackRevert, RpcError, CallOutcome, returned, failed, first_four, extract_revert_data,
}
use quietfill.Revert.Sources.{AbiError, AbiSource, after_four, hex_of, text_reason, find_source}
use quietfill.Support.{Addresses}
use quietfill.TeeVersion.{string_to_bytes32}

-- The loop of `bytes32ToString`: `b[:end]`, without the zero bytes at the end.
unfoldable pub trim_zeros : List ℕ → List ℕ
trim_zeros [] = []
trim_zeros (b ∷ bs) =
    let rest = trim_zeros bs in if eqb b 0 && eqb (length rest) 0 then [] else b ∷ rest

-- `bytes32ToString`, with `strings.TrimSpace`.
unfoldable pub bytes32_to_string : (List ℕ → List ℕ) → List ℕ → List ℕ
unfolding trim_zeros
bytes32_to_string trim_space b = trim_space (trim_zeros b)

-- The arms of the `switch` on an address.
pub data AddressStatus : Type 0 where
  call_failed : String → AddressStatus
  zero_address : AddressStatus
  no_code : AddressStatus
  has_code : ℕ → AddressStatus

-- The `switch`, with the answer of `CodeAt`, the length of the code.
unfoldable pub address_status : ℕ → Reply ℕ → AddressStatus
address_status addr (error e) = call_failed e
address_status addr (ok size) =
    if eqb addr 0 then zero_address else if eqb size 0 then no_code else has_code size

abbrev pub status_text : AddressStatus → String
status_text (call_failed e) = sprintf ("ERROR " ∷ e ∷ [])
status_text zero_address = "ZERO ADDRESS"
status_text no_code = "NO CODE"
status_text (has_code size) = sprintf ("ok (" ∷ decimal size ∷ " bytes)" ∷ [])

-- The replay of `addTeeVersion`: the ABI, the packing, the call, and the libraries.
pub record Replay : Type 0 where
  pub load_abi : Reply NoError
  pub quote_bytes : List ℕ → String
  pub pack : List ℕ → Reply NoError
  pub call : CallOutcome
  pub from_hex : String → List ℕ
  pub unpack_revert : UnpackRevert
  pub quote : String → String
  pub sources : List AbiSource

abbrev pub replay_named : List ℕ → Option (String × AbiError) → String
replay_named revert none = sprintf (
    "  revert with unknown selector "
    ∷ hex_of (first_four revert)
    ∷ " (full: "
    ∷ hex_of revert
    ∷ ")"
    ∷ [])
replay_named revert (some (source, e)) = elim (e.unpack_inputs (after_four revert)) [
  | ok args ↦ sprintf ("  revert -> " ∷ source ∷ "." ∷ e.name ∷ args ∷ [])
  | error why ↦ sprintf (
      "  revert -> "
      ∷ source
      ∷ "."
      ∷ e.name
      ∷ " (unpack failed: "
      ∷ why
      ∷ ") data="
      ∷ hex_of revert
      ∷ [])
]

module _ (r : Replay) where
  abbrev pub replay_text : List ℕ → Option String → String
  replay_text revert (some reason) = sprintf ("  revert reason (string): " ∷ r.quote reason ∷ [])
  replay_text revert none = replay_named revert (find_source (first_four revert) r.sources)

  abbrev pub replay_called : CallOutcome → String
  replay_called (returned _) = "  eth_call succeeded — tx-time-only revert (gas/state race?)"
  replay_called (failed e) =
      let revert = extract_revert_data r.from_hex (some e) in
      if ltb (length revert) 4
      then sprintf ("  no/short revert data: " ∷ e.message ∷ [])
      else replay_text revert (text_reason r.unpack_revert revert)

  abbrev pub replay_packed : Reply (List ℕ) → String
  replay_packed (error e) = sprintf ("  version: " ∷ e ∷ [])
  replay_packed (ok version_bytes) = elim (r.pack version_bytes) [
    | error e ↦ sprintf ("  pack: " ∷ e ∷ [])
    | ok _ ↦ replay_called r.call
  ]

  -- `replayAddTeeVersion`.
  unfoldable pub replay_add_tee_version : List ℕ → String
  unfolding string_to_bytes32
  replay_add_tee_version version = elim r.load_abi [
    | error e ↦ sprintf ("  load ABI: " ∷ e ∷ [])
    | ok _ ↦ replay_packed (string_to_bytes32 r.quote_bytes version)
  ]
