-- ===== src/Revert/Sources.antt =====
-- `diagAvailabilityCheckRevert` of tools/pkg/fccutils/diag.go: which custom error of several ABIs a
-- revert is. What it logs is the text that it returns; the lines on the call itself are left out.
use quietfill.Prelude.{
  ℕ, String, Option, none, some, List, [], ◌∷◌, length, sprintf, eqb, ltb, if◌then◌else◌,
}
use quietfill.Hex.{encode_hex}
use quietfill.World.{Reply, ok, fail as error}
use quietfill.Io.{NoError}
use quietfill.Revert.{
  UnpackRevert, RpcError, CallOutcome, returned, failed, same_bytes, first_four,
  extract_revert_data,
}

-- `abi.Error`: its name, the first four bytes of its id, and `Inputs.Unpack` of the bytes behind the
-- selector, printed by `%v`.
pub record AbiError : Type 0 where
  pub name : String
  pub selector : List ℕ
  pub unpack_inputs : List ℕ → Reply String

-- A contract's name, and the errors of its ABI in the order in which the map is enumerated.
pub record AbiSource : Type 0 where
  pub name : String
  pub errors : Reply (List AbiError)

-- `data[4:]`.
abbrev pub after_four : List ℕ → List ℕ
after_four (_ ∷ _ ∷ _ ∷ _ ∷ rest) = rest
after_four _ = []

abbrev pub error_string_selector : List ℕ
error_string_selector = 0x08 ∷ 0xc3 ∷ 0x79 ∷ 0xa0 ∷ []

-- The inner loop.
unfoldable pub first_with : List ℕ → List AbiError → Option AbiError
first_with selector [] = none
first_with selector (e ∷ es) =
    let later = first_with selector es in if same_bytes e.selector selector then some e else later

abbrev pub here_or :
    String → Option AbiError → Option (String × AbiError) → Option (String × AbiError)
here_or source (some e) later = some (source, e)
here_or source none later = later

-- The two loops.
unfoldable pub find_source : List ℕ → List AbiSource → Option (String × AbiError)
unfolding first_with
find_source selector [] = none
find_source selector (source ∷ sources) =
    let later = find_source selector sources in
    elim source.errors [
      | error _ ↦ later
      | ok errors ↦ here_or source.name (first_with selector errors) later
    ]

-- The ABI, the call data, the call's outcome, and the libraries.
pub record Diagnosis : Type 0 where
  pub load_abi : Reply NoError
  pub pack : Reply NoError
  pub call : CallOutcome
  pub from_hex : String → List ℕ
  pub unpack_revert : UnpackRevert
  pub quote : String → String
  pub sources : List AbiSource

abbrev pub hex_of : List ℕ → String
hex_of data_bytes = sprintf ("0x" ∷ encode_hex data_bytes ∷ [])

abbrev pub named_text : List ℕ → Option (String × AbiError) → String
named_text revert none = sprintf (
    "diag: revert with unknown selector "
    ∷ hex_of (first_four revert)
    ∷ "; full data: "
    ∷ hex_of revert
    ∷ [])
named_text revert (some (source, e)) = elim (e.unpack_inputs (after_four revert)) [
  | ok args ↦ sprintf ("diag: revert -> " ∷ source ∷ "." ∷ e.name ∷ "(" ∷ args ∷ ")" ∷ [])
  | error why ↦ sprintf (
      "diag: revert -> "
      ∷ source
      ∷ "."
      ∷ e.name
      ∷ " (arg unpack failed: "
      ∷ why
      ∷ ") data="
      ∷ hex_of revert
      ∷ [])
]

-- The reason of `Error(string)`, where the data is one.
abbrev pub text_reason : UnpackRevert → List ℕ → Option String
text_reason unpack_revert revert =
    if same_bytes (first_four revert) error_string_selector then unpack_revert revert else none

module _ (d : Diagnosis) where
  abbrev pub diagnose_text : List ℕ → Option String → String
  diagnose_text revert (some reason) =
      sprintf ("diag: revert reason (string): " ∷ d.quote reason ∷ [])
  diagnose_text revert none = named_text revert (find_source (first_four revert) d.sources)

  abbrev pub diagnose : RpcError → List ℕ → String
  diagnose e revert =
      if eqb (length revert) 0
      then sprintf ("diag: eth_call error has no revert data: " ∷ e.message ∷ [])
      else if ltb (length revert) 4
      then sprintf ("diag: revert data too short to contain a selector: " ∷ hex_of revert ∷ [])
      else diagnose_text revert (text_reason d.unpack_revert revert)

  abbrev pub diag_called : CallOutcome → String
  diag_called (returned _) =
      "diag: eth_call unexpectedly succeeded — revert may be tx-time/gas-related"
  diag_called (failed e) = diagnose e (extract_revert_data d.from_hex (some e))

  -- `diagAvailabilityCheckRevert`.
  unfoldable pub diag_availability_check_revert : String
  unfolding find_source
  diag_availability_check_revert = elim d.load_abi [
    | error e ↦ sprintf ("diag: load Verification ABI: " ∷ e ∷ [])
    | ok _ ↦ elim d.pack [
      | error e ↦ sprintf ("diag: pack calldata: " ∷ e ∷ [])
      | ok _ ↦ diag_called d.call
    ]
  ]
