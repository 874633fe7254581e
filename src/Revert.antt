-- ===== src/Revert.antt =====
-- How the tools find the reason of a revert: tools/pkg/fccutils/revert.go, `ExtractRevertData` of
-- diag.go, and the like functions of tools/pkg/support/support.go. Bytes are numbers below 256.
pub mod Match
pub mod Sources
use quietfill.Prelude.{
  ℕ, ◌≡◌, String, Bool, true, false, ◌&&◌, ◌||◌, Option, none, some, List, [], ◌∷◌, length, sprintf,
  eqb, ltb, ◌==◌, if◌then◌else◌,
}
use quietfill.Hex.{decode_hex, encode_hex, trim_0x}

-- What `ErrorData()` of an error returns: a text, bytes, nil or another type; `absent` where no
-- error in the chain has the method.
pub data Payload : Type 0 where
  absent : Payload
  text : String → Payload
  bytes : List ℕ → Payload
  other : Payload

-- An error of the JSON-RPC client: `Error()` and its data.
pub record RpcError : Type 0 where
  pub message : String
  pub payload : Payload

-- What `CallContract` returns.
pub data CallOutcome : Type 0 where
  returned : List ℕ → CallOutcome
  failed : RpcError → CallOutcome

-- `abi.UnpackRevert`: the reason, where the bytes are an ABI-encoded one.
abbrev pub UnpackRevert : Type 0
UnpackRevert = List ℕ → Option String

module _ (unpack_revert : UnpackRevert) where
  abbrev pub reason_or_hex : String → List ℕ → Option String → String
  reason_or_hex hex_str decoded (some reason) = reason
  reason_or_hex hex_str decoded none = sprintf ("0x" ∷ hex_str ∷ [])

  abbrev pub decoded_reason : String → Option (List ℕ) → String
  decoded_reason hex_str none = ""
  decoded_reason hex_str (some decoded) =
      if ltb (length decoded) 4 then "" else reason_or_hex hex_str decoded (unpack_revert decoded)

  -- `decodeRevertHex`.
  unfoldable pub decode_revert_hex : String → String
  decode_revert_hex hex_str = decoded_reason (trim_0x hex_str) (decode_hex (trim_0x hex_str))

  abbrev pub payload_reason : Payload → String
  payload_reason (text hex_str) = decode_revert_hex hex_str
  payload_reason _ = ""

  -- `DecodeRevertReason`; `none` for a nil error.
  unfoldable pub decode_revert_reason : Option RpcError → String
  unfolding decode_revert_hex
  decode_revert_reason none = ""
  decode_revert_reason (some e) = payload_reason e.payload

  -- `SimulateAndDecodeRevert`, of what the call returns.
  unfoldable pub simulate_and_decode_revert : CallOutcome → String
  unfolding decode_revert_reason decode_revert_hex
  simulate_and_decode_revert (failed e) =
      let reason = decode_revert_reason (some e) in if reason == "" then e.message else reason
  simulate_and_decode_revert (returned result) =
      if ltb (length result) 4 then "" else decode_revert_hex (encode_hex result)

-- `abi.Error`: its name, the first four bytes of its id, and `Unpack` of revert data, printed by
-- `%v`; `none` for an error.
pub record CustomError : Type 0 where
  pub name : String
  pub selector : List ℕ
  pub unpack : List ℕ → Option String

-- `bytes.Equal`.
abbrev pub same_bytes : List ℕ → List ℕ → Bool
same_bytes [] [] = true
same_bytes (a ∷ more) (b ∷ rest) = eqb a b && same_bytes more rest
same_bytes _ _ = false

-- `data[:4]`.
abbrev pub first_four : List ℕ → List ℕ
first_four (a ∷ b ∷ c ∷ d ∷ _) = a ∷ b ∷ c ∷ d ∷ []
first_four short = short

abbrev pub with_arguments : String → Option String → String
with_arguments name none = name
with_arguments name (some args) =
    if (args == "[]") || (args == "<nil>") then name else sprintf (name ∷ args ∷ [])

-- The loop over the errors of the ABI, in the order in which the map is enumerated.
unfoldable pub find_error : List CustomError → List ℕ → String
find_error [] revert = ""
find_error (e ∷ es) revert =
    if same_bytes e.selector (first_four revert)
    then with_arguments e.name (e.unpack revert)
    else find_error es revert

abbrev pub matched : List CustomError → Option (List ℕ) → String
matched errors none = ""
matched errors (some revert) = if ltb (length revert) 4 then "" else find_error errors revert

-- `MatchCustomError`.
unfoldable pub match_custom_error : List CustomError → String → String
unfolding find_error
match_custom_error errors revert_hex = matched errors (decode_hex (trim_0x revert_hex))

abbrev pub payload_bytes : (String → List ℕ) → Payload → List ℕ
payload_bytes from_hex (text t) = from_hex t
payload_bytes from_hex (bytes b) = b
payload_bytes from_hex _ = []

-- `ExtractRevertData`, with `common.FromHex`; `none` for a nil error.
unfoldable pub extract_revert_data : (String → List ℕ) → Option RpcError → List ℕ
extract_revert_data from_hex none = []
extract_revert_data from_hex (some e) = payload_bytes from_hex e.payload
