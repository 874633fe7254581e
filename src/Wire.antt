-- ===== src/Wire.antt =====
-- What the extension's server reads and writes: the types of pkg/types/types.go and of the tee-node
-- library, the state of internal/extension/extension.go, the constants of
-- internal/config/config.go, and the codecs. Bytes are a text, and a hash is a number.
use quietfill.Prelude.{ℕ, String, Option}
use quietfill.World.{Reply}

-- `instruction.DataFixed`: the fields that are read. A hash is a number.
pub record DataFixed : Type 0 where
  pub op_type : ℕ
  pub op_command : ℕ
  pub original_message : String

-- `teetypes.Action`: the fields of its `Data` that are read.
pub record Action : Type 0 where
  pub id : ℕ
  pub submission_tag : String
  pub message : String

-- `teetypes.ActionResult`; `none` for nil data.
pub record ActionResult : Type 0 where
  pub id : ℕ
  pub submission_tag : String
  pub version : String
  pub op_type : ℕ
  pub op_command : ℕ
  pub result_data : Option String  -- the field `Data`
  pub status : ℕ
  pub log : String

pub record SayHelloResponse : Type 0 where
  pub greeting : String
  pub greeting_number : ℕ

pub record SayGoodbyeResponse : Type 0 where
  pub farewell : String
  pub farewell_number : ℕ

-- `SayGoodbyeRequest`. `SayHelloRequest` has one field, and is a name.
pub record SayGoodbyeRequest : Type 0 where
  pub name : String
  pub reason : String

-- `Extension` without its mutex and its server; also `types.State`, field by field.
pub record State : Type 0 where
  pub greeting_count : ℕ
  pub last_greeting : String
  pub farewell_count : ℕ
  pub last_farewell : String

-- `types.StateResponse`.
pub record StateResponse : Type 0 where
  pub state_version : ℕ
  pub state : State

-- `http.ResponseWriter`, once the handler has returned.
pub record Response : Type 0 where
  pub status : ℕ
  pub body : String

-- The libraries that the server calls.
pub record Codec : Type 0 where
  pub to_hash : String → ℕ  -- `teeutils.ToHash`
  pub hash_hex : ℕ → String  -- `Hash.Hex`
  pub decode_action : String → Reply Action  -- `json.Decoder.Decode` of the request's body
  pub parse_fixed : String → Reply DataFixed  -- `processorutils.Parse`
  pub decode_hello : String → Reply String  -- the JSON decoder that refuses unknown fields
  pub decode_goodbye : String → Reply SayGoodbyeRequest  -- `structs.DecodeTo`, by the ABI
  pub marshal_hello : SayHelloResponse → String  -- `json.Marshal`
  pub marshal_goodbye : SayGoodbyeResponse → String
  pub marshal_result : ActionResult → String
  pub unmarshal_result : String → Reply ActionResult  -- `json.Unmarshal`
  pub encode_state : StateResponse → Reply String  -- `json.Encoder.Encode`

abbrev pub version : String
version = "0.1.0"

abbrev pub op_type_greeting : String
op_type_greeting = "GREETING"

abbrev pub op_command_say_hello : String
op_command_say_hello = "SAY_HELLO"

abbrev pub op_command_say_goodbye : String
op_command_say_goodbye = "SAY_GOODBYE"
