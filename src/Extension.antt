-- ===== src/Extension.antt =====
-- The extension's server: extension.go and utils.go of internal/extension. A handler takes the state
-- and returns it with its response, as if no other ran; Extension/Threads has handlers that run at
-- the same time. A Go `int` is its residue mod 2 ^ 64.
pub mod Effect
pub mod Answer
pub mod Serve
pub mod Numbers
pub mod Threads
use quietfill.Prelude.{
  ℕ, ◌+◌, ◌%◌, ◌^◌, String, Option, none, some, [], ◌∷◌, List, sprintf, eqb, ◌==◌, if◌then◌else◌,
}
use quietfill.Wire.{
  DataFixed, Action, ActionResult, SayHelloResponse, SayGoodbyeResponse, SayGoodbyeRequest, State,
  StateResponse, Response, Codec, version, op_type_greeting, op_command_say_hello,
  op_command_say_goodbye,
}
use quietfill.World.{Reply, ok, fail as error}

-- The state of `New`.
unfoldable pub new : State
new = record { greeting_count = 0; last_greeting = ""; farewell_count = 0; last_farewell = "" }

-- The verb `%v` of an error, which may be nil.
abbrev error_text : Option String → String
error_text none = "<nil>"
error_text (some e) = e

-- The `switch` on the status in `buildResult`.
unfoldable pub log_text : ℕ → Option String → String
log_text status err =
    if eqb status 0
    then sprintf ("error: " ∷ error_text err ∷ [])
    else if eqb status 1
    then "ok"
    else "pending"

-- `buildResult`.
unfoldable pub build_result : Action → DataFixed → Option String → ℕ → Option String → ActionResult
unfolding log_text
build_result a df bytes status err = record {
  id = a.id;
  submission_tag = a.submission_tag;
  version = version;
  op_type = df.op_type;
  op_command = df.op_command;
  result_data = bytes;
  status = status;
  log = log_text status err;
}

unfoldable pub greeting_text : String → String
greeting_text name = sprintf ("Hello, " ∷ name ∷ "! Welcome to Flare Confidential Compute." ∷ [])

unfoldable pub farewell_text : SayGoodbyeRequest → String
farewell_text req = sprintf ("Goodbye, " ∷ req.name ∷ "! Reason: " ∷ req.reason ∷ [])

-- The locked part of `processSayHello`.
unfoldable pub greet : State → String → State
unfolding greeting_text
greet s name = record {
  greeting_count = (s.greeting_count + 1) % 2 ^ 64;
  last_greeting = greeting_text name;
  farewell_count = s.farewell_count;
  last_farewell = s.last_farewell;
}

-- The locked part of `processSayGoodbye`.
unfoldable pub part : State → SayGoodbyeRequest → State
unfolding farewell_text
part s req = record {
  greeting_count = s.greeting_count;
  last_greeting = s.last_greeting;
  farewell_count = (s.farewell_count + 1) % 2 ^ 64;
  last_farewell = farewell_text req;
}

-- `processSayHello`, once the request is decoded.
unfoldable pub say_hello : Codec → State → Action → DataFixed → Reply String → State × ActionResult
unfolding build_result greet greeting_text
say_hello c s action df (error e) =
    (s, build_result action df none 0 (some (sprintf ("decoding request: " ∷ e ∷ []))))
say_hello c s action df (ok name) =
    if name == "" then (s, build_result action df none 0 (some "name must not be empty")) else (
      greet s name,
      build_result action df
          (some (
            c.marshal_hello (record {
              greeting = greeting_text name;
              greeting_number = (greet s name).greeting_count;
            })))
          1 none,
    )

unfoldable pub process_say_hello : Codec → State → Action → DataFixed → State × ActionResult
unfolding say_hello
process_say_hello c s action df = say_hello c s action df (c.decode_hello df.original_message)

-- `processSayGoodbye`, once the request is decoded.
unfoldable pub say_goodbye :
    Codec → State → Action → DataFixed → Reply SayGoodbyeRequest → State × ActionResult
unfolding build_result part farewell_text
say_goodbye c s action df (error e) =
    (s, build_result action df none 0 (some (sprintf ("decoding request: " ∷ e ∷ []))))
say_goodbye c s action df (ok req) =
    if req.name == "" then (s, build_result action df none 0 (some "name must not be empty")) else (
      part s req,
      build_result action df
          (some (
            c.marshal_goodbye (record {
              farewell = farewell_text req;
              farewell_number = (part s req).farewell_count;
            })))
          1 none,
    )

unfoldable pub process_say_goodbye : Codec → State → Action → DataFixed → State × ActionResult
unfolding say_goodbye
process_say_goodbye c s action df = say_goodbye c s action df (c.decode_goodbye df.original_message)

-- `json.Marshal` of the result, under `http.StatusOK`.
abbrev answer : Codec → State × ActionResult → State × Response
answer c (s, ar) = (s, record { status = 200; body = c.marshal_result ar })

-- The message for a command that is not known.
unfoldable pub unsupported_command : Codec → DataFixed → String
unsupported_command c df = sprintf (
    "unsupported op command: received "
    ∷ c.hash_hex df.op_command
    ∷ ", expected one of ["
    ∷ c.hash_hex (c.to_hash op_command_say_hello)
    ∷ " ("
    ∷ op_command_say_hello
    ∷ "), "
    ∷ c.hash_hex (c.to_hash op_command_say_goodbye)
    ∷ " ("
    ∷ op_command_say_goodbye
    ∷ ")]"
    ∷ [])

unfoldable pub unsupported_type : Codec → DataFixed → String
unsupported_type c df = sprintf (
    "unsupported op type: received "
    ∷ c.hash_hex df.op_type
    ∷ ", expected "
    ∷ c.hash_hex (c.to_hash op_type_greeting)
    ∷ " ("
    ∷ op_type_greeting
    ∷ ")"
    ∷ [])

-- `processGreeting`.
unfoldable pub process_greeting : Codec → State → Action → DataFixed → State × Response
unfolding process_say_hello process_say_goodbye unsupported_command
process_greeting c s action df =
    if eqb df.op_command (c.to_hash op_command_say_hello)
    then answer c (process_say_hello c s action df)
    else if eqb df.op_command (c.to_hash op_command_say_goodbye)
    then answer c (process_say_goodbye c s action df)
    else (s, record { status = 501; body = unsupported_command c df })

-- `processAction`, once the fixed data is parsed.
unfoldable pub process_fixed : Codec → State → Action → Reply DataFixed → State × Response
unfolding process_greeting unsupported_type
process_fixed c s action (error e) =
    (s, record { status = 400; body = sprintf ("decoding fixed data: " ∷ e ∷ []) })
process_fixed c s action (ok df) =
    if eqb df.op_type (c.to_hash op_type_greeting)
    then process_greeting c s action df
    else (s, record { status = 501; body = unsupported_type c df })

unfoldable pub process_action : Codec → State → Action → State × Response
unfolding process_fixed
process_action c s action = process_fixed c s action (c.parse_fixed action.message)

-- `http.Error`, which ends the text with a line break.
unfoldable pub http_error : String → ℕ → Response
http_error text status = record { status = status; body = sprintf (text ∷ "\n" ∷ []) }

-- `actionHandler`, once the body is decoded.
unfoldable pub handle_decoded : Codec → State → Reply Action → State × Response
unfolding http_error process_action
handle_decoded c s (error e) = (s, http_error (sprintf ("decoding action: " ∷ e ∷ [])) 400)
handle_decoded c s (ok action) = process_action c s action

unfoldable pub action_handler : Codec → State → String → State × Response
unfolding handle_decoded
action_handler c s body = handle_decoded c s (c.decode_action body)

abbrev pub logged : String → Reply ActionResult → String
logged body (error _) = body
logged body (ok ar) = ar.log

-- `getLogFromBody`.
unfoldable pub get_log_from_body : Codec → String → String
get_log_from_body c body = logged body (c.unmarshal_result body)

abbrev pub state_reply : Reply String → Response
state_reply (error e) = http_error (sprintf ("sending response: " ∷ e ∷ [])) 500
state_reply (ok body) = record { status = 200; body = body }

-- `stateHandler`: it reads the state and leaves it.
unfoldable pub state_handler : Codec → State → Response
unfolding http_error
state_handler c s =
    state_reply (c.encode_state (record { state_version = c.to_hash version; state = s }))
