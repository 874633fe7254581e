-- ===== src/Extension/Effect.antt =====
-- What a request asks of the extension, read off its bytes alone, and that `actionHandler` does it.
use quietfill.Prelude.{◌≡◌, refl, String, eqb, ◌==◌, if◌then◌else◌, arith}
use quietfill.World.{Reply, ok, fail as error}
use quietfill.Wire.{
  Codec, State, Action, DataFixed, SayGoodbyeRequest, op_type_greeting, op_command_say_hello,
  op_command_say_goodbye,
}
use quietfill.Extension.{
  action_handler, handle_decoded, process_action, process_fixed, process_greeting,
  process_say_hello, process_say_goodbye, say_hello, say_goodbye, greet, part,
}

pub data Effect : Type 0 where
  nothing : Effect
  greeting : String → Effect
  farewell : SayGoodbyeRequest → Effect

abbrev pub hello_effect : Reply String → Effect
hello_effect (error _) = nothing
hello_effect (ok name) = if name == "" then nothing else greeting name

abbrev pub goodbye_effect : Reply SayGoodbyeRequest → Effect
goodbye_effect (error _) = nothing
goodbye_effect (ok req) = if req.name == "" then nothing else farewell req

abbrev pub command_effect : Codec → DataFixed → Effect
command_effect c df =
    if eqb df.op_command (c.to_hash op_command_say_hello)
    then hello_effect (c.decode_hello df.original_message)
    else if eqb df.op_command (c.to_hash op_command_say_goodbye)
    then goodbye_effect (c.decode_goodbye df.original_message)
    else nothing

abbrev pub fixed_effect : Codec → Reply DataFixed → Effect
fixed_effect c (error _) = nothing
fixed_effect c (ok df) =
    if eqb df.op_type (c.to_hash op_type_greeting) then command_effect c df else nothing

abbrev pub action_effect : Codec → Reply Action → Effect
action_effect c (error _) = nothing
action_effect c (ok action) = fixed_effect c (c.parse_fixed action.message)

-- The effect of a request's body.
unfoldable pub effect : Codec → String → Effect
effect c body = action_effect c (c.decode_action body)

unfoldable pub apply : State → Effect → State
apply s nothing = s
apply s (greeting name) = greet s name
apply s (farewell req) = part s req

say_hello-effect :
    (c : Codec) (s : State) (a : Action) (df : DataFixed) (r : Reply String)
    → (say_hello c s a df r).0 ≡ apply s (hello_effect r)
unfolding say_hello apply
say_hello-effect c s a df (error e) = refl
say_hello-effect c s a df (ok name) = ground arith

say_goodbye-effect :
    (c : Codec) (s : State) (a : Action) (df : DataFixed) (r : Reply SayGoodbyeRequest)
    → (say_goodbye c s a df r).0 ≡ apply s (goodbye_effect r)
unfolding say_goodbye apply
say_goodbye-effect c s a df (error e) = refl
say_goodbye-effect c s a df (ok req) = ground arith

process_greeting-effect :
    (c : Codec) (s : State) (a : Action) (df : DataFixed)
    → (process_greeting c s a df).0 ≡ apply s (command_effect c df)
unfolding process_greeting process_say_hello process_say_goodbye apply
process_greeting-effect c s a df =
    let hello = say_hello-effect c s a df (c.decode_hello df.original_message) in
    let goodbye = say_goodbye-effect c s a df (c.decode_goodbye df.original_message) in
    ground (arith, hello, goodbye)

process_fixed-effect :
    (c : Codec) (s : State) (a : Action) (r : Reply DataFixed)
    → (process_fixed c s a r).0 ≡ apply s (fixed_effect c r)
unfolding process_fixed apply
process_fixed-effect c s a (error e) = refl
process_fixed-effect c s a (ok df) = ground (arith, process_greeting-effect c s a df)

handle_decoded-effect :
    (c : Codec) (s : State) (r : Reply Action)
    → (handle_decoded c s r).0 ≡ apply s (action_effect c r)
unfolding handle_decoded process_action apply
handle_decoded-effect c s (error e) = refl
handle_decoded-effect c s (ok a) = process_fixed-effect c s a (c.parse_fixed a.message)

-- Handling a request changes the state by the request's effect and in no other way: a request that
-- is malformed, unsupported or refused leaves it as it was.
pub action_handler-effect :
    (c : Codec) (s : State) (body : String) → (action_handler c s body).0 ≡ apply s (effect c body)
unfolding action_handler effect
action_handler-effect c s body = handle_decoded-effect c s (c.decode_action body)
