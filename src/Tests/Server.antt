-- ===== src/Tests/Server.antt =====
-- The theorems about the extension's server at a small codec.
use quietfill.Prelude.{
  String, ◌≡◌, ◌≢◌, refl, some, [], ◌∷◌, List, ◌==◌, if◌then◌else◌, ℕ, sprintf, arith,
}
use quietfill.World.{Reply, ok, fail as error}
use quietfill.Wire.{Codec, DataFixed, SayGoodbyeRequest}
use quietfill.Extension.{new, action_handler, greeting_text}
use quietfill.Extension.Effect.{nothing, greeting, farewell, effect, apply, action_handler-effect}
use quietfill.Extension.Answer.{Answers, Success, action_handler-Answers}
use quietfill.Extension.Serve.{
  Request, get_state, post_action, serve, serve_one, history_state, serve_lem,
}
use quietfill.Extension.Numbers.{greeting_number_lem}

abbrev hash : String → ℕ
hash text = if text == "GREETING" then 1 else if text == "SAY_HELLO" then 2 else 3

abbrev fixed : String → Reply DataFixed
fixed text =
    if text == "hello"
    then ok (record { op_type = 1; op_command = 2; original_message = "Ada" })
    else if text == "bye"
    then ok (record { op_type = 1; op_command = 3; original_message = "Ada" })
    else if text == "nobody"
    then ok (record { op_type = 1; op_command = 2; original_message = "" })
    else error "no such data"

abbrev pub codec : Codec
codec = record {
  to_hash = hash;
  hash_hex = λ _. "0x";
  decode_action = λ body. ok (record { id = 7; submission_tag = "submit"; message = body });
  parse_fixed = fixed;
  decode_hello = λ text. ok text;
  decode_goodbye = λ text. ok (record { name = text; reason = "late" });
  marshal_hello = λ r. r.greeting;
  marshal_goodbye = λ r. r.farewell;
  marshal_result = λ ar. ar.log;
  unmarshal_result = λ text. ok (record {
    id = 7;
    submission_tag = "submit";
    version = "0.1.0";
    op_type = 1;
    op_command = 2;
    result_data = some "";
    status = 1;
    log = text;
  });
  encode_state = λ r. ok r.state.last_greeting;
}

abbrev history : List Request
history =
    post_action "hello"
    ∷ get_state
    ∷ post_action "bye"
    ∷ post_action "nobody"
    ∷ post_action "hello"
    ∷ post_action "none"
    ∷ []

abbrev leave : SayGoodbyeRequest
leave = record { name = "Ada"; reason = "late" }

pub hello_effect_run : effect codec "hello" ≡ greeting "Ada"
unfolding effect
hello_effect_run = refl

bye_effect_run : effect codec "bye" ≡ farewell leave
unfolding effect
bye_effect_run = refl

served : serve codec new history ≡ record {
  greeting_count = 2;
  last_greeting = "Hello, Ada! Welcome to Flare Confidential Compute.";
  farewell_count = 1;
  last_farewell = "Goodbye, Ada! Reason: late";
}
unfolding serve new serve_one action_handler sprintf
served = refl

action_handler-effect_example :
    (action_handler codec new "hello").0 ≡ apply new (effect codec "hello")
action_handler-effect_example = action_handler-effect codec new "hello"

action_handler-Answers_example :
    Answers codec new (effect codec "hello") (action_handler codec new "hello").1
action_handler-Answers_example = action_handler-Answers codec new "hello"

hello_asks : effect codec "hello" ≢ nothing
unfolding effect
hello_asks = λ e. ground (arith, e)

serve_lem_example : serve codec new history ≡ history_state codec new history
unfolding new
serve_lem_example = serve_lem codec new history (omega arith, omega arith)

greeting_number_lem_example :
    Success codec
      (codec.marshal_hello (record { greeting = greeting_text "Ada"; greeting_number = 3 }))
      (serve_one codec (serve codec new history) (post_action "hello")).1
greeting_number_lem_example = greeting_number_lem codec history "hello" "Ada" hello_effect_run
