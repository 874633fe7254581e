-- ===== src/Extension/Serve.antt =====
-- The mux of `New` and a history of requests, in the order in which they take the mutex.
use quietfill.Prelude.{ℕ, ◌+◌, ◌%◌, ◌^◌, ◌<◌, ◌≡◌, refl, ap, String, List, [], ◌∷◌, arith, ◌∙◌}
use quietfill.Wire.{Codec, State, Response}
use quietfill.Extension.{action_handler, state_handler, greet, part, greeting_text, farewell_text}
use quietfill.Extension.Effect.{
  Effect, nothing, greeting, farewell, effect, apply, action_handler-effect,
}

pub data Request : Type 0 where
  post_action : String → Request  -- `POST /action` with its body
  get_state : Request  -- `GET /state`

unfoldable pub serve_one : Codec → State → Request → State × Response
serve_one c s (post_action body) = action_handler c s body
serve_one c s get_state = (s, state_handler c s)

-- The state after a history.
unfoldable pub serve : Codec → State → List Request → State
unfolding serve_one
serve c s [] = s
serve c s (r ∷ rs) = serve c (serve_one c s r).0 rs

-- How many greetings, and farewells, a history asks for.
abbrev pub greetings_of : Effect → ℕ
greetings_of (greeting _) = 1
greetings_of _ = 0

abbrev farewells_of : Effect → ℕ
farewells_of (farewell _) = 1
farewells_of _ = 0

abbrev pub request_effect : Codec → Request → Effect
request_effect c (post_action body) = effect c body
request_effect c get_state = nothing

unfoldable pub greetings : Codec → List Request → ℕ
greetings c [] = 0
greetings c (r ∷ rs) = greetings_of (request_effect c r) + greetings c rs

unfoldable pub farewells : Codec → List Request → ℕ
farewells c [] = 0
farewells c (r ∷ rs) = farewells_of (request_effect c r) + farewells c rs

-- The text of the last greeting, and farewell, that a history asks for; the given one where there
-- is none.
abbrev greeting_after : String → Effect → String
greeting_after old (greeting name) = greeting_text name
greeting_after old _ = old

abbrev farewell_after : String → Effect → String
farewell_after old (farewell req) = farewell_text req
farewell_after old _ = old

unfoldable pub last_greeting_of : Codec → String → List Request → String
last_greeting_of c old [] = old
last_greeting_of c old (r ∷ rs) = last_greeting_of c (greeting_after old (request_effect c r)) rs

unfoldable pub last_farewell_of : Codec → String → List Request → String
last_farewell_of c old [] = old
last_farewell_of c old (r ∷ rs) = last_farewell_of c (farewell_after old (request_effect c r)) rs

-- The state that a history leaves, described field by field.
unfoldable pub history_state : Codec → State → List Request → State
unfolding greetings farewells last_greeting_of last_farewell_of
history_state c s rs = record {
  greeting_count = (s.greeting_count + greetings c rs) % 2 ^ 64;
  last_greeting = last_greeting_of c s.last_greeting rs;
  farewell_count = (s.farewell_count + farewells c rs) % 2 ^ 64;
  last_farewell = last_farewell_of c s.last_farewell rs;
}

pub serve_one-effect :
    (c : Codec) (s : State) (r : Request) → (serve_one c s r).0 ≡ apply s (request_effect c r)
unfolding serve_one apply
serve_one-effect c s (post_action body) = action_handler-effect c s body
serve_one-effect c s get_state = refl

mod_shift : (a b : ℕ) → ((a + 1) % 2 ^ 64 + b) % 2 ^ 64 ≡ (a + (1 + b)) % 2 ^ 64
mod_shift a b = omega arith

greeting_count-apply :
    (s : State) (e : Effect) (n : ℕ)
    → ((apply s e).greeting_count + n) % 2 ^ 64 ≡ (s.greeting_count + (greetings_of e + n)) % 2 ^ 64
unfolding apply greet part
greeting_count-apply s nothing n = omega arith
greeting_count-apply s (greeting name) n = mod_shift s.greeting_count n
greeting_count-apply s (farewell req) n = omega arith

farewell_count-apply :
    (s : State) (e : Effect) (n : ℕ)
    → ((apply s e).farewell_count + n) % 2 ^ 64 ≡ (s.farewell_count + (farewells_of e + n)) % 2 ^ 64
unfolding apply greet part
farewell_count-apply s nothing n = omega arith
farewell_count-apply s (greeting name) n = omega arith
farewell_count-apply s (farewell req) n = mod_shift s.farewell_count n

last_greeting-apply :
    (s : State) (e : Effect) → (apply s e).last_greeting ≡ greeting_after s.last_greeting e
unfolding apply greet part
last_greeting-apply s nothing = refl
last_greeting-apply s (greeting name) = refl
last_greeting-apply s (farewell req) = refl

last_farewell-apply :
    (s : State) (e : Effect) → (apply s e).last_farewell ≡ farewell_after s.last_farewell e
unfolding apply greet part
last_farewell-apply s nothing = refl
last_farewell-apply s (greeting name) = refl
last_farewell-apply s (farewell req) = refl

history_state-apply :
    (c : Codec) (s : State) (e : Effect) (r : Request) (rs : List Request)
    → request_effect c r ≡ e
    → history_state c (apply s e) rs ≡ history_state c s (r ∷ rs)
unfolding history_state greetings farewells last_greeting_of last_farewell_of
history_state-apply c s e r rs h = rw (
  h,
  greeting_count-apply s e (greetings c rs),
  farewell_count-apply s e (farewells c rs),
  last_greeting-apply s e,
  last_farewell-apply s e,
)

-- Both counts are 64-bit residues.
abbrev pub IsBounded : State → Type 0
IsBounded s = (s.greeting_count < 2 ^ 64) × (s.farewell_count < 2 ^ 64)

apply-IsBounded : (s : State) (e : Effect) → IsBounded s → IsBounded (apply s e)
unfolding apply greet part
apply-IsBounded s nothing h = h
apply-IsBounded s (greeting name) h = ground arith
apply-IsBounded s (farewell req) h = ground arith

residue : (n : ℕ) → n < 2 ^ 64 → (n + 0) % 2 ^ 64 ≡ n
residue n h = omega arith

-- After a history from a state whose counts are 64-bit residues, the counts are those at its start with one for each greeting, and farewell, that
-- it asked for, modulo 2 ^ 64; and the last texts are those of the last greeting and farewell.
pub serve_lem :
    (c : Codec) (s : State) (rs : List Request) → IsBounded s → serve c s rs ≡ history_state c s rs
unfolding serve history_state
serve_lem c s [] (g, f) = rw (residue s.greeting_count g, residue s.farewell_count f)
serve_lem c s (r ∷ rs) h =
    ap (λ t. serve c t rs) (serve_one-effect c s r)
    ∙ serve_lem c (apply s (request_effect c r)) rs (apply-IsBounded s (request_effect c r) h)
    ∙ history_state-apply c s (request_effect c r) r rs refl
