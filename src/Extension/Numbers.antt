-- ===== src/Extension/Numbers.antt =====
-- The number that a greeting and a farewell carry, and what `GET /state` reports.
use quietfill.Prelude.{
  [], ◌++◌, ◌∷◌, ◌<◌, ◌≢◌, ℕ, ◌+◌, ◌%◌, ◌^◌, ◌≡◌, String, List, arith, subst, ap, ◌∙◌,
}
use quietfill.Wire.{Codec, State, SayGoodbyeRequest}
use quietfill.Extension.{action_handler, new, greet, part, greeting_text, farewell_text}
use quietfill.Extension.Effect.{greeting, farewell, effect}
use quietfill.Extension.Answer.{Answers, Success, action_handler-Answers}
use quietfill.Extension.Serve.{
  Request, post_action, serve, serve_one, greetings, greetings_of, farewells, history_state,
  serve_lem,
}

new-serve : (c : Codec) (rs : List Request) → serve c new rs ≡ history_state c new rs
unfolding new
new-serve c rs = serve_lem c new rs (omega arith, omega arith)

next_number : (n : ℕ) → ((0 + n) % 2 ^ 64 + 1) % 2 ^ 64 ≡ (n + 1) % 2 ^ 64
next_number n = omega arith

next_greeting :
    (c : Codec) (before : List Request) (name : String)
    → (greet (serve c new before) name).greeting_count ≡ (greetings c before + 1) % 2 ^ 64
unfolding greet history_state new
next_greeting c before name =
    ap (λ (s : State). (s.greeting_count + 1) % 2 ^ 64) (new-serve c before)
    ∙ next_number (greetings c before)

next_farewell :
    (c : Codec) (before : List Request) (req : SayGoodbyeRequest)
    → (part (serve c new before) req).farewell_count ≡ (farewells c before + 1) % 2 ^ 64
unfolding part history_state new
next_farewell c before req =
    ap (λ (s : State). (s.farewell_count + 1) % 2 ^ 64) (new-serve c before)
    ∙ next_number (farewells c before)

-- A request for a greeting, after any history of a new extension, is answered by a success that
-- carries the greeting and its number: one more than the greetings that the history asked for,
-- modulo 2 ^ 64, whatever else it asked for.
pub greeting_number_lem :
    (c : Codec) (before : List Request) (body name : String)
    → effect c body ≡ greeting name
    → Success c
        (c.marshal_hello (record {
          greeting = greeting_text name;
          greeting_number = (greetings c before + 1) % 2 ^ 64;
        }))
        (serve_one c (serve c new before) (post_action body)).1
unfolding serve_one Answers
greeting_number_lem c before body name h =
    let r = (action_handler c (serve c new before) body).1 in
    subst
      (λ n.
        Success c (c.marshal_hello (record { greeting = greeting_text name; greeting_number = n }))
          r)
      (next_greeting c before name)
      (subst (λ e. Answers c (serve c new before) e r) h
        (action_handler-Answers c (serve c new before) body))

-- A request for a farewell, after any history of a new extension, is answered by a success that
-- carries the farewell and its number: one more than the farewells that the history asked for,
-- modulo 2 ^ 64, whatever else it asked for.
pub farewell_number_lem :
    (c : Codec) (before : List Request) (body : String) (req : SayGoodbyeRequest)
    → effect c body ≡ farewell req
    → Success c
        (c.marshal_goodbye (record {
          farewell = farewell_text req;
          farewell_number = (farewells c before + 1) % 2 ^ 64;
        }))
        (serve_one c (serve c new before) (post_action body)).1
unfolding serve_one Answers
farewell_number_lem c before body req h =
    let r = (action_handler c (serve c new before) body).1 in
    subst
      (λ n.
        Success c (c.marshal_goodbye (record { farewell = farewell_text req; farewell_number = n }))
          r)
      (next_farewell c before req)
      (subst (λ e. Answers c (serve c new before) e r) h
        (action_handler-Answers c (serve c new before) body))

pub greetings-append :
    (c : Codec) (xs ys : List Request) → greetings c (xs ++ ys) ≡ greetings c xs + greetings c ys
unfolding greetings
greetings-append c [] ys = omega arith
greetings-append c (x ∷ xs) ys = omega (arith, greetings-append c xs ys)

pub greetings-greeting :
    (c : Codec) (body name : String) (rest : List Request)
    → effect c body ≡ greeting name
    → greetings c (post_action body ∷ rest) ≡ 1 + greetings c rest
unfolding greetings
greetings-greeting c body name rest h = ap (λ e. greetings_of e + greetings c rest) h

-- No two greetings of a history have the same number, as long as fewer than 2 ^ 64 were asked for
-- before the later one: `first` asks for a greeting, and the later one follows anything.
greet-distinct :
    (c : Codec) (before mid : List Request) (first name name' : String)
    → effect c first ≡ greeting name
    → greetings c (before ++ post_action first ∷ mid) < 2 ^ 64
    → (greet (serve c new before) name).greeting_count
      ≢ (greet (serve c new (before ++ post_action first ∷ mid)) name').greeting_count
greet-distinct c before mid first name name' asks few same =
    let total = greetings-append c before (post_action first ∷ mid) in
    let one = greetings-greeting c first name mid asks in
    let number = next_greeting c before name in
    let later = next_greeting c (before ++ post_action first ∷ mid) name' in
    omega (arith, total, one, number, later, few, same)
