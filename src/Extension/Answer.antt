-- ===== src/Extension/Answer.antt =====
-- What `actionHandler` answers to a request, by the effect that the request asks for.
use quietfill.Prelude.{
  ◌≡◌, refl, String, none, some, true, false, ◌⊎◌, inl, inr, if◌then◌else◌, Bool, eqb, ◌==◌, ◌≢◌,
  ap, ◌∙◌, ◌≢◌,
}
use quietfill.World.{Reply, ok, fail as error}
use quietfill.Wire.{
  Codec, State, Action, DataFixed, Response, ActionResult, SayGoodbyeRequest, op_type_greeting,
  op_command_say_hello, op_command_say_goodbye,
}
use quietfill.Extension.{
  action_handler, handle_decoded, process_action, process_fixed, process_greeting,
  process_say_hello, process_say_goodbye, say_hello, say_goodbye, greet, part, http_error,
  get_log_from_body, logged, build_result, log_text, greeting_text, farewell_text,
}
use quietfill.Extension.Effect.{
  Effect, nothing, greeting, farewell, effect, hello_effect, goodbye_effect, command_effect,
  fixed_effect, action_effect,
}

-- A response that carries an action result.
abbrev Carries : Codec → ActionResult → Response → Type 0
Carries c ar r = r ≡ record { status = 200; body = c.marshal_result ar }

-- The action result of a success with the given data.
abbrev pub Success : Codec → String → Response → Type 0
Success c bytes r =
    (ar : ActionResult) × Carries c ar r
    × (ar.status ≡ 1)
    × (ar.log ≡ "ok")
    × (ar.result_data ≡ some bytes)

-- No success: a client error, an operation that is not supported, or a result of status 0 without
-- data.
abbrev pub Refusal : Codec → Response → Type 0
Refusal c r =
    (r.status ≡ 400)
    ⊎ (r.status ≡ 501)
    ⊎ ((ar : ActionResult) × Carries c ar r × (ar.status ≡ 0) × (ar.result_data ≡ none))

-- The answer to a request of that effect, at the state before it.
unfoldable pub Answers : Codec → State → Effect → Response → Type 0
Answers c s nothing r = Refusal c r
Answers c s (greeting name) r =
    Success c
      (c.marshal_hello
        (record { greeting = greeting_text name; greeting_number = (greet s name).greeting_count }))
      r
Answers c s (farewell req) r =
    Success c
      (c.marshal_goodbye
        (record { farewell = farewell_text req; farewell_number = (part s req).farewell_count }))
      r

-- A relation holds of two conditionals on one test where it holds of their branches.
If-related :
    {A B : Type 0} (R : A → B → Type 0) (b : Bool) {x y : A} {u v : B}
    → R x u
    → R y v
    → R (if b then x else y) (if b then u else v)
If-related R true h k = h
If-related R false h k = k

abbrev body_of : Codec → ActionResult → Response
body_of c ar = record { status = 200; body = c.marshal_result ar }

say_hello-Answers :
    (c : Codec) (s : State) (a : Action) (df : DataFixed) (r : Reply String)
    → Answers c s (hello_effect r) (body_of c (say_hello c s a df r).1)
unfolding say_hello Answers build_result log_text
say_hello-Answers c s a df (error e) = inr (inr (_, refl, refl, refl))
say_hello-Answers c s a df (ok name) =
    If-related (λ eff (out : State × ActionResult). Answers c s eff (body_of c out.1)) (name == "")
      (inr (inr (_, refl, refl, refl))) (_, refl, refl, refl, refl)

say_goodbye-Answers :
    (c : Codec) (s : State) (a : Action) (df : DataFixed) (r : Reply SayGoodbyeRequest)
    → Answers c s (goodbye_effect r) (body_of c (say_goodbye c s a df r).1)
unfolding say_goodbye Answers build_result log_text
say_goodbye-Answers c s a df (error e) = inr (inr (_, refl, refl, refl))
say_goodbye-Answers c s a df (ok req) =
    If-related (λ eff (out : State × ActionResult). Answers c s eff (body_of c out.1))
      (req.name == "") (inr (inr (_, refl, refl, refl))) (_, refl, refl, refl, refl)

process_greeting-Answers :
    (c : Codec) (s : State) (a : Action) (df : DataFixed)
    → Answers c s (command_effect c df) (process_greeting c s a df).1
unfolding process_greeting process_say_hello process_say_goodbye Answers
process_greeting-Answers c s a df =
    If-related (λ eff (out : State × Response). Answers c s eff out.1)
      (eqb df.op_command (c.to_hash op_command_say_hello))
      (say_hello-Answers c s a df (c.decode_hello df.original_message))
      (If-related (λ eff (out : State × Response). Answers c s eff out.1)
        (eqb df.op_command (c.to_hash op_command_say_goodbye))
        (say_goodbye-Answers c s a df (c.decode_goodbye df.original_message)) (inr (inl refl)))

process_fixed-Answers :
    (c : Codec) (s : State) (a : Action) (r : Reply DataFixed)
    → Answers c s (fixed_effect c r) (process_fixed c s a r).1
unfolding process_fixed Answers
process_fixed-Answers c s a (error e) = inl refl
process_fixed-Answers c s a (ok df) =
    If-related (λ eff (out : State × Response). Answers c s eff out.1)
      (eqb df.op_type (c.to_hash op_type_greeting)) (process_greeting-Answers c s a df)
      (inr (inl refl))

handle_decoded-Answers :
    (c : Codec) (s : State) (r : Reply Action)
    → Answers c s (action_effect c r) (handle_decoded c s r).1
unfolding handle_decoded process_action Answers http_error
handle_decoded-Answers c s (error e) = inl refl
handle_decoded-Answers c s (ok a) = process_fixed-Answers c s a (c.parse_fixed a.message)

-- Every request is answered: one that asks for a greeting or a farewell by 200 and an action result
-- of status 1 and log "ok", whose data has the text and the count that this request raised; any
-- other by 400, by 501, or by 200 and an action result of status 0 without data.
pub action_handler-Answers :
    (c : Codec) (s : State) (body : String)
    → Answers c s (effect c body) (action_handler c s body).1
unfolding action_handler effect
action_handler-Answers c s body = handle_decoded-Answers c s (c.decode_action body)

-- The JSON library reads back the log "ok" of an action result that it wrote.
abbrev pub ReadsOk : Codec → Type 0
ReadsOk c =
    (ar : ActionResult)
    → ar.log ≡ "ok"
    → (back : ActionResult) × (c.unmarshal_result (c.marshal_result ar) ≡ ok back)
      × (back.log ≡ "ok")

log_text-Success :
    (c : Codec) (bytes : String) (r : Response)
    → ReadsOk c
    → Success c bytes r
    → get_log_from_body c r.body ≡ "ok"
unfolding get_log_from_body
log_text-Success c bytes r reads (ar, h, _, log, _) =
    let (back, e, log') = reads ar log in
    ap (λ (x : Response). logged x.body (c.unmarshal_result x.body)) h ∙ ap (logged _) e ∙ log'

log_text-Answers :
    (c : Codec) (s : State) (e : Effect) (r : Response)
    → ReadsOk c
    → e ≢ nothing
    → Answers c s e r
    → get_log_from_body c r.body ≡ "ok"
unfolding Answers
log_text-Answers c s nothing r reads asked h = elim (asked refl) [ ]
log_text-Answers c s (greeting name) r reads asked h = log_text-Success c _ r reads h
log_text-Answers c s (farewell req) r reads asked h = log_text-Success c _ r reads h

-- `getLogFromBody` reads "ok" off the answer to every request that asks for a greeting or a
-- farewell, where the JSON library reads back the log "ok" of an action result that it wrote.
pub get_log_from_body-ok :
    (c : Codec) (s : State) (body : String)
    → ReadsOk c
    → effect c body ≢ nothing
    → get_log_from_body c (action_handler c s body).1.body ≡ "ok"
get_log_from_body-ok c s body reads asked =
    log_text-Answers c s (effect c body) (action_handler c s body).1 reads asked
      (action_handler-Answers c s body)
