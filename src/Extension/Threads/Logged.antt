-- ===== src/Extension/Threads/Logged.antt =====
-- A plan carried out at once is what the handlers of extension.go do one after the other, and the
-- log of what took effect, as a history of these.
use quietfill.Prelude.{
  ℕ, ◌≡◌, ◌≢◌, ap, refl, sym, String, List, [], ◌∷◌, ◌++◌, map, All, All-append, eqb, ◌==◌, inl,
  inr, ◌⊎◌, Bool-cases,
}
use quietfill.World.{Reply, ok, fail as error}
use quietfill.Wire.{
  Codec, State, Action, DataFixed, ActionResult, Response, SayGoodbyeRequest, op_type_greeting,
  op_command_say_hello, op_command_say_goodbye,
}
use quietfill.Extension.{
  action_handler, handle_decoded, process_action, process_fixed, process_greeting,
  process_say_hello, process_say_goodbye, say_hello, say_goodbye, greet, part, state_handler,
}
use quietfill.Extension.Serve.{Request, post_action, get_state, serve, serve_one}
use quietfill.Extension.Threads.{
  Job, raise_count, number_of, store_text, reply_to, Plan, direct, needs_lock, needs_rlock,
  plan_hello, plan_goodbye, plan_greeting, plan_fixed, plan_action, plan, Entry,
}

-- The locked part and what follows it, at once.
abbrev pub perform : Codec → Job → State → State × Response
perform c job s =
    let raised = raise_count job s in (store_text job raised, reply_to c job (number_of job raised))

abbrev pub carry_out : Codec → Plan → State → State × Response
carry_out c (direct resp) s = (s, resp)
carry_out c (needs_lock job) s = perform c job s
carry_out c needs_rlock s = (s, state_handler c s)

module _ (c : Codec) (s : State) where
  abbrev sent : State × ActionResult → State × Response
  sent p = (p.0, record { status = 200; body = c.marshal_result p.1 })

  say_hello-plan :
      (a : Action) (df : DataFixed) (r : Reply String)
      → sent (say_hello c s a df r) ≡ carry_out c (plan_hello c a df r) s
  unfolding say_hello plan_hello greet raise_count number_of store_text reply_to
  say_hello-plan a df (error e) = refl
  say_hello-plan a df (ok name) = elim (Bool-cases (name == "")) [
    | inl empty ↦ rw empty refl
    | inr given ↦ rw given refl
  ]

  say_goodbye-plan :
      (a : Action) (df : DataFixed) (r : Reply SayGoodbyeRequest)
      → sent (say_goodbye c s a df r) ≡ carry_out c (plan_goodbye c a df r) s
  unfolding say_goodbye plan_goodbye part raise_count number_of store_text reply_to
  say_goodbye-plan a df (error e) = refl
  say_goodbye-plan a df (ok req) = elim (Bool-cases (req.name == "")) [
    | inl empty ↦ rw empty refl
    | inr given ↦ rw given refl
  ]

  process_greeting-plan :
      (a : Action) (df : DataFixed)
      → process_greeting c s a df ≡ carry_out c (plan_greeting c a df) s
  unfolding process_greeting process_say_hello process_say_goodbye plan_greeting
  process_greeting-plan a df =
      let greets = say_hello-plan a df (c.decode_hello df.original_message) in
      let parts = say_goodbye-plan a df (c.decode_goodbye df.original_message) in
      elim (Bool-cases (eqb df.op_command (c.to_hash op_command_say_hello))) [
        | inl h ↦ rw h greets
        | inr h ↦ elim (Bool-cases (eqb df.op_command (c.to_hash op_command_say_goodbye))) [
          | inl g ↦ rw (h, g) parts
          | inr g ↦ rw (h, g) refl
        ]
      ]

  process_fixed-plan :
      (a : Action) (r : Reply DataFixed) → process_fixed c s a r ≡ carry_out c (plan_fixed c a r) s
  unfolding process_fixed plan_fixed
  process_fixed-plan a (error e) = refl
  process_fixed-plan a (ok df) = elim (Bool-cases (eqb df.op_type (c.to_hash op_type_greeting))) [
    | inl h ↦ rw h (process_greeting-plan a df)
    | inr h ↦ rw h refl
  ]

  handle_decoded-plan : (r : Reply Action) → handle_decoded c s r ≡ carry_out c (plan_action c r) s
  unfolding handle_decoded process_action plan_action
  handle_decoded-plan (error e) = refl
  handle_decoded-plan (ok a) = process_fixed-plan a (c.parse_fixed a.message)

  -- A handler that runs alone carries out its plan.
  pub serve_one-plan : (r : Request) → serve_one c s r ≡ carry_out c (plan c r) s
  unfolding serve_one action_handler plan
  serve_one-plan (post_action body) = handle_decoded-plan (c.decode_action body)
  serve_one-plan get_state = refl

-- The log is a history of handlers that run alone, one after the other, with their answers.
abbrev pub Serial : Codec → State → List Entry → Type 0
Serial c s [] = Unit {0}
Serial c s (e ∷ es) =
    let served = serve_one c s e.request in (served.1 ≡ e.response) × Serial c served.0 es

abbrev pub requests : List Entry → List Request
requests = map (λ e. e.request)

-- The state that the log leaves.
abbrev pub after : Codec → State → List Entry → State
after c s log = serve c s (requests log)

module _ (c : Codec) where
  pub after-append :
      (s : State) (log more : List Entry) → after c s (log ++ more) ≡ after c (after c s log) more
  unfolding serve
  after-append s [] more = refl
  after-append s (e ∷ es) more = after-append (serve_one c s e.request).0 es more

  pub Serial-append :
      (s : State) (log more : List Entry)
      → Serial c s log
      → Serial c (after c s log) more
      → Serial c s (log ++ more)
  unfolding serve
  Serial-append s [] more _ h = h
  Serial-append s (e ∷ es) more (right, rest) h =
      (right, Serial-append (serve_one c s e.request).0 es more rest h)

-- The log has an entry, and none of a handler.
abbrev pub Has : Entry → List Entry → Type 0
Has e [] = ⊥
Has e (x ∷ xs) = (e ≡ x) ⊎ Has e xs

abbrev pub Lacks : ℕ → List Entry → Type 0
Lacks i = All (λ e. e.by ≢ i)

-- No handler has two entries.
abbrev pub Distinct : List Entry → Type 0
Distinct [] = Unit {0}
Distinct (e ∷ es) = Lacks e.by es × Distinct es

pub Has-append : (e : Entry) (log more : List Entry) → Has e log → Has e (log ++ more)
Has-append e [] more h = elim h [ ]
Has-append e (x ∷ xs) more (inl same) = inl same
Has-append e (x ∷ xs) more (inr later) = inr (Has-append e xs more later)

pub Has-last : (e : Entry) (log : List Entry) → Has e (log ++ e ∷ [])
Has-last e [] = inl refl
Has-last e (x ∷ xs) = inr (Has-last e xs)

pub Lacks-append :
    (i : ℕ) (log : List Entry) (e : Entry) → Lacks i log → e.by ≢ i → Lacks i (log ++ e ∷ [])
Lacks-append i log e h ne = All-append (λ e. e.by ≢ i) log (e ∷ []) h (ne, tt)

pub Distinct-append :
    (log : List Entry) (e : Entry) → Distinct log → Lacks e.by log → Distinct (log ++ e ∷ [])
Distinct-append [] e _ _ = (tt, tt)
Distinct-append (x ∷ xs) e (alone, rest) (ne, lacks) =
    (Lacks-append x.by xs e alone (λ same. ne (sym same)), Distinct-append xs e rest lacks)

pub Has-later :
    (e : Entry) (log more : List Entry) → Lacks e.by log → Has e (log ++ more) → Has e more
Has-later e [] more _ h = h
Has-later e (x ∷ xs) more (ne, lacks) (inl same) = absurd (ne (sym (ap (λ (y : Entry). y.by) same)))
Has-later e (x ∷ xs) more (ne, lacks) (inr later) = Has-later e xs more lacks later
