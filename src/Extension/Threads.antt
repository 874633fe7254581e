-- ===== src/Extension/Threads.antt =====
-- The handlers of extension.go as goroutines that run at the same time. A step is one access to the
-- shared state, one operation of `mu`, or what a handler does on its own between two of these.
-- The increment of a count, `e.greetingCount++`, is one access.
-- `mu` is the set of the handlers that hold it: Lock waits until no other does, RLock until none
-- writes.
pub mod Logged
pub mod Invariant
pub mod Kept
pub mod Linear
pub mod Progress
pub mod Numbers
use quietfill.Prelude.{
  ℕ, ◌+◌, ◌%◌, ◌^◌, ◌≡◌, String, Bool, true, false, Option, none, some, List, [], ◌∷◌, ◌++◌,
  sprintf, eqb, ◌==◌, if◌then◌else◌,
}
use quietfill.World.{Reply, ok, fail as error}
use quietfill.Wire.{
  Codec, State, Action, DataFixed, Response, SayGoodbyeRequest, op_type_greeting,
  op_command_say_hello, op_command_say_goodbye,
}
use quietfill.Extension.{
  build_result, greeting_text, farewell_text, unsupported_command, unsupported_type, http_error,
  state_handler,
}
use quietfill.Extension.Serve.{Request, post_action, get_state}

-- What a handler knows when it reaches `e.mu.Lock()`.
pub data Job : Type 0 where
  hello : Action → DataFixed → String → Job
  goodbye : Action → DataFixed → SayGoodbyeRequest → Job

-- `e.greetingCount++` and `e.farewellCount++`.
unfoldable pub raise_count : Job → State → State
raise_count (hello a df name) s = record s { greeting_count = (s.greeting_count + 1) % 2 ^ 64 }
raise_count (goodbye a df req) s = record s { farewell_count = (s.farewell_count + 1) % 2 ^ 64 }

-- `greetingNumber := e.greetingCount` and `farewellNumber := e.farewellCount`.
unfoldable pub number_of : Job → State → ℕ
number_of (hello a df name) s = s.greeting_count
number_of (goodbye a df req) s = s.farewell_count

-- `e.lastGreeting = greeting` and `e.lastFarewell = farewell`.
unfoldable pub store_text : Job → State → State
unfolding greeting_text farewell_text
store_text (hello a df name) s = record s { last_greeting = greeting_text name }
store_text (goodbye a df req) s = record s { last_farewell = farewell_text req }

-- What follows `e.mu.Unlock()`, with the number.
unfoldable pub reply_to : Codec → Job → ℕ → Response
unfolding build_result greeting_text farewell_text
reply_to c (hello a df name) n = record {
  status = 200;
  body = c.marshal_result (
      build_result a df
        (some (c.marshal_hello (record { greeting = greeting_text name; greeting_number = n }))) 1
        none);
}
reply_to c (goodbye a df req) n = record {
  status = 200;
  body = c.marshal_result (
      build_result a df
        (some (c.marshal_goodbye (record { farewell = farewell_text req; farewell_number = n }))) 1
        none);
}

-- Where a handler is when it has read its request: it answers, or it waits for `mu`.
pub data Plan : Type 0 where
  direct : Response → Plan
  needs_lock : Job → Plan
  needs_rlock : Plan

abbrev refused : Codec → Action → DataFixed → String → Plan
refused c a df e =
    direct (record { status = 200; body = c.marshal_result (build_result a df none 0 (some e)) })

-- `processSayHello` up to `e.mu.Lock()`.
unfoldable pub plan_hello : Codec → Action → DataFixed → Reply String → Plan
unfolding build_result
plan_hello c a df (error e) = refused c a df (sprintf ("decoding request: " ∷ e ∷ []))
plan_hello c a df (ok name) =
    if name == "" then refused c a df "name must not be empty" else needs_lock (hello a df name)

-- `processSayGoodbye` up to `e.mu.Lock()`.
unfoldable pub plan_goodbye : Codec → Action → DataFixed → Reply SayGoodbyeRequest → Plan
unfolding build_result
plan_goodbye c a df (error e) = refused c a df (sprintf ("decoding request: " ∷ e ∷ []))
plan_goodbye c a df (ok req) =
    if req.name == ""
    then refused c a df "name must not be empty"
    else needs_lock (goodbye a df req)

-- `processGreeting` up to there.
unfoldable pub plan_greeting : Codec → Action → DataFixed → Plan
unfolding plan_hello plan_goodbye unsupported_command
plan_greeting c a df =
    if eqb df.op_command (c.to_hash op_command_say_hello)
    then plan_hello c a df (c.decode_hello df.original_message)
    else if eqb df.op_command (c.to_hash op_command_say_goodbye)
    then plan_goodbye c a df (c.decode_goodbye df.original_message)
    else direct (record { status = 501; body = unsupported_command c df })

-- `processAction` up to there.
unfoldable pub plan_fixed : Codec → Action → Reply DataFixed → Plan
unfolding plan_greeting unsupported_type
plan_fixed c a (error e) =
    direct (record { status = 400; body = sprintf ("decoding fixed data: " ∷ e ∷ []) })
plan_fixed c a (ok df) =
    if eqb df.op_type (c.to_hash op_type_greeting)
    then plan_greeting c a df
    else direct (record { status = 501; body = unsupported_type c df })

-- `actionHandler` up to there.
unfoldable pub plan_action : Codec → Reply Action → Plan
unfolding plan_fixed http_error
plan_action c (error e) = direct (http_error (sprintf ("decoding action: " ∷ e ∷ [])) 400)
plan_action c (ok a) = plan_fixed c a (c.parse_fixed a.message)

unfoldable pub plan : Codec → Request → Plan
unfolding plan_action
plan c (post_action body) = plan_action c (c.decode_action body)
plan c get_state = needs_rlock

-- Where a handler stands, with its local variables.
pub data Handler : Type 0 where
  idle : Handler
  accepted : Request → Handler
  at_lock : Request → Job → Handler
  locked : Request → Job → Handler
  counted : Request → Job → Handler
  numbered : Request → Job → ℕ → Handler
  stored : Request → Job → ℕ → Handler
  unlocked : Request → Job → ℕ → Handler
  at_rlock : Handler
  rlocked : Handler
  copied_count : ℕ → Handler
  copied_greeting : ℕ → String → Handler
  copied_farewells : ℕ → String → ℕ → Handler
  copied : State → Handler
  runlocked : State → Handler
  answered : Request → Response → Handler

-- Between `Lock` and `Unlock`.
abbrev pub writes : Handler → Bool
writes (locked r job) = true
writes (counted r job) = true
writes (numbered r job n) = true
writes (stored r job n) = true
writes _ = false

-- Between `RLock` and `RUnlock`.
abbrev pub reads : Handler → Bool
reads rlocked = true
reads (copied_count n) = true
reads (copied_greeting n t) = true
reads (copied_farewells n t m) = true
reads (copied st) = true
reads _ = false

abbrev pub update : (ℕ → Handler) → ℕ → Handler → ℕ → Handler
update f i h j = if eqb i j then h else f j

-- The server: the shared fields, and the handlers. A handler serves one request.
pub record Server : Type 0 where
  pub mem : State
  pub handler : ℕ → Handler

abbrev pub move : Server → ℕ → Handler → Server
move s i h = record { mem = s.mem; handler = update s.handler i h }

abbrev pub set_fields : Server → ℕ → State → Handler → Server
set_fields s i mem h = record { mem = mem; handler = update s.handler i h }

-- A request that took effect: which handler served it, and its answer.
pub record Entry : Type 0 where
  pub by : ℕ
  pub request : Request
  pub response : Response

-- One step of handler `i`; the label is the request that takes effect with it, if one does: at its
-- Unlock or RUnlock, or, where it never takes `mu`, when it is refused.
pub data Step (c : Codec) (s : Server) : List Entry → Server → Type 0 where
  arrive : (i : ℕ) (r : Request) → s.handler i ≡ idle → Step c s [] (move s i (accepted r))
  refuse :
      (i : ℕ) (r : Request) (resp : Response)
      → s.handler i ≡ accepted r
      → plan c r ≡ direct resp
      → Step c s (record { by = i; request = r; response = resp } ∷ []) (move s i (answered r resp))
  queue :
      (i : ℕ) (r : Request) (job : Job)
      → s.handler i ≡ accepted r
      → plan c r ≡ needs_lock job
      → Step c s [] (move s i (at_lock r job))
  queue_read :
      (i : ℕ) (r : Request)
      → s.handler i ≡ accepted r
      → plan c r ≡ needs_rlock
      → Step c s [] (move s i at_rlock)
  lock :
      (i : ℕ) (r : Request) (job : Job)
      → s.handler i ≡ at_lock r job
      → ((j : ℕ) → (writes (s.handler j) ≡ false) × (reads (s.handler j) ≡ false))
      → Step c s [] (move s i (locked r job))
  count :
      (i : ℕ) (r : Request) (job : Job)
      → s.handler i ≡ locked r job
      → Step c s [] (set_fields s i (raise_count job s.mem) (counted r job))
  number :
      (i : ℕ) (r : Request) (job : Job)
      → s.handler i ≡ counted r job
      → Step c s [] (move s i (numbered r job (number_of job s.mem)))
  store :
      (i : ℕ) (r : Request) (job : Job) (n : ℕ)
      → s.handler i ≡ numbered r job n
      → Step c s [] (set_fields s i (store_text job s.mem) (stored r job n))
  unlock :
      (i : ℕ) (r : Request) (job : Job) (n : ℕ)
      → s.handler i ≡ stored r job n
      → Step c s
          (record { by = i; request = r; response = reply_to c job n } ∷ [])
          (move s i (unlocked r job n))
  respond :
      (i : ℕ) (r : Request) (job : Job) (n : ℕ)
      → s.handler i ≡ unlocked r job n
      → Step c s [] (move s i (answered r (reply_to c job n)))
  rlock :
      (i : ℕ)
      → s.handler i ≡ at_rlock
      → ((j : ℕ) → writes (s.handler j) ≡ false)
      → Step c s [] (move s i rlocked)
  copy_count :
      (i : ℕ) → s.handler i ≡ rlocked → Step c s [] (move s i (copied_count s.mem.greeting_count))
  copy_greeting :
      (i n : ℕ)
      → s.handler i ≡ copied_count n
      → Step c s [] (move s i (copied_greeting n s.mem.last_greeting))
  copy_farewells :
      (i n : ℕ) (t : String)
      → s.handler i ≡ copied_greeting n t
      → Step c s [] (move s i (copied_farewells n t s.mem.farewell_count))
  copy_farewell :
      (i n : ℕ) (t : String) (m : ℕ)
      → s.handler i ≡ copied_farewells n t m
      → Step c s [] (
          move s i (
            copied (record {
              greeting_count = n;
              last_greeting = t;
              farewell_count = m;
              last_farewell = s.mem.last_farewell;
            })))
  runlock :
      (i : ℕ) (st : State)
      → s.handler i ≡ copied st
      → Step c s
          (record { by = i; request = get_state; response = state_handler c st } ∷ [])
          (move s i (runlocked st))
  report :
      (i : ℕ) (st : State)
      → s.handler i ≡ runlocked st
      → Step c s [] (move s i (answered get_state (state_handler c st)))

abbrev pub quiet : State → Server
quiet mem = record { mem = mem; handler = λ i. idle }

-- The servers that can be reached from one without requests, with the log of what took effect.
pub data Reach (c : Codec) (first : State) : List Entry → Server → Type 0 where
  start : Reach c first [] (quiet first)
  next :
      {log more : List Entry} {s t : Server}
      → Reach c first log s
      → Step c s more t
      → Reach c first (log ++ more) t
