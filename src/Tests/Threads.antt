-- ===== src/Tests/Threads.antt =====
-- Handlers that run at the same time: one greets, one waits to read the state, one is refused.
use quietfill.Prelude.{ℕ, ◌<◌, ◌^◌, ◌≡◌, refl, sprintf, false, List, [], ◌∷◌, ◌++◌, arith}
use quietfill.Wire.{State, Response}
use quietfill.Extension.{new}
use quietfill.Extension.Effect.{effect}
use quietfill.Extension.Serve.{Request, post_action, get_state, serve, greetings}
use quietfill.Extension.Threads.{
  accepted, answered, counted, copied, move, set_fields, Handler, Job, hello, needs_lock,
  needs_rlock, direct, plan, raise_count, number_of, store_text, reply_to, writes, reads, Server,
  Entry, Step, Reach, start, next,
}
use quietfill.Extension.Threads.Logged.{Serial, requests, Has, Distinct}
use quietfill.Extension.Threads.Invariant.{NoWriter}
use quietfill.Extension.Threads.Linear.{
  Run, stay, go, Changes, Step-exclusive, Reach-Serial, Run-ordered,
}
use quietfill.Extension.Threads.Progress.{Advances, Nears, rank, Reach-Advances}
use quietfill.Extension.Threads.Numbers.{Distinguished, Reach-Distinguished}
use quietfill.Tests.Server.{codec, hello_effect_run}

abbrev ada : Job
ada =
    hello (record { id = 7; submission_tag = "submit"; message = "hello" })
      (record { op_type = 1; op_command = 2; original_message = "Ada" }) "Ada"

abbrev greet_ada : Request
greet_ada = post_action "hello"

-- A server that was reached.
record Reached : Type 0 where
  pub log : List Entry
  pub server : Server
  pub reach : Reach codec new log server

abbrev after : (r : Reached) {more : List Entry} {t : Server} → Step codec r.server more t → Reached
after r st = record { log = _; server = _; reach = next r.reach st }

asks_lock : plan codec greet_ada ≡ needs_lock ada
unfolding plan
asks_lock = refl

asks_rlock : plan codec get_state ≡ needs_rlock
unfolding plan
asks_rlock = refl

-- The greeting waits for `mu`.
abbrev greeting_queued : Reached
greeting_queued =
    let r = after (record { log = []; server = _; reach = start }) (Step.arrive 0 greet_ada refl) in
    after r (Step.queue 0 greet_ada ada refl asks_lock)

none_holds :
    (j : ℕ)
    → (writes (greeting_queued.server.handler j) ≡ false)
      × (reads (greeting_queued.server.handler j) ≡ false)
none_holds j = (ground arith, ground arith)

-- The greeting is between Lock and Unlock, and the reader waits.
abbrev greeting_locked : Reached
greeting_locked =
    let r = after greeting_queued (Step.lock 0 greet_ada ada refl none_holds) in
    let r = after r (Step.arrive 1 get_state refl) in
    after r (Step.queue_read 1 get_state refl asks_rlock)

-- The greeting is answered, and the reader still waits.
abbrev greeting_answered : Reached
greeting_answered =
    let r = after greeting_locked (Step.count 0 greet_ada ada refl) in
    let r = after r (Step.number 0 greet_ada ada refl) in
    let r = after r (Step.store 0 greet_ada ada _ refl) in
    let r = after r (Step.unlock 0 greet_ada ada _ refl) in
    after r (Step.respond 0 greet_ada ada _ refl)

-- A request without a name, and its answer.
abbrev anonymous : Request
anonymous = post_action "nobody"

abbrev no_name : Response
no_name = record { status = 200; body = "error: name must not be empty" }

asks_nothing : plan codec anonymous ≡ direct no_name
unfolding plan sprintf
asks_nothing = refl

abbrev greeted : Entry
greeted = record {
  by = 0;
  request = greet_ada;
  response = reply_to codec ada (number_of ada (raise_count ada new));
}

abbrev refused : Entry
refused = record { by = 2; request = anonymous; response = no_name }

-- It arrives after the greeting is answered.
abbrev after_that :
    Run codec greeting_answered.server
      (refused ∷ [])
      (move (move greeting_answered.server 2 (accepted anonymous)) 2 (answered anonymous no_name))
after_that =
    go (go stay (Step.arrive 2 anonymous refl)) (Step.refuse 2 anonymous no_name refl asks_nothing)

abbrev counted_mem : State
counted_mem = raise_count ada greeting_locked.server.mem

abbrev counted_ada : Handler
counted_ada = counted greet_ada ada

Step-exclusive_example :
    Changes greeting_locked.server (set_fields greeting_locked.server 0 counted_mem counted_ada)
    × ((i : ℕ) (st : State)
        → greeting_locked.server.handler i ≡ copied st
        → st ≡ greeting_locked.server.mem)
Step-exclusive_example =
    Step-exclusive codec new greeting_locked.reach (Step.count 0 greet_ada ada refl)

Reach-Serial_example :
    Serial codec new greeting_answered.log
    × Distinct greeting_answered.log
    × ((i : ℕ) (q : Request) (resp : Response)
        → greeting_answered.server.handler i ≡ answered q resp
        → Has (record { by = i; request = q; response = resp }) greeting_answered.log)
    × (NoWriter greeting_answered.server.handler
        → greeting_answered.server.mem ≡ serve codec new (requests greeting_answered.log))
Reach-Serial_example = Reach-Serial codec new greeting_answered.reach

Reach-Advances_example :
    ((i : ℕ) → 0 < rank (greeting_locked.server.handler i) → Advances codec greeting_locked.server)
    × ((more : List Entry) (t : Server)
        → Step codec greeting_locked.server more t
        → Nears greeting_locked.server.handler t.handler)
Reach-Advances_example = Reach-Advances codec new greeting_locked.reach

Run-ordered_example :
    Serial codec new (greeting_answered.log ++ refused ∷ [])
    × Has greeted greeting_answered.log
    × Has refused (refused ∷ [])
Run-ordered_example =
    Run-ordered codec new greeting_answered.reach after_that 0 2 greet_ada anonymous
      greeted.response no_name refl refl refl

-- A second greeting, after the first.
abbrev second_queued : Reached
second_queued =
    let r = after greeting_answered (Step.arrive 3 greet_ada refl) in
    after r (Step.queue 3 greet_ada ada refl asks_lock)

none_holds_again :
    (j : ℕ)
    → (writes (second_queued.server.handler j) ≡ false)
      × (reads (second_queued.server.handler j) ≡ false)
none_holds_again j = (ground arith, ground arith)

abbrev second_answered : Reached
second_answered =
    let r = after second_queued (Step.lock 3 greet_ada ada refl none_holds_again) in
    let r = after r (Step.count 3 greet_ada ada refl) in
    let r = after r (Step.number 3 greet_ada ada refl) in
    let r = after r (Step.store 3 greet_ada ada _ refl) in
    let r = after r (Step.unlock 3 greet_ada ada _ refl) in
    after r (Step.respond 3 greet_ada ada _ refl)

few_greetings : greetings codec (requests second_answered.log) < 2 ^ 64
unfolding greetings effect
few_greetings = omega arith

-- The number that the second greeting got.
abbrev second_number : ℕ
second_number = number_of ada (raise_count ada (store_text ada (raise_count ada new)))

Reach-Distinguished_example :
    Distinguished codec "Ada" greeted.response "Ada" (reply_to codec ada second_number)
Reach-Distinguished_example =
    Reach-Distinguished codec second_answered.log second_answered.server 0 3 "hello" "hello" "Ada"
      "Ada" greeted.response (reply_to codec ada second_number) second_answered.reach
      (λ e. omega (arith, e)) refl refl hello_effect_run hello_effect_run few_greetings
