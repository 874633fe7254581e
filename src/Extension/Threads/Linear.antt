-- ===== src/Extension/Threads/Linear.antt =====
-- Handlers that run at the same time do what handlers do that run one after the other.
use quietfill.Prelude.{
  ℕ, ◌≢◌, ◌⊎◌, inl, inr, false, Bool-cases, ◌≡◌, ◌∙◌, ap, refl, sym, subst, true, List, [], ◌++◌,
  arith, append-nil, append_assoc,
}
use quietfill.Wire.{Codec, State, Response}
use quietfill.Extension.{state_handler}
use quietfill.Extension.Serve.{Request, get_state, serve, serve_one}
use quietfill.Extension.Threads.{
  idle, accepted, at_lock, locked, counted, numbered, stored, unlocked, at_rlock, rlocked,
  copied_count, copied_greeting, copied_farewells, copied, runlocked, answered, raise_count,
  number_of, store_text, reply_to, Plan, plan, writes, reads, update, Handler, Server, Entry, Step,
  Reach, start, next, quiet,
}
use quietfill.Extension.Threads.Logged.{
  carry_out, serve_one-plan, Serial, after, requests, Has, Distinct, Has-last, Has-later,
}
use quietfill.Extension.Threads.Invariant.{Exclusive, holds, update_other, Inv, NoWriter}
use quietfill.Extension.Threads.Kept.{
  View-of, Recorded-of, Inv-private, Inv-writing, Inv-answers, Inv-unlocks, Inv-locks, Inv-rlocks,
  NoWriter-reading,
}

-- A request with a plan, served alone.
planned :
    (c : Codec) (s : State) (r : Request) {p : Plan}
    → plan c r ≡ p
    → serve_one c s r ≡ carry_out c p s
planned c s r h = serve_one-plan c s r ∙ ap (λ p. carry_out c p s) h

-- Every step keeps the invariant.
Step-Inv :
    (c : Codec) {first : State} {log more : List Entry} {s t : Server}
    → Inv c first log s
    → Step c s more t
    → Inv c first (log ++ more) t
unfolding serve_one
Step-Inv c inv (Step.arrive i r at) =
    Inv-private c inv i idle (accepted r) at refl refl (λ q. cc) tt (Recorded-of c inv i idle at)
Step-Inv c {first} {log} inv (Step.refuse i r resp at refused) =
    let e : Entry = record { by = i; request = r; response = resp } in
    Inv-answers c inv i (accepted r) (answered r resp) at e refl refl refl
      (Recorded-of c inv i (accepted r) at) (planned c (after c first log) r refused) tt
      (Has-last e log)
Step-Inv c inv (Step.queue i r job at needs) =
    Inv-private c inv i (accepted r) (at_lock r job) at refl refl (λ q. cc) needs
      (Recorded-of c inv i (accepted r) at)
Step-Inv c inv (Step.queue_read i r at needs) =
    Inv-private c inv i (accepted r) at_rlock at refl refl (λ q. cc) tt
      (Recorded-of c inv i (accepted r) at)
Step-Inv c {s = s} inv (Step.lock i r job at free) =
    Inv-locks c inv i (at_lock r job) (locked r job) at
      (λ j. ground (arith, (free j).0, (free j).1)) refl
      (View-of c inv i (at_lock r job) at, inv.settled (λ j. (free j).0))
      (Recorded-of c inv i (at_lock r job) at)
Step-Inv c {s = s} inv (Step.count i r job at) =
    let (needs, same) = View-of c inv i (locked r job) at in
    Inv-writing c inv i (locked r job) (counted r job) at (raise_count job s.mem) refl refl
      (needs, ap (raise_count job) same) (Recorded-of c inv i (locked r job) at)
Step-Inv c {s = s} inv (Step.number i r job at) =
    let (needs, raised) = View-of c inv i (counted r job) at in
    Inv-writing c inv i (counted r job) (numbered r job (number_of job s.mem)) at s.mem refl refl
      (needs, raised, ap (number_of job) raised) (Recorded-of c inv i (counted r job) at)
Step-Inv c {s = s} inv (Step.store i r job n at) =
    let (needs, raised, number) = View-of c inv i (numbered r job n) at in
    Inv-writing c inv i (numbered r job n) (stored r job n) at (store_text job s.mem) refl refl
      (needs, ap (store_text job) raised, number) (Recorded-of c inv i (numbered r job n) at)
Step-Inv c {first} {log} {s = s} inv (Step.unlock i r job n at) =
    let (needs, done, number) = View-of c inv i (stored r job n) at in
    let e : Entry = record { by = i; request = r; response = reply_to c job n } in
    Inv-unlocks c inv i (stored r job n) (unlocked r job n) at e refl refl refl
      (Recorded-of c inv i (stored r job n) at)
      (planned c (after c first log) r needs
        ∙ ap
            (λ (m : State).
              (m, reply_to c job (number_of job (raise_count job (after c first log)))))
            (sym done)
        ∙ ap (λ (k : ℕ). (s.mem, reply_to c job k)) (sym number))
      tt (Has-last e log)
Step-Inv c inv (Step.respond i r job n at) =
    Inv-private c inv i (unlocked r job n) (answered r (reply_to c job n)) at refl refl (λ q. cc) tt
      (Recorded-of c inv i (unlocked r job n) at)
Step-Inv c inv (Step.rlock i at free) =
    Inv-rlocks c inv i at_rlock rlocked at free refl tt (Recorded-of c inv i at_rlock at)
Step-Inv c {s = s} inv (Step.copy_count i at) =
    Inv-private c inv i rlocked (copied_count s.mem.greeting_count) at refl refl (λ q. refl) refl
      (Recorded-of c inv i rlocked at)
Step-Inv c {s = s} inv (Step.copy_greeting i n at) =
    Inv-private c inv i (copied_count n) (copied_greeting n s.mem.last_greeting) at refl refl
      (λ q. refl) (View-of c inv i (copied_count n) at, refl)
      (Recorded-of c inv i (copied_count n) at)
Step-Inv c {s = s} inv (Step.copy_farewells i n t at) =
    let (a, b) = View-of c inv i (copied_greeting n t) at in
    Inv-private c inv i (copied_greeting n t) (copied_farewells n t s.mem.farewell_count) at refl
      refl (λ q. refl) (a, b, refl) (Recorded-of c inv i (copied_greeting n t) at)
Step-Inv c {s = s} inv (Step.copy_farewell i n t m at) =
    let (a, b, d) = View-of c inv i (copied_farewells n t m) at in
    Inv-private c inv i (copied_farewells n t m) _ at refl refl (λ q. refl)
      (ground (arith, a, b, d)) (Recorded-of c inv i (copied_farewells n t m) at)
Step-Inv c {first} {log} {s = s} inv (Step.runlock i st at) =
    let e : Entry = record { by = i; request = get_state; response = state_handler c st } in
    let same =
      View-of c inv i (copied st) at
      ∙ inv.settled (NoWriter-reading c inv i (copied st) (runlocked st) at refl refl) in
    Inv-answers c inv i (copied st) (runlocked st) at e refl refl refl
      (Recorded-of c inv i (copied st) at)
      (ap (λ (m : State). (after c first log, state_handler c m)) (sym same)) tt (Has-last e log)
Step-Inv c inv (Step.report i st at) =
    Inv-private c inv i (runlocked st) (answered get_state (state_handler c st)) at refl refl
      (λ q. cc) tt (Recorded-of c inv i (runlocked st) at)

-- A part of a run, with what it adds to the log.
pub data Run (c : Codec) (s : Server) : List Entry → Server → Type 0 where
  stay : Run c s [] s
  go :
      {more last : List Entry} {t u : Server}
      → Run c s more t
      → Step c t last u
      → Run c s (more ++ last) u

quiet-Inv : (c : Codec) (first : State) → Inv c first [] (quiet first)
unfolding serve
quiet-Inv c first = record {
  serial = tt;
  distinct = tt;
  view = λ j. tt;
  recorded = λ j. tt;
  exclusive = λ i j w. cc;
  settled = λ q. refl;
}

Reach-Inv :
    (c : Codec) (first : State) {log : List Entry} {s : Server}
    → Reach c first log s
    → Inv c first log s
Reach-Inv c first start = quiet-Inv c first
Reach-Inv c first (next r st) = Step-Inv c (Reach-Inv c first r) st

-- The shared fields stay; or they change in a step of a handler between its Lock and its Unlock, while
-- no other handler is between a Lock and an Unlock or an RLock and an RUnlock, and the others stay.
abbrev pub Changes : Server → Server → Type 0
Changes s t =
    (t.mem ≡ s.mem)
    ⊎ ((i : ℕ) × (writes (s.handler i) ≡ true)
        × ((j : ℕ)
            → i ≢ j
            → (writes (s.handler j) ≡ false)
              × (reads (s.handler j) ≡ false)
              × (t.handler j ≡ s.handler j)))

changed :
    (f : ℕ → Handler)
    → Exclusive f
    → (i : ℕ) (h h' : Handler) → f i ≡ h
    → writes h ≡ true
    → (k : ℕ) × (writes (f k) ≡ true)
      × ((j : ℕ) → k ≢ j → (writes (f j) ≡ false) × (reads (f j) ≡ false) × (update f i h' j ≡ f j))
changed f exclusive i h h' at held = (
  i,
  here,
  λ j other.
      let free = not_held j other in
      (ground (arith, free), ground (arith, free), update_other f i h' j other),
)
  where
    here : writes (f i) ≡ true
    here = ap writes at ∙ held

    not_held : (j : ℕ) → i ≢ j → holds (f j) ≡ false
    not_held j other = elim (Bool-cases (holds (f j))) [
      | inl taken ↦ absurd (other (exclusive i j here taken))
      | inr free ↦ free
    ]

Step-Changes :
    {c : Codec} {s t : Server} {more : List Entry}
    → Exclusive s.handler
    → Step c s more t
    → Changes s t
Step-Changes exclusive (Step.arrive i q at) = inl refl
Step-Changes exclusive (Step.refuse i q resp at h) = inl refl
Step-Changes exclusive (Step.queue i q job at h) = inl refl
Step-Changes exclusive (Step.queue_read i q at h) = inl refl
Step-Changes exclusive (Step.lock i q job at h) = inl refl
Step-Changes {s = s} exclusive (Step.count i q job at) =
    inr (changed s.handler exclusive i _ _ at refl)
Step-Changes exclusive (Step.number i q job at) = inl refl
Step-Changes {s = s} exclusive (Step.store i q job n at) =
    inr (changed s.handler exclusive i _ _ at refl)
Step-Changes exclusive (Step.unlock i q job n at) = inl refl
Step-Changes exclusive (Step.respond i q job n at) = inl refl
Step-Changes exclusive (Step.rlock i at h) = inl refl
Step-Changes exclusive (Step.copy_count i at) = inl refl
Step-Changes exclusive (Step.copy_greeting i n at) = inl refl
Step-Changes exclusive (Step.copy_farewells i n t at) = inl refl
Step-Changes exclusive (Step.copy_farewell i n t m at) = inl refl
Step-Changes exclusive (Step.runlock i st at) = inl refl
Step-Changes exclusive (Step.report i st at) = inl refl

-- In every server that can be reached, a handler that has copied the four shared fields has them as they
-- are; and a step leaves the shared fields as they are, or it is one of a handler between its Lock and
-- its Unlock, while no other handler is between a Lock and its Unlock or an RLock and its RUnlock; and
-- the other handlers stay.
pub Step-exclusive :
    (c : Codec) (first : State) {log more : List Entry} {s t : Server}
    → Reach c first log s
    → Step c s more t
    → Changes s t × ((i : ℕ) (st : State) → s.handler i ≡ copied st → st ≡ s.mem)
Step-exclusive c first r st =
    let inv = Reach-Inv c first r in
    (Step-Changes inv.exclusive st, λ i seen at. View-of c inv i (copied seen) at)

-- However the steps of the handlers interleave: the requests that took effect, in the order of
-- their Unlock, RUnlock or refusal, are a history of handlers that run one after the other, with
-- the answers that these give; no handler is in it twice; the answer of every handler that has
-- answered is in it; and while no handler writes, the shared fields are what that history leaves.
pub Reach-Serial :
    (c : Codec) (first : State) {log : List Entry} {s : Server}
    → Reach c first log s
    → Serial c first log
      × Distinct log
      × ((i : ℕ) (q : Request) (resp : Response)
          → s.handler i ≡ answered q resp
          → Has (record { by = i; request = q; response = resp }) log)
      × (NoWriter s.handler → s.mem ≡ serve c first (requests log))
Reach-Serial c first {log} {s} r =
    let inv = Reach-Inv c first r in
    (inv.serial, inv.distinct, λ i q resp at. Recorded-of c inv i (answered q resp) at, inv.settled)

Reach-Run :
    {c : Codec} {first : State} {log : List Entry} {s : Server}
    → Reach c first log s
    → {more : List Entry} {t : Server} → Run c s more t
    → Reach c first (log ++ more) t
Reach-Run {c} {first} {log} {s} r stay = subst (λ l. Reach c first l s) (sym (append-nil log)) r
Reach-Run {c} {first} {log} {s} r {t = u} (go {more} {last} run st) =
    subst (λ l. Reach c first l u) (append_assoc log more last) (next (Reach-Run r run) st)

-- The history keeps the order of time: where handler i has answered before handler j has a request,
-- the entry of i is in the history by then, and whatever entry j gets is behind it, in what the
-- history has grown by since.
pub Run-ordered :
    (c : Codec) (first : State) {log more : List Entry} {s t : Server}
    → Reach c first log s
    → Run c s more t
    → (i j : ℕ) (q q' : Request) (resp resp' : Response) → s.handler i ≡ answered q resp
    → s.handler j ≡ idle
    → t.handler j ≡ answered q' resp'
    → Serial c first (log ++ more)
      × Has (record { by = i; request = q; response = resp }) log
      × Has (record { by = j; request = q'; response = resp' }) more
Run-ordered c first {log} {more} r run i j q q' resp resp' at unborn done =
    let before = Reach-Inv c first r in
    let inv = Reach-Inv c first (Reach-Run r run) in
    (
      inv.serial,
      Recorded-of c before i (answered q resp) at,
      Has-later _ log more (Recorded-of c before j idle unborn)
          (Recorded-of c inv j (answered q' resp') done),
    )
