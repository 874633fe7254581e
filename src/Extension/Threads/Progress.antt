-- ===== src/Extension/Threads/Progress.antt =====
-- The handlers never wait for one another for good.
use quietfill.Prelude.{
  ℕ, zero, suc, ◌+◌, ◌≤◌, ◌<◌, ◌≡◌, ◌≢◌, ◌∙◌, ap, refl, sym, Bool, true, false, List, arith, inl,
  inr, ◌⊎◌, Bool-cases,
}
use native.Mathlib.Decide.{dec_lt}
use quietfill.Wire.{Codec, State}
use quietfill.Extension.Serve.{Request}
use quietfill.Extension.Threads.{
  Handler, idle, accepted, at_lock, locked, counted, numbered, stored, unlocked, at_rlock, rlocked,
  copied_count, copied_greeting, copied_farewells, copied, runlocked, answered, direct, needs_lock,
  needs_rlock, Plan, plan, update, Server, Entry, Step, Reach, start, next,
}
use quietfill.Extension.Threads.Invariant.{holds, update_self, update_other}

-- How many steps a handler has left at most.
abbrev pub rank : Handler → ℕ
rank idle = 0
rank (accepted r) = 8
rank (at_lock r job) = 7
rank (locked r job) = 6
rank (counted r job) = 5
rank (numbered r job n) = 4
rank (stored r job n) = 3
rank (unlocked r job n) = 2
rank at_rlock = 7
rank rlocked = 6
rank (copied_count n) = 5
rank (copied_greeting n t) = 4
rank (copied_farewells n t m) = 3
rank (copied st) = 2
rank (runlocked st) = 1
rank (answered r resp) = 0

-- At `Lock` or `RLock`.
abbrev waits : Handler → Bool
waits (at_lock r job) = true
waits at_rlock = true
waits _ = false

-- Some handler takes a step that brings it nearer to its answer, and the others stay.
abbrev pub Advances : Codec → Server → Type 0
Advances c s =
    (k : ℕ) × (more : List Entry) × (t : Server) × Step c s more t
    × (rank (t.handler k) < rank (s.handler k))
    × ((j : ℕ) → k ≢ j → t.handler j ≡ s.handler j)

-- A step gives a request to a handler without one, which has eight steps left at most, or it brings
-- the handler that takes it nearer to its answer; and the other handlers stay.
abbrev pub Nears : (ℕ → Handler) → (ℕ → Handler) → Type 0
Nears f g =
    (i : ℕ) × (((f i ≡ idle) × (rank (g i) ≡ 8)) ⊎ (rank (g i) < rank (f i)))
    × ((j : ℕ) → i ≢ j → g j ≡ f j)

module _ (c : Codec) (s : Server) (i : ℕ) where
  advanced :
      (h h' : Handler) (more : List Entry) (mem : State)
      → s.handler i ≡ h
      → Step c s more (record { mem = mem; handler = update s.handler i h' })
      → rank h' < rank h
      → Advances c s
  advanced h h' more mem at st less = (
    i,
    more,
    record { mem = mem; handler = update s.handler i h' },
    st,
    rw (ap rank (update_self s.handler i h'), at) less,
    update_other s.handler i h',
  )

  advance_accepted :
      (q : Request) (p : Plan) → s.handler i ≡ accepted q → plan c q ≡ p → Advances c s
  advance_accepted q (direct resp) at h =
      advanced _ _ _ _ at (Step.refuse i q resp at h) (omega arith)
  advance_accepted q (needs_lock job) at h =
      advanced _ _ _ _ at (Step.queue i q job at h) (omega arith)
  advance_accepted q needs_rlock at h = advanced _ _ _ _ at (Step.queue_read i q at h) (omega arith)

  -- A handler that does not wait for `mu`.
  advance_free : (h : Handler) → s.handler i ≡ h → 0 < rank h → waits h ≡ false → Advances c s
  advance_free idle at busy free = absurd (omega arith)
  advance_free (accepted q) at busy free = advance_accepted q (plan c q) at refl
  advance_free (locked q job) at busy free =
      advanced _ _ _ _ at (Step.count i q job at) (omega arith)
  advance_free (counted q job) at busy free =
      advanced _ _ _ _ at (Step.number i q job at) (omega arith)
  advance_free (numbered q job n) at busy free =
      advanced _ _ _ _ at (Step.store i q job n at) (omega arith)
  advance_free (stored q job n) at busy free =
      advanced _ _ _ _ at (Step.unlock i q job n at) (omega arith)
  advance_free (unlocked q job n) at busy free =
      advanced _ _ _ _ at (Step.respond i q job n at) (omega arith)
  advance_free rlocked at busy free = advanced _ _ _ _ at (Step.copy_count i at) (omega arith)
  advance_free (copied_count n) at busy free =
      advanced _ _ _ _ at (Step.copy_greeting i n at) (omega arith)
  advance_free (copied_greeting n t) at busy free =
      advanced _ _ _ _ at (Step.copy_farewells i n t at) (omega arith)
  advance_free (copied_farewells n t m) at busy free =
      advanced _ _ _ _ at (Step.copy_farewell i n t m at) (omega arith)
  advance_free (copied st) at busy free = advanced _ _ _ _ at (Step.runlock i st at) (omega arith)
  advance_free (runlocked st) at busy free = advanced _ _ _ _ at (Step.report i st at) (omega arith)
  advance_free (at_lock q job) at busy free = absurd (cc)
  advance_free at_rlock at busy free = absurd (cc)
  advance_free (answered q resp) at busy free = absurd (omega arith)

  -- Where none holds `mu`, who waits for it gets it.
  advance_waiting :
      (h : Handler)
      → s.handler i ≡ h
      → waits h ≡ true
      → ((j : ℕ) → holds (s.handler j) ≡ false)
      → Advances c s
  advance_waiting (at_lock q job) at _ free =
      advanced _ _ _ _ at
        (Step.lock i q job at (λ j. (ground (arith, free j), ground (arith, free j)))) (omega arith)
  advance_waiting at_rlock at _ free =
      advanced _ _ _ _ at (Step.rlock i at (λ j. ground (arith, free j))) (omega arith)
  advance_waiting _ at wait free = ground (arith, wait)

holds-busy : (h : Handler) → holds h ≡ true → (0 < rank h) × (waits h ≡ false)
holds-busy idle held = ground (arith, held)
holds-busy _ held = ground (arith, held)

search_below : (g : ℕ → Bool) (n : ℕ) → ((j : ℕ) × (g j ≡ true)) ⊎ ((j : ℕ) → j < n → g j ≡ false)
search_below g zero = inr (λ j small. absurd (omega arith))
search_below g (suc n) = elim (search_below g n) [
  | inl found ↦ inl found
  | inr none_below ↦ elim (Bool-cases (g n)) [
    | inl here ↦ inl (n, here)
    | inr not_here ↦ inr (λ j small. elim (dec_lt j n) [
      | yes below ↦ none_below j below
      | no last ↦ let e : n ≡ j = omega arith in ap g (sym e) ∙ not_here
    ])
  ]
]

nearer :
    (f : ℕ → Handler) (i : ℕ) (h h' : Handler)
    → f i ≡ h
    → rank h' < rank h
    → Nears f (update f i h')
nearer f i h h' at less = (i, inr (rw (ap rank (update_self f i h'), at) less), update_other f i h')

Step-Nears :
    {c : Codec} {s t : Server} {more : List Entry} → Step c s more t → Nears s.handler t.handler
Step-Nears {s = s} (Step.arrive i q at) =
    (i, inl (at, ap rank (update_self s.handler i (accepted q))), update_other s.handler i _)
Step-Nears {s = s} (Step.refuse i q resp at h) = nearer s.handler i _ _ at (omega arith)
Step-Nears {s = s} (Step.queue i q job at h) = nearer s.handler i _ _ at (omega arith)
Step-Nears {s = s} (Step.queue_read i q at h) = nearer s.handler i _ _ at (omega arith)
Step-Nears {s = s} (Step.lock i q job at h) = nearer s.handler i _ _ at (omega arith)
Step-Nears {s = s} (Step.count i q job at) = nearer s.handler i _ _ at (omega arith)
Step-Nears {s = s} (Step.number i q job at) = nearer s.handler i _ _ at (omega arith)
Step-Nears {s = s} (Step.store i q job n at) = nearer s.handler i _ _ at (omega arith)
Step-Nears {s = s} (Step.unlock i q job n at) = nearer s.handler i _ _ at (omega arith)
Step-Nears {s = s} (Step.respond i q job n at) = nearer s.handler i _ _ at (omega arith)
Step-Nears {s = s} (Step.rlock i at h) = nearer s.handler i _ _ at (omega arith)
Step-Nears {s = s} (Step.copy_count i at) = nearer s.handler i _ _ at (omega arith)
Step-Nears {s = s} (Step.copy_greeting i n at) = nearer s.handler i _ _ at (omega arith)
Step-Nears {s = s} (Step.copy_farewells i n t at) = nearer s.handler i _ _ at (omega arith)
Step-Nears {s = s} (Step.copy_farewell i n t m at) = nearer s.handler i _ _ at (omega arith)
Step-Nears {s = s} (Step.runlock i st at) = nearer s.handler i _ _ at (omega arith)
Step-Nears {s = s} (Step.report i st at) = nearer s.handler i _ _ at (omega arith)

-- Only so many handlers have a request.
Reach-few :
    {c : Codec} {first : State} {log : List Entry} {s : Server}
    → Reach c first log s
    → (n : ℕ) × ((j : ℕ) → n ≤ j → s.handler j ≡ idle)
Reach-few start = (0, λ j large. refl)
Reach-few (next r st) =
    let (n, few) = Reach-few r in
    let (i, _, same) = Step-Nears st in
    (n + suc i, λ j large. same j (λ e. omega (arith, e)) ∙ few j (omega arith))

advance_busy :
    (c : Codec) (first : State) {log : List Entry} {s : Server}
    → Reach c first log s
    → (i : ℕ) → 0 < rank (s.handler i)
    → Advances c s
advance_busy c first {s = s} r i busy = elim (Bool-cases (waits (s.handler i))) [
  | inr free ↦ advance_free c s i (s.handler i) refl busy free
  | inl waiting ↦
      let (n, few) = Reach-few r in
      elim (search_below (λ j. holds (s.handler j)) n) [
        | inl (k, held) ↦
            let (more, free) = holds-busy (s.handler k) held in
            advance_free c s k (s.handler k) refl more free
        | inr none_below ↦ advance_waiting c s i (s.handler i) refl waiting (λ j.
            elim (dec_lt j n) [
              | yes below ↦ none_below j below
              | no above ↦ ap holds (few j (omega arith))
            ])
      ]
]

-- No deadlock and no livelock: in every server that can be reached, as long as some handler has a
-- request and has not answered, some handler can take a step that leaves it fewer steps to its answer,
-- and leaves all others as they are; and every step that can be taken either gives a request to a
-- handler without one, which then has eight steps to its answer at most, or leaves the handler that
-- takes it fewer, and it leaves all others as they are.
pub Reach-Advances :
    (c : Codec) (first : State) {log : List Entry} {s : Server}
    → Reach c first log s
    → ((i : ℕ) → 0 < rank (s.handler i) → Advances c s)
      × ((more : List Entry) (t : Server) → Step c s more t → Nears s.handler t.handler)
Reach-Advances c first r = (advance_busy c first r, λ more t st. Step-Nears st)
