-- ===== src/Extension/Threads/Invariant.antt =====
-- What holds of every server that can be reached: who holds `mu`, what each handler has seen, and
-- what is logged.
use quietfill.Prelude.{
  ℕ, ◌≡◌, ◌≢◌, refl, subst, Bool, true, false, ◌||◌, List, [], ◌∷◌, ◌++◌, eqb, arith, inl, inr,
  Bool-cases,
}
use quietfill.Wire.{Codec, State}
use quietfill.Extension.{state_handler}
use quietfill.Extension.Serve.{get_state}
use quietfill.Extension.Threads.{
  Handler, idle, accepted, at_lock, locked, counted, numbered, stored, unlocked, at_rlock,
  copied_count, copied_greeting, copied_farewells, copied, runlocked, answered, raise_count,
  number_of, store_text, reply_to, needs_lock, plan, writes, reads, update, Server, Entry,
}
use quietfill.Extension.Threads.Logged.{
  Serial, after, Has, Lacks, Distinct, Has-append, Lacks-append,
}

-- What a handler's local variables say of the shared fields; `base` is what the log leaves.
abbrev pub View : Codec → State → State → Handler → Type 0
View c mem base (at_lock r job) = plan c r ≡ needs_lock job
View c mem base (locked r job) = (plan c r ≡ needs_lock job) × (mem ≡ base)
View c mem base (counted r job) = (plan c r ≡ needs_lock job) × (mem ≡ raise_count job base)
View c mem base (numbered r job n) =
    (plan c r ≡ needs_lock job)
    × (mem ≡ raise_count job base)
    × (n ≡ number_of job (raise_count job base))
View c mem base (stored r job n) =
    (plan c r ≡ needs_lock job)
    × (mem ≡ store_text job (raise_count job base))
    × (n ≡ number_of job (raise_count job base))
View c mem base (copied_count n) = n ≡ mem.greeting_count
View c mem base (copied_greeting n t) = (n ≡ mem.greeting_count) × (t ≡ mem.last_greeting)
View c mem base (copied_farewells n t m) =
    (n ≡ mem.greeting_count) × (t ≡ mem.last_greeting) × (m ≡ mem.farewell_count)
View c mem base (copied st) = st ≡ mem
View c mem base _ = Unit {0}

-- A handler's entry is in the log once its request took effect, and not before.
abbrev pub Recorded : Codec → List Entry → ℕ → Handler → Type 0
Recorded c log i (unlocked r job n) =
    Has (record { by = i; request = r; response = reply_to c job n }) log
Recorded c log i (runlocked st) =
    Has (record { by = i; request = get_state; response = state_handler c st }) log
Recorded c log i (answered r resp) = Has (record { by = i; request = r; response = resp }) log
Recorded c log i _ = Lacks i log

abbrev pub holds : Handler → Bool
holds h = writes h || reads h

-- While one handler writes, no other holds `mu`.
abbrev pub Exclusive : (ℕ → Handler) → Type 0
Exclusive f = (i j : ℕ) → writes (f i) ≡ true → holds (f j) ≡ true → i ≡ j

abbrev pub NoWriter : (ℕ → Handler) → Type 0
NoWriter f = (j : ℕ) → writes (f j) ≡ false

pub record Inv (c : Codec) (first : State) (log : List Entry) (s : Server) : Type 0 where
  pub serial : Serial c first log
  pub distinct : Distinct log
  pub view : (j : ℕ) → View c s.mem (after c first log) (s.handler j)
  pub recorded : (j : ℕ) → Recorded c log j (s.handler j)
  pub exclusive : Exclusive s.handler
  pub settled : NoWriter s.handler → s.mem ≡ after c first log

pub View-frame :
    (c : Codec) (mem base mem' base' : State) (h : Handler)
    → holds h ≡ false
    → View c mem base h
    → View c mem' base' h
View-frame c mem base mem' base' idle free v = v
View-frame c mem base mem' base' (accepted r) free v = v
View-frame c mem base mem' base' (at_lock r job) free v = v
View-frame c mem base mem' base' (unlocked r job n) free v = v
View-frame c mem base mem' base' at_rlock free v = v
View-frame c mem base mem' base' (runlocked st) free v = v
View-frame c mem base mem' base' (answered r resp) free v = v
View-frame c mem base mem' base' _ free v = ground (arith, free)

pub Recorded-append :
    (c : Codec) (log : List Entry) (e : Entry) (j : ℕ) (h : Handler)
    → e.by ≢ j
    → Recorded c log j h
    → Recorded c (log ++ e ∷ []) j h
Recorded-append c log e j (unlocked r job n) ne h = Has-append _ log (e ∷ []) h
Recorded-append c log e j (runlocked st) ne h = Has-append _ log (e ∷ []) h
Recorded-append c log e j (answered r resp) ne h = Has-append _ log (e ∷ []) h
Recorded-append c log e j _ ne h = Lacks-append j log e h ne

pub update_other : (f : ℕ → Handler) (i : ℕ) (h : Handler) (j : ℕ) → i ≢ j → update f i h j ≡ f j
update_other f i h j ne = elim (Bool-cases (eqb i j)) [
  | inl same ↦ absurd (ne (ground (arith, same)))
  | inr other ↦ rw other refl
]

module _ (f : ℕ → Handler) (i : ℕ) (h : Handler) where
  pub update_self : update f i h i ≡ h
  update_self = ground arith

  pub update_each :
      (P : ℕ → Handler → Type 0)
      → P i h
      → ((j : ℕ) → i ≢ j → P j (f j))
      → (j : ℕ) → P j (update f i h j)
  update_each P here others j = elim (Bool-cases (eqb i j)) [
    | inl same ↦ let e : i ≡ j = ground arith in rw same (subst (λ k. P k h) e here)
    | inr other ↦ rw other (others j (λ e. ground (arith, e)))
  ]

  pub update_only :
      (g : Handler → Bool)
      → (g h ≡ true → g (f i) ≡ true)
      → (j : ℕ) → g (update f i h j) ≡ true
      → g (f j) ≡ true
  update_only g back = update_each (λ j t. g t ≡ true → g (f j) ≡ true) back (λ j ne now. now)
