-- ===== src/Extension/Threads/Kept.antt =====
-- The invariant after a step of one handler: what is left to show of that handler, for the kinds of
-- step that there are.
use quietfill.Prelude.{
  ℕ, ◌≡◌, ◌≢◌, ◌∙◌, ap, refl, sym, subst, Bool, true, false, List, [], ◌∷◌, ◌++◌, append-nil, eqb,
  arith, inl, inr, Bool-cases,
}
use quietfill.Wire.{Codec, State, Response}
use quietfill.Extension.Serve.{serve_one, serve}
use quietfill.Extension.Threads.{Handler, writes, update, Server, Entry, set_fields, move}
use quietfill.Extension.Threads.Logged.{after, Lacks, Distinct-append, Serial-append, after-append}
use quietfill.Extension.Threads.Invariant.{
  View, Recorded, holds, Exclusive, NoWriter, Inv, View-frame, Recorded-append, update_self,
  update_each, update_only,
}

not_true : (b : Bool) → (b ≢ true) → b ≡ false
not_true true ne = absurd (ne refl)
not_true false ne = refl

-- A family of handlers without a writer excludes.
pub NoWriter-Exclusive : (f : ℕ → Handler) → NoWriter f → Exclusive f
NoWriter-Exclusive f none_writes i j w = ground (arith, none_writes i, w)

module _ (c : Codec) {first : State} {log : List Entry} {s : Server} (inv : Inv c first log s)
    (i : ℕ) where
  abbrev base : State
  base = after c first log

  pub View-of : (old : Handler) → s.handler i ≡ old → View c s.mem base old
  View-of old at = subst (λ t. View c s.mem (after c first log) t) at (inv.view i)

  pub Recorded-of : (old : Handler) → s.handler i ≡ old → Recorded c log i old
  Recorded-of old at = subst (λ t. Recorded c log i t) at (inv.recorded i)

  others_free : writes (s.handler i) ≡ true → (j : ℕ) → i ≢ j → holds (s.handler j) ≡ false
  others_free w j ne = not_true (holds (s.handler j)) (λ held. ne (inv.exclusive i j w held))

  module _ (mem : State) (h : Handler) where
    -- A step that logs nothing.
    Inv-silent :
        View c mem base h
        → Recorded c log i h
        → ((j : ℕ) → i ≢ j → View c mem base (s.handler j))
        → Exclusive (update s.handler i h)
        → (NoWriter (update s.handler i h) → mem ≡ base)
        → Inv c first (log ++ []) (set_fields s i mem h)
    Inv-silent seen kept others alone quiet =
        subst (λ l. Inv c first l (set_fields s i mem h)) (sym (append-nil log))
          (record {
            serial = inv.serial;
            distinct = inv.distinct;
            view = update_each s.handler i h (λ j t. View c mem (after c first log) t) seen others;
            recorded =
                update_each s.handler i h (λ j t. Recorded c log j t) kept (λ j ne. inv.recorded j);
            exclusive = alone;
            settled = quiet;
          })

    -- A step that logs an entry of the handler.
    Inv-logged :
        (e : Entry)
        → e.by ≡ i
        → Lacks i log
        → (serve_one c base e.request).1 ≡ e.response
        → View c mem (serve_one c base e.request).0 h
        → Recorded c (log ++ e ∷ []) i h
        → ((j : ℕ) → i ≢ j → View c mem (serve_one c base e.request).0 (s.handler j))
        → Exclusive (update s.handler i h)
        → (NoWriter (update s.handler i h) → mem ≡ (serve_one c base e.request).0)
        → Inv c first (log ++ e ∷ []) (set_fields s i mem h)
    unfolding serve
    Inv-logged e own lacks right seen kept others alone quiet =
        let grown = after-append c first log (e ∷ []) in
        record {
          serial = Serial-append c first log (e ∷ []) inv.serial (right, tt);
          distinct = Distinct-append log e inv.distinct (subst (λ k. Lacks k log) (sym own) lacks);
          view =
              subst (λ b. (j : ℕ) → View c mem b (update s.handler i h j)) (sym grown)
                (update_each s.handler i h
                  (λ j t. View c mem (serve_one c (after c first log) e.request).0 t) seen others);
          recorded =
              update_each s.handler i h (λ j t. Recorded c (log ++ e ∷ []) j t) kept
                (λ j ne.
                  Recorded-append c log e j (s.handler j) (λ q. ne (sym own ∙ q)) (inv.recorded j));
          exclusive = alone;
          settled = λ q. quiet q ∙ sym grown;
        }

    -- What a step of a writer needs of the others.
    others_seen :
        (b : State) → writes (s.handler i) ≡ true → (j : ℕ) → i ≢ j → View c mem b (s.handler j)
    others_seen b w j ne =
        View-frame c s.mem base mem b (s.handler j) (others_free w j ne) (inv.view j)

    Exclusive-kept :
        (writes h ≡ true → writes (s.handler i) ≡ true)
        → (holds h ≡ true → holds (s.handler i) ≡ true)
        → Exclusive (update s.handler i h)
    Exclusive-kept w held j k wj hk =
        inv.exclusive j k (update_only s.handler i h writes w j wj)
          (update_only s.handler i h holds held k hk)

  module _ (old h : Handler) (at : s.handler i ≡ old) where
    same_test : (g : Handler → Bool) {b : Bool} → g old ≡ b → g (s.handler i) ≡ b
    same_test g e = ap g at ∙ e

    -- The handlers do not write after a step only if they did not before, where this one did not.
    NoWriter-before : writes old ≡ false → NoWriter (update s.handler i h) → NoWriter s.handler
    NoWriter-before idle_old q j = elim (Bool-cases (eqb i j)) [
      | inl same ↦
          let e : i ≡ j = ground arith in
          subst (λ k. writes (s.handler k) ≡ false) e (same_test writes idle_old)
      | inr other ↦ rw other at (q j)
    ]

    -- A step that leaves the shared fields, of a handler that does not write.
    pub Inv-private :
        writes old ≡ false
        → writes h ≡ false
        → (holds h ≡ true → holds old ≡ true)
        → View c s.mem base h
        → Recorded c log i h
        → Inv c first (log ++ []) (move s i h)
    Inv-private idle_old idle_new held seen kept =
        Inv-silent s.mem h seen kept (λ j ne. inv.view j)
          (Exclusive-kept s.mem h (λ w. ground (arith, w, idle_new))
            (λ q. same_test holds (held q)))
          (λ q. inv.settled (NoWriter-before idle_old q))

    -- A step of a handler that writes, and goes on writing.
    pub Inv-writing :
        (mem : State)
        → writes old ≡ true
        → writes h ≡ true
        → View c mem base h
        → Recorded c log i h
        → Inv c first (log ++ []) (set_fields s i mem h)
    Inv-writing mem busy still seen kept =
        let busy_here = same_test writes busy in
        Inv-silent mem h seen kept (others_seen mem h base busy_here)
          (Exclusive-kept mem h (λ w. busy_here) (λ q. rw busy_here refl))
          (λ q.
            let idle_here = q i in
            ground (arith, idle_here, still, ap writes (update_self s.handler i h)))

    -- A step that logs a request which changes nothing.
    pub Inv-answers :
        (e : Entry)
        → e.by ≡ i
        → writes old ≡ false
        → holds h ≡ false
        → Lacks i log
        → serve_one c base e.request ≡ (base, e.response)
        → View c s.mem base h
        → Recorded c (log ++ e ∷ []) i h
        → Inv c first (log ++ e ∷ []) (move s i h)
    Inv-answers e own idle_old free lacks served seen kept =
        let unchanged = ap (λ (p : State × Response). p.0) served in
        Inv-logged s.mem h e own lacks (ap (λ (p : State × Response). p.1) served)
          (subst (λ b. View c s.mem b h) (sym unchanged) seen) kept
          (λ j ne. subst (λ b. View c s.mem b (s.handler j)) (sym unchanged) (inv.view j))
          (Exclusive-kept s.mem h (λ w. ground (arith, w, free)) (λ q. ground (arith, q, free)))
          (λ q. inv.settled (NoWriter-before idle_old q) ∙ sym unchanged)

    -- The Unlock of a handler that has written what its request does.
    pub Inv-unlocks :
        (e : Entry)
        → e.by ≡ i
        → writes old ≡ true
        → holds h ≡ false
        → Lacks i log
        → serve_one c base e.request ≡ (s.mem, e.response)
        → View c s.mem s.mem h
        → Recorded c (log ++ e ∷ []) i h
        → Inv c first (log ++ e ∷ []) (move s i h)
    Inv-unlocks e own busy free lacks served seen kept =
        let changed = ap (λ (p : State × Response). p.0) served in
        let busy_here = same_test writes busy in
        Inv-logged s.mem h e own lacks (ap (λ (p : State × Response). p.1) served)
          (subst (λ b. View c s.mem b h) (sym changed) seen) kept
          (others_seen s.mem h (serve_one c base e.request).0 busy_here)
          (Exclusive-kept s.mem h (λ w. ground (arith, w, free)) (λ q. ground (arith, q, free)))
          (λ q. sym changed)

    -- Lock and RLock.
    pub Inv-locks :
        ((j : ℕ) → holds (s.handler j) ≡ false)
        → writes h ≡ true
        → View c s.mem base h
        → Recorded c log i h
        → Inv c first (log ++ []) (move s i h)
    Inv-locks free busy seen kept =
        Inv-silent s.mem h seen kept (λ j ne. inv.view j)
          (λ j k wj hk.
            let only = λ (n : ℕ) (q : holds (update s.handler i h n) ≡ true). holder free n q in
            sym (only j (ground (arith, wj))) ∙ only k hk)
          (λ q.
            let idle_here = q i in
            ground (arith, idle_here, busy, ap writes (update_self s.handler i h)))
      where
        holder :
            ((j : ℕ) → holds (s.handler j) ≡ false)
            → (n : ℕ) → holds (update s.handler i h n) ≡ true
            → i ≡ n
        holder free n q = elim (Bool-cases (eqb i n)) [
          | inl same ↦ ground (arith, same)
          | inr other ↦ ground (arith, free n, rw other at q)
        ]

    pub Inv-rlocks :
        NoWriter s.handler
        → writes h ≡ false
        → View c s.mem base h
        → Recorded c log i h
        → Inv c first (log ++ []) (move s i h)
    Inv-rlocks none_writes idle_new seen kept =
        Inv-silent s.mem h seen kept (λ j ne. inv.view j)
          (NoWriter-Exclusive (update s.handler i h)
            (update_each s.handler i h (λ j t. writes t ≡ false) idle_new (λ j ne. none_writes j)))
          (λ q. inv.settled none_writes)

    -- While a handler reads, none writes.
    pub NoWriter-reading : writes old ≡ false → holds old ≡ true → NoWriter s.handler
    NoWriter-reading idle_old held j = not_true (writes (s.handler j)) λ w.
        let e : j ≡ i = inv.exclusive j i w (same_test holds held) in
        let busy : writes (s.handler i) ≡ true = subst (λ k. writes (s.handler k) ≡ true) e w in
        ground (arith, busy, same_test writes idle_old)
