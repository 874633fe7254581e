-- ===== src/Io/Loop.antt =====
-- A loop with a counter whose round ends it with a result or goes on, and what is done when the
-- rounds run out.
use quietfill.Prelude.{
  ℕ, zero, suc, ◌+◌, ◌-◌, ◌<◌, ◌≡◌, ◌∙◌, ap, refl, sym, String, ◌⊎◌, inl, inr, arith,
}
use quietfill.World.{Reply, ok, fail as error}
use quietfill.Io.{Io, return, ◌>>=◌}
use quietfill.Io.Success.{>>=_success, return-ok}

module _ {S X A : Type 0} where
  abbrev pub next : (X → Io S A) → X ⊎ A → Io S A
  next continue (inl x) = continue x
  next continue (inr a) = return a

  -- `for i := 0; i < n; i++ { round }`, then `ending`; `x` is what the rounds assign.
  unfoldable pub loop : ℕ → (X → Io S (X ⊎ A)) → (X → Io S A) → X → Io S A
  loop zero round ending x = ending x
  loop (suc n) round ending x = round x >>= next (loop n round ending)

  -- So many rounds from one state to another, none of which ends the loop.
  pub data Rounds (round : X → Io S (X ⊎ A)) : ℕ → X → S → X → S → Type 0 where
    start : {x : X} {s : S} → Rounds round 0 x s x s
    again :
        {n : ℕ} {x y z : X} {s s₁ s₂ : S}
        → round x s ≡ (ok (inl y), s₁)
        → Rounds round n y s₁ z s₂
        → Rounds round (suc n) x s z s₂

  module _ (round : X → Io S (X ⊎ A)) (ending : X → Io S A) where
    abbrev pub proceed : (X → Io S A) → Reply (X ⊎ A) × S → Reply A × S
    proceed continue (ok (inl x), s) = continue x s
    proceed continue (ok (inr a), s) = (ok a, s)
    proceed continue (error e, s) = (error e, s)

    proceed-next :
        (continue : X → Io S A) {x : X} {s : S} (out : Reply (X ⊎ A) × S)
        → round x s ≡ out
        → (round x >>= next continue) s ≡ proceed continue out
    unfolding ◌>>=◌ return
    proceed-next continue (ok (inl x), s) h = rw h refl
    proceed-next continue (ok (inr a), s) h = rw h refl
    proceed-next continue (error e, s) h = rw h refl

    loop_step :
        (n : ℕ) {x : X} {s : S} (out : Reply (X ⊎ A) × S)
        → round x s ≡ out
        → loop (suc n) round ending x s ≡ proceed (loop n round ending) out
    unfolding loop
    loop_step n out h = proceed-next (loop n round ending) out h

    -- The rounds that do not end the loop, and what it does after them.
    pub loop-Rounds :
        (n : ℕ) {k : ℕ} {x y : X} {s s' : S}
        → Rounds round k x s y s'
        → loop (k + n) round ending x s ≡ loop n round ending y s'
    loop-Rounds n (start {x} {s}) =
        let none_left : 0 + n ≡ n = omega arith in ap (λ (m : ℕ). loop m round ending x s) none_left
    loop-Rounds n (again {n = k} {x = x} {s = s} here later) =
        let one_more : suc k + n ≡ suc (k + n) = omega arith in
        ap (λ (m : ℕ). loop m round ending x s) one_more
        ∙ loop_step (k + n) _ here
        ∙ loop-Rounds n later

    -- A round that comes in time and has a result ends the loop with it.
    pub loop-first :
        (n : ℕ) {k : ℕ} {x y : X} {s s₁ s₂ : S} {a : A}
        → Rounds round k x s y s₁
        → k < n
        → round y s₁ ≡ (ok (inr a), s₂)
        → loop n round ending x s ≡ (ok a, s₂)
    loop-first n {k} {x} {y} {s} {s₁} before early here =
        let left : k + suc (n - suc k) ≡ n = omega arith in
        ap (λ (m : ℕ). loop m round ending x s) (sym left)
        ∙ loop-Rounds (suc (n - suc k)) before
        ∙ loop_step (n - suc k) _ here

    -- Where no round ends the loop, the ending does.
    pub loop-last :
        (n : ℕ) {x y : X} {s s' : S}
        → Rounds round n x s y s'
        → loop n round ending x s ≡ ending y s'
    loop-last n {x} {y} {s} {s'} before =
        let all : n + 0 ≡ n = omega arith in
        ap (λ (m : ℕ). loop m round ending x s) (sym all)
        ∙ loop-Rounds 0 before
        ∙ unfold loop in refl

    -- A round below the bound, after rounds that end nothing, that has the result.
    abbrev pub Found : ℕ → X → S → A → S → Type 0
    Found n x s a s' =
        (k : ℕ) × (k < n)
        × (y : X) × (s₁ : S) × Rounds round k x s y s₁
        × (round y s₁ ≡ (ok (inr a), s'))

    Found-suc :
        (n : ℕ) (step : X ⊎ A) {x : X} {s s₁ s' : S} {a : A}
        → ((y : X) → loop n round ending y s₁ ≡ (ok a, s') → Found n y s₁ a s')
        → round x s ≡ (ok step, s₁)
        → next (loop n round ending) step s₁ ≡ (ok a, s')
        → Found (suc n) x s a s'
    Found-suc n (inl y) later here h =
        let (k, early, z, s₂, before, last) = later y h in
        (suc k, omega arith, z, s₂, again here before, last)
    Found-suc n (inr b) {x} {s} {s₁} {a = a} later here h =
        let (same, at) = return-ok h in
        (
          0,
          omega arith,
          x,
          s,
          start,
          here ∙ ap (λ (r : A). (ok (inr r), s₁)) same ∙ ap (λ (t : S). (ok (inr a), t)) at,
        )

    -- Where the ending is an error, a result comes from one of the rounds.
    pub loop-ok :
        ((x : X) (s : S) → (e : String) × ((ending x s).0 ≡ error e))
        → (n : ℕ) {x : X} {s s' : S} {a : A} → loop n round ending x s ≡ (ok a, s')
        → Found n x s a s'
    unfolding loop
    loop-ok fails zero {x} {s} h =
        let (e, failed) = fails x s in ground (arith, sym failed ∙ ap (λ (t : Reply A × S). t.0) h)
    loop-ok fails (suc n) h =
        >>=_success _ _ h λ step s₁ here later. Found-suc n step (λ y. loop-ok fails n) here later
