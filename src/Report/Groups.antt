-- ===== src/Report/Groups.antt =====
-- What `Fprint` writes: every result once, under the heading of its step.
use mathlib.Core.List.{Perm, perm_middle}
use mathlib.Core.List.Perm
use quietfill.Prelude.{
  String, Bool, true, false, not, ◌&&◌, ◌≡◌, ◌∙◌, refl, sym, ap, subst, List, [], ◌∷◌, ◌++◌, map,
  any, keep_if, All, arith, eq_iff, eq_refl, Bool-cases, inl, inr, ◌==◌, if◌then◌else◌, sprintf,
}
use mathlib.Core.Path.{fun_ext}
use quietfill.Report.{CheckResult, Report, summary}
use quietfill.Report.Print.{first_steps, print_result, print_results, print_step, fprint, heading}

abbrev pub of_step : String → CheckResult → Bool
of_step step res = res.step == step

-- The results of each of the steps, step by step.
abbrev pub grouped : List String → List CheckResult → List CheckResult
grouped [] results = []
grouped (step ∷ steps) results = keep_if (of_step step) results ++ grouped steps results

abbrev pub among : String → List String → Bool
among step steps = any (λ s. s == step) steps

-- The step stands in the list, and once.
abbrev pub once : String → List String → Bool
once step [] = false
once step (s ∷ steps) = if s == step then not (among step steps) else once step steps

grouped-lacks :
    (steps : List String) (x : CheckResult) (xs : List CheckResult)
    → among x.step steps ≡ false
    → grouped steps (x ∷ xs) ≡ grouped steps xs
grouped-lacks [] x xs h = refl
grouped-lacks (s ∷ steps) x xs h =
    ground (arith, grouped-lacks steps x xs, eq_iff s x.step, eq_iff x.step s)

grouped-once :
    (steps : List String) (x : CheckResult) (xs : List CheckResult)
    → once x.step steps ≡ true
    → Perm (grouped steps (x ∷ xs)) (x ∷ grouped steps xs)
grouped-once [] x xs h = absurd (cc)
grouped-once (s ∷ steps) x xs h = elim (Bool-cases (x.step == s)) [
  | inl e ↦
      let p : x.step ≡ s = (eq_iff x.step s).0 e in
      let lacks : among x.step steps ≡ false = ground (arith, eq_iff s x.step) in
      rw (e, grouped-lacks steps x xs lacks) (Perm.refl _)
  | inr e ↦
      let rest : once x.step steps ≡ true = ground (arith, eq_iff s x.step, eq_iff x.step s) in
      rw e (
        Perm.trans (Perm.append_left (keep_if (of_step s) xs) (grouped-once steps x xs rest))
          (perm_middle (keep_if (of_step s) xs) (grouped steps xs)))
]

grouped-perm :
    (steps : List String) (xs : List CheckResult)
    → All (λ x. once x.step steps ≡ true) xs
    → Perm (grouped steps xs) xs
grouped-perm steps [] h = subst (λ l. Perm l []) (sym (grouped-nil steps)) (Perm.refl [])
  where
    grouped-nil : (ss : List String) → grouped ss [] ≡ []
    grouped-nil [] = refl
    grouped-nil (s ∷ ss) = grouped-nil ss
grouped-perm steps (x ∷ xs) (o, h) =
    Perm.trans (grouped-once steps x xs o) (Perm.cons x (grouped-perm steps xs h))

first_steps-cons :
    (seen : List String) (x : CheckResult) (xs : List CheckResult)
    → first_steps seen (x ∷ xs)
      ≡ (if among x.step seen then first_steps seen xs else x.step ∷ first_steps (x.step ∷ seen) xs)
unfolding first_steps
first_steps-cons seen x xs = ground arith

-- A step that was seen is not listed again.
first_steps_seen :
    (s : String) (seen : List String) (xs : List CheckResult)
    → among s seen ≡ true
    → among s (first_steps seen xs) ≡ false
first_steps_seen s seen [] h = unfold first_steps in refl
first_steps_seen s seen (x ∷ xs) h = rw first_steps-cons (
    ground
      (arith, eq_iff x.step s, first_steps_seen s seen xs, first_steps_seen s (x.step ∷ seen) xs))

-- A step of some result is listed once, unless it was seen.
first_steps-once :
    (s : String) (seen : List String) (xs : List CheckResult)
    → among s seen ≡ false
    → any (of_step s) xs ≡ true
    → once s (first_steps seen xs) ≡ true
first_steps-once s seen [] h m = absurd (cc)
first_steps-once s seen (x ∷ xs) h m = rw first_steps-cons (
    ground (
      arith,
      eq_iff x.step s,
      eq_refl s,
      first_steps_seen s (x.step ∷ seen) xs,
      first_steps-once s seen xs,
      first_steps-once s (x.step ∷ seen) xs,
    ))

module _ {P Q : CheckResult → Type 0} (weaken : (x : CheckResult) → P x → Q x) where
  All-weaken : (xs : List CheckResult) → All P xs → All Q xs
  All-weaken [] h = tt
  All-weaken (x ∷ xs) (p, h) = (weaken x p, All-weaken xs h)

-- Each result has a result of its step in the list: itself.
All-any : (xs : List CheckResult) → All (λ x. any (of_step x.step) xs ≡ true) xs
All-any [] = tt
All-any (x ∷ xs) =
    (ground (arith, eq_refl x.step), All-weaken (λ y h. ground arith) xs (All-any xs))

print_results-eq :
    (step : String) (xs : List CheckResult)
    → print_results step xs ≡ map print_result (keep_if (of_step step) xs)
unfolding print_results
print_results-eq step [] = refl
print_results-eq step (x ∷ xs) = elim (Bool-cases (of_step step x)) [
  | inl e ↦ rw e (ap (λ l. print_result x ∷ l) (print_results-eq step xs))
  | inr e ↦ rw e (print_results-eq step xs)
]

-- The block of one step: its heading, then its results in order.
abbrev pub block : List CheckResult → String → String
block results step =
    sprintf (
      heading step
      ∷ ":\n"
      ∷ sprintf (map print_result (keep_if (of_step step) results))
      ∷ "\n"
      ∷ [])

print_step-eq : (xs : List CheckResult) (step : String) → print_step xs step ≡ block xs step
unfolding print_step
print_step-eq xs step =
    ap (λ (l : List String). sprintf (heading step ∷ ":\n" ∷ sprintf l ∷ "\n" ∷ []))
      (print_results-eq step xs)

-- The steps in the order of their first results: that of the first result, and then those of the
-- others, without it.
abbrev pub firsts : List CheckResult → List String
firsts [] = []
firsts (x ∷ xs) = x.step ∷ keep_if (λ s. not (s == x.step)) (firsts xs)

keep_if_twice :
    (p q r : String → Bool) (xs : List String)
    → ((x : String) → (p x && q x) ≡ r x)
    → keep_if q (keep_if p xs) ≡ keep_if r xs
keep_if_twice p q r [] h = refl
keep_if_twice p q r (x ∷ xs) h = elim (Bool-cases (p x)) [
  | inl kept ↦
      let same : q x ≡ r x = ground (arith, h x) in
      elim (Bool-cases (q x)) [
        | inl e ↦
            let e' : r x ≡ true = ground (arith, same) in
            rw (kept, e, e') (ap (λ l. x ∷ l) (keep_if_twice p q r xs h))
        | inr e ↦
            let e' : r x ≡ false = ground (arith, same) in
            rw (kept, e, e') (keep_if_twice p q r xs h)
      ]
  | inr dropped ↦
      let e : r x ≡ false = ground (arith, h x) in rw (dropped, e) (keep_if_twice p q r xs h)
]

among-cons :
    (seen : List String) (x s : String)
    → (not (s == x) && not (among s seen)) ≡ not (among s (x ∷ seen))
among-cons seen x s = ground (arith, eq_iff s x, eq_iff x s)

among-seen :
    (seen : List String) (x s : String)
    → among x seen ≡ true
    → (not (s == x) && not (among s seen)) ≡ not (among s seen)
among-seen seen x s h = elim (Bool-cases (s == x)) [
  | inl e ↦
      let same : s ≡ x = (eq_iff s x).0 e in
      let here : among s seen ≡ true = ap (λ y. among y seen) same ∙ h in rw (e, here) refl
  | inr e ↦ rw e refl
]

first_steps-firsts :
    (seen : List String) (xs : List CheckResult)
    → first_steps seen xs ≡ keep_if (λ s. not (among s seen)) (firsts xs)
first_steps-firsts seen [] = unfold first_steps in refl
first_steps-firsts seen (x ∷ xs) =
    first_steps-cons seen x xs ∙ elim (Bool-cases (among x.step seen)) [
      | inl old ↦ rw old (
          first_steps-firsts seen xs
          ∙ sym (
              keep_if_twice (λ s. not (s == x.step)) (λ s. not (among s seen))
                (λ s. not (among s seen)) (firsts xs) (λ s. among-seen seen x.step s old)))
      | inr new ↦ rw new (
          ap (λ l. x.step ∷ l)
            (first_steps-firsts (x.step ∷ seen) xs
              ∙ sym (
                  keep_if_twice (λ s. not (s == x.step)) (λ s. not (among s seen))
                    (λ s. not (among s (x.step ∷ seen))) (firsts xs)
                    (λ s. among-cons seen x.step s))))
    ]

keep_if_all : (xs : List String) → keep_if (λ s. true) xs ≡ xs
keep_if_all [] = refl
keep_if_all (x ∷ xs) = ap (λ l. x ∷ l) (keep_if_all xs)

first_steps-all : (xs : List CheckResult) → first_steps [] xs ≡ firsts xs
first_steps-all xs = first_steps-firsts [] xs ∙ keep_if_all (firsts xs)

-- Fprint writes the title, one block for each step in the order of first appearance, which is that of
-- the first result and then those of the other results without it, and the summary; and the results
-- of the blocks, one after the other, are those of the report, each as often as it stands there.
pub fprint_lem :
    (r : Report)
    → (fprint r
        ≡ sprintf (
            "\n"
            ∷ "\u{1b}[36m"
            ∷ "=== Deployment Verification Report ==="
            ∷ "\u{1b}[0m"
            ∷ "\n\n"
            ∷ sprintf (map (block r.results) (firsts r.results))
            ∷ summary r
            ∷ "\n"
            ∷ []))
      × Perm (grouped (firsts r.results) r.results) r.results
unfolding fprint
fprint_lem r = (
  rw (fun_ext (print_step-eq r.results), first_steps-all r.results),
  subst (λ steps. Perm (grouped steps r.results) r.results) (first_steps-all r.results)
      (grouped-perm (first_steps [] r.results) r.results (
        All-weaken (λ x h. first_steps-once x.step [] r.results refl h) r.results
          (All-any r.results))),
)
