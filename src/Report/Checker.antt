-- ===== src/Report/Checker.antt =====
-- A step of verification: it takes the report and returns it with its results added. A sequence of
-- `r.Add` calls is a `do` block of these.
use quietfill.Prelude.{
  Bool, true, false, ◌≡◌, refl, sym, ◌∙◌, ap, List, ◌++◌, append-nil, append_assoc, All, subst,
  All-append, if◌then◌else◌, ◌||◌, arith, [], ◌∷◌,
}
use quietfill.Report.{Report, CheckResult, empty, add, any_failure, has_failures}

abbrev pub Checker : Type 0
Checker = Report → Report

-- `r.Add(result)`.
unfoldable pub emit : CheckResult → Checker
unfolding add
emit x r = add r x

-- A branch that adds nothing, or an early return.
unfoldable pub done : Checker
done r = r

-- A block under an `if` with no `else`, and one that a `continue` may skip.
unfoldable pub when : Bool → Checker → Checker
unfolding done
when b c = if b then c else done

unfoldable pub unless : Bool → Checker → Checker
unfolding done
unless b c = if b then done else c

unfoldable pub branch : Bool → Checker → Checker → Checker
branch b c d = if b then c else d

infixl 5 ◌>>◌
unfoldable pub ◌>>◌ : Checker → Checker → Checker
f >> g = λ r. g (f r)

-- What a checker adds to an empty report.
abbrev pub added : Checker → List CheckResult
added c = (c empty).results

-- The checker only appends, always the same results, and `P` holds of each.
pub record Emits (P : CheckResult → Type 0) (c : Checker) : Type 0 where
  pub appends : (r : Report) → (c r).results ≡ r.results ++ added c
  pub entries : All P (added c)

module _ {P : CheckResult → Type 0} where
  pub Emits-emit : (x : CheckResult) → P x → Emits P (emit x)
  unfolding emit
  Emits-emit x p = record { appends = λ r. refl; entries = (p, tt) }

  pub Emits-done : Emits P done
  unfolding done
  Emits-done = record { appends = λ r. sym (append-nil r.results); entries = tt }

  pub Emits-if :
      (b : Bool) (f g : Checker)
      → (b ≡ true → Emits P f)
      → (b ≡ false → Emits P g)
      → Emits P (if b then f else g)
  Emits-if true f g hf hg = hf refl
  Emits-if false f g hf hg = hg refl

module _ {P : CheckResult → Type 0} where
  pub Emits-when : (b : Bool) {c : Checker} → Emits P c → Emits P (when b c)
  unfolding when
  Emits-when b {c} h = Emits-if b c done (λ _. h) (λ _. Emits-done)

  pub Emits-unless : (b : Bool) {c : Checker} → Emits P c → Emits P (unless b c)
  unfolding unless
  Emits-unless b {c} h = Emits-if b done c (λ _. Emits-done) (λ _. h)

  pub Emits-branch : (b : Bool) {c d : Checker} → Emits P c → Emits P d → Emits P (branch b c d)
  unfolding branch
  Emits-branch b {c} {d} h k = Emits-if b c d (λ _. h) (λ _. k)

-- The results of a sequence are those of its parts, one after the other.
pub added-then :
    {P Q : CheckResult → Type 0} (f g : Checker)
    → Emits P f
    → Emits Q g
    → added (f >> g) ≡ added f ++ added g
unfolding ◌>>◌
added-then f g hf hg = hg.appends (f empty)

module _ {P : CheckResult → Type 0} where
  pub Emits-then : {f g : Checker} → Emits P f → Emits P g → Emits P (f >> g)
  Emits-then {f} {g} hf hg = record {
    appends = λ r.
        unfold ◌>>◌ in
        hg.appends (f r)
        ∙ ap (λ l. l ++ added g) (hf.appends r)
        ∙ append_assoc r.results (added f) (added g)
        ∙ ap (λ l. r.results ++ l) (sym (hg.appends (f empty)));
    entries = subst (All P) (sym (added-then f g hf hg)) (All-append P _ _ hf.entries hg.entries);
  }

  -- A sequence, step by step.
  infixr 3 ◌▸◌
  pub ◌▸◌ : {f g : Checker} → Emits P f → Emits P g → Emits P (f >> g)
  ◌▸◌ = Emits-then

any_failure-append :
    (xs ys : List CheckResult) → any_failure (xs ++ ys) ≡ (any_failure xs || any_failure ys)
unfolding any_failure
any_failure-append [] ys = refl
any_failure-append (x ∷ xs) ys = ground (arith, any_failure-append xs ys)

-- Whether a checker adds a failure.
abbrev pub adds_failure : Checker → Bool
adds_failure c = any_failure (added c)

module _ {P : CheckResult → Type 0} where
  pub has_failures-Emits :
      {c : Checker}
      → Emits P c
      → (r : Report) → has_failures (c r) ≡ (has_failures r || adds_failure c)
  unfolding has_failures
  has_failures-Emits {c} h r = ap any_failure (h.appends r) ∙ any_failure-append r.results (added c)

module _ {P Q : CheckResult → Type 0} where
  pub adds_failure-then :
      (f g : Checker)
      → Emits P f
      → Emits Q g
      → adds_failure (f >> g) ≡ (adds_failure f || adds_failure g)
  adds_failure-then f g hf hg =
      ap any_failure (added-then f g hf hg) ∙ any_failure-append (added f) (added g)

abbrev pub Anything : CheckResult → Type 0
Anything x = Unit

All-Anything : (xs : List CheckResult) → All Anything xs
All-Anything [] = tt
All-Anything (x ∷ xs) = (tt, All-Anything xs)

-- What only appends, whatever its results are.
pub Emits-Anything : {P : CheckResult → Type 0} {c : Checker} → Emits P c → Emits Anything c
Emits-Anything {c = c} h = record { appends = h.appends; entries = All-Anything (added c) }
