-- ===== src/Report/Counts.antt =====
-- The counts of a report against its results.
use quietfill.Prelude.{
  ℕ, suc, ◌+◌, ◌<◌, ◌≤◌, ◌≡◌, ◌↔◌, refl, true, List, [], ◌∷◌, length, arith, if◌then◌else◌,
}
use quietfill.Report.{
  Status, CheckResult, Report, Counters, pass, warn, fail, skip, is_fail, any_failure, has_failures,
  bump, tally, no_counts,
}

abbrev pub total : Counters → ℕ
total c = c.passed + c.warning + c.failed + c.skipped

total-bump : (s : Status) (c : Counters) → total (bump s c) ≡ suc (total c)
unfolding bump
total-bump pass c = omega arith
total-bump warn c = omega arith
total-bump fail c = omega arith
total-bump skip c = omega arith

total-tally : (c : Counters) (xs : List CheckResult) → total (tally c xs) ≡ total c + length xs
unfolding tally
total-tally c [] = omega arith
total-tally c (x ∷ xs) = omega (arith, total-tally (bump x.status c) xs, total-bump x.status c)

-- The failures that a tally counts on top of those it started from.
failed-bump :
    (s : Status) (c : Counters) → (bump s c).failed ≡ (if is_fail s then suc c.failed else c.failed)
unfolding bump
failed-bump pass c = refl
failed-bump warn c = refl
failed-bump fail c = omega arith
failed-bump skip c = refl

failed-tally-le : (c : Counters) (xs : List CheckResult) → c.failed ≤ (tally c xs).failed
unfolding tally
failed-tally-le c [] = omega arith
failed-tally-le c (x ∷ xs) =
    ground (arith, failed-tally-le (bump x.status c) xs, failed-bump x.status c)

failed-tally :
    (c : Counters) (xs : List CheckResult)
    → (c.failed < (tally c xs).failed) ↔ (any_failure xs ≡ true)
unfolding tally any_failure
failed-tally c [] = ground arith
failed-tally c (x ∷ xs) = ground (
  arith,
  failed-tally (bump x.status c) xs,
  failed-tally-le (bump x.status c) xs,
  failed-bump x.status c,
)

-- The four counts of the summary add up to the number of results, and the count of failures is
-- positive exactly when `HasFailures` is true.
pub tally_partition :
    (r : Report)
    → (total (tally no_counts r.results) ≡ length r.results)
      × ((0 < (tally no_counts r.results).failed) ↔ (has_failures r ≡ true))
unfolding has_failures
tally_partition r =
    (omega (arith, total-tally no_counts r.results), failed-tally no_counts r.results)
