-- ===== src/Report.antt =====
-- tools/pkg/validate/report.go: the outcome of a check, the report that collects them, and its
-- counts. A method on `*Report` that appends is a function into the new report.
pub mod Checker
pub mod Entry
pub mod Print
pub mod Counts
pub mod Groups
pub mod Order
use quietfill.Prelude.{
  ℕ, suc, ◌+◌, String, Bool, true, false, List, [], ◌∷◌, ◌++◌, sprintf, if◌then◌else◌,
}
use quietfill.Decimal.{decimal}

pub data Status : Type 0 where
  pass warn fail skip : Status

-- `Status.String`; the enum has no other value, so `UNKNOWN` is not reached.
abbrev pub label : Status → String
label pass = "PASS"
label warn = "WARN"
label fail = "FAIL"
label skip = "SKIP"

pub record CheckResult : Type 0 where
  pub step : String
  pub id : String
  pub name : String
  pub status : Status
  pub message : String
  pub fix : String

-- A struct literal with its fields in order; an omitted `Fix` is the empty text.
abbrev pub check : String → String → String → Status → String → String → CheckResult
check step id name status message fix = record {
  step = step;
  id = id;
  name = name;
  status = status;
  message = message;
  fix = fix;
}

pub record Report : Type 0 where
  pub results : List CheckResult

abbrev pub empty : Report
empty = record { results = [] }

-- `Report.Add`.
unfoldable pub add : Report → CheckResult → Report
add r result = record { results = r.results ++ result ∷ [] }

abbrev pub is_fail : Status → Bool
is_fail fail = true
is_fail _ = false

-- The loop of `HasFailures`, which returns at the first failure.
unfoldable pub any_failure : List CheckResult → Bool
any_failure [] = false
any_failure (res ∷ rest) = if is_fail res.status then true else any_failure rest

unfoldable pub has_failures : Report → Bool
unfolding any_failure
has_failures r = any_failure r.results

pub record Counters : Type 0 where
  pub passed : ℕ
  pub warning : ℕ
  pub failed : ℕ
  pub skipped : ℕ

abbrev pub no_counts : Counters
no_counts = record { passed = 0; warning = 0; failed = 0; skipped = 0 }

-- One round of the loop of `Summary`.
unfoldable pub bump : Status → Counters → Counters
bump pass c = record c { passed = c.passed + 1 }
bump warn c = record c { warning = c.warning + 1 }
bump fail c = record c { failed = c.failed + 1 }
bump skip c = record c { skipped = c.skipped + 1 }

unfoldable pub tally : Counters → List CheckResult → Counters
unfolding bump
tally c [] = c
tally c (res ∷ rest) = tally (bump res.status c) rest

unfoldable pub summary : Report → String
unfolding tally
summary r =
    let c = tally no_counts r.results in
    sprintf (
      decimal c.passed
      ∷ " passed, "
      ∷ decimal c.warning
      ∷ " warning, "
      ∷ decimal c.failed
      ∷ " failed, "
      ∷ decimal c.skipped
      ∷ " skipped"
      ∷ [])
