-- ===== src/Report/Entry.antt =====
-- What every result of a step has in common.
use quietfill.Prelude.{String, ◌≡◌}
use quietfill.Report.{Status, CheckResult, pass, warn, fail, skip}

-- A fix is proposed only for a failure or a warning.
abbrev pub FixFits : Status → String → Type 0
FixFits pass fix = fix ≡ ""
FixFits skip fix = fix ≡ ""
FixFits fail fix = Unit
FixFits warn fix = Unit

abbrev pub IsEntry : String → CheckResult → Type 0
IsEntry step x = (x.step ≡ step) × FixFits x.status x.fix
