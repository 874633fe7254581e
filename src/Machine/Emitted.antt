-- ===== src/Machine/Emitted.antt =====
-- What the checks of the TEE machine and of the end-to-end test leave in the report.
use quietfill.Prelude.{String, ◌≡◌, refl, false, not, ◌&&◌, ◌||◌, ◌∙◌, ap, ◌==◌, arith, eq_iff}
use quietfill.World.{World}
use quietfill.Report.{Report, is_fail, has_failures, any_failure}
use quietfill.Report.Checker.{Emits, Emits-emit, ◌▸◌, emit, ◌>>◌, has_failures-Emits}
use quietfill.Report.Entry.{IsEntry}
use quietfill.EnvFile.{parse_extension_env}
use quietfill.EnvFile.Format.{address_matches, is_hex_of-empty}
use quietfill.Machine.{t1, t5, t10, e1, e3, register_tee_machine_checks, register_test_checks}

module _ (w : World) (path : String) where
  -- Whatever the report and the surroundings, the TEE machine checks only append to the report,
  -- always the same results, each of the step `tee-machine` and with a fix only for a failure or a
  -- warning.
  pub register_tee_machine_checks-Emits :
      Emits (IsEntry "tee-machine") (register_tee_machine_checks w path)
  unfolding register_tee_machine_checks t1 t5 t10
  register_tee_machine_checks-Emits =
      Emits-emit _ (ground arith) ▸ Emits-emit _ (ground arith) ▸ Emits-emit _ (ground arith)

  e1-IsEntry : IsEntry "test" (e1 w path)
  unfolding e1
  e1-IsEntry = ground arith

  -- Whatever the report and the surroundings, the test checks only append to the report, always the
  -- same results, each of the step `test` and with a fix only for a failure or a warning.
  pub register_test_checks-Emits : Emits (IsEntry "test") (register_test_checks w path)
  unfolding register_test_checks e3
  register_test_checks-Emits =
      Emits-emit _ e1-IsEntry ▸ Emits-emit _ (ground arith) ▸ Emits-emit _ (refl, refl)

  e1_fails : is_fail (e1 w path).status ≡ (
      not (path == "")
      && (not (w.not_exist path)
          && not (address_matches (parse_extension_env w path).instruction_sender)))
  unfolding e1
  e1_fails =
      ground (arith, eq_iff (parse_extension_env w path).instruction_sender "", is_hex_of-empty 40)

module _ (w : World) where
  t1_passes : is_fail (t1 w).status ≡ false
  unfolding t1
  t1_passes = ground arith

  t5_passes : is_fail (t5 w).status ≡ false
  unfolding t5
  t5_passes = ground arith

  t10_passes : is_fail (t10 w).status ≡ false
  unfolding t10
  t10_passes = ground arith

  e3_passes : is_fail (e3 w).status ≡ false
  unfolding e3
  e3_passes = ground arith

-- The TEE machine checks never make a report fail: they leave `HasFailures` as it was, whatever the
-- environment and the proxies answer.
pub tee_machine_failure :
    (w : World) (path : String) (r : Report)
    → has_failures (register_tee_machine_checks w path r) ≡ has_failures r
tee_machine_failure w path r =
    has_failures-Emits (register_tee_machine_checks-Emits w path) r
    ∙ unfold register_tee_machine_checks emit ◌>>◌ any_failure in
      ground (arith, t1_passes w, t5_passes w, t10_passes w)

-- The test checks make a report fail exactly when a path is given, the file is there, and its
-- INSTRUCTION_SENDER is missing or not `0x` and 40 hexadecimal digits.
pub test_failure :
    (w : World) (path : String) (r : Report)
    → has_failures (register_test_checks w path r) ≡ (
        has_failures r
        || (not (path == "")
            && (not (w.not_exist path)
                && not (address_matches (parse_extension_env w path).instruction_sender))))
test_failure w path r =
    has_failures-Emits (register_test_checks-Emits w path) r
    ∙ ap (λ b. has_failures r || b)
        (unfold register_test_checks emit ◌>>◌ any_failure in
          ground (arith, e1_fails w path, e3_passes w))
