-- ===== src/Startup/Emitted.antt =====
-- What the checks of the services and of the TEE version leave in the report.
use quietfill.Prelude.{String, ◌≡◌, false, not, ◌&&◌, ◌||◌, ◌∙◌, ap, ◌==◌, arith, eq_iff}
use quietfill.World.{World, Eth}
use quietfill.Report.{Report, has_failures, any_failure, is_fail}
use quietfill.Report.Checker.{Emits, Emits-emit, ◌▸◌, emit, ◌>>◌, adds_failure, has_failures-Emits}
use quietfill.Report.Entry.{IsEntry}
use quietfill.EnvFile.{parse_extension_env}
use quietfill.EnvFile.Format.{extension_id_matches, is_hex_of-empty}
use quietfill.Startup.{
  s2, s5, s7, s9, s10, v2, v4, v6, register_services_checks, register_tee_version_checks,
}

module _ (w : World) (lib : Eth) (path : String) where
  s2-IsEntry : IsEntry "services" (s2 w lib path)
  unfolding s2
  s2-IsEntry = ground arith

  -- Whatever the report and the surroundings, the service checks only append to the report, always
  -- the same results, each of the step `services` and with a fix only for a failure or a warning.
  pub register_services_checks-Emits :
      Emits (IsEntry "services") (register_services_checks w lib path)
  unfolding register_services_checks s5 s7 s9 s10
  register_services_checks-Emits =
      Emits-emit _ s2-IsEntry
      ▸ Emits-emit _ (ground arith)
      ▸ Emits-emit _ (ground arith)
      ▸ Emits-emit _ (ground arith)
      ▸ Emits-emit _ (ground arith)

  s2_fails :
      is_fail (s2 w lib path).status
      ≡ (not (path == "") && not (extension_id_matches (parse_extension_env w path).extension_id))
  unfolding s2
  s2_fails = ground (arith, eq_iff (parse_extension_env w path).extension_id "", is_hex_of-empty 64)

module _ (w : World) (path : String) where
  v4-IsEntry : IsEntry "tee-version" (v4 w path)
  unfolding v4
  v4-IsEntry = ground arith

  -- Whatever the report and the surroundings, the TEE version checks only append to the report,
  -- always the same results, each of the step `tee-version` and with a fix only for a failure or a
  -- warning.
  pub register_tee_version_checks-Emits :
      Emits (IsEntry "tee-version") (register_tee_version_checks w path)
  unfolding register_tee_version_checks v2 v6
  register_tee_version_checks-Emits =
      Emits-emit _ (ground arith) ▸ Emits-emit _ v4-IsEntry ▸ Emits-emit _ (ground arith)

  v4_fails : is_fail (v4 w path).status ≡ (
      not (path == "")
      && (not (extension_id_matches (parse_extension_env w path).extension_id)
          && not (((parse_extension_env w path).extension_id == "") && w.not_exist path)))
  unfolding v4
  v4_fails = ground (arith, eq_iff (parse_extension_env w path).extension_id "", is_hex_of-empty 64)

module _ (w : World) where
  s5_passes : is_fail (s5 w).status ≡ false
  unfolding s5
  s5_passes = ground arith

  s7_passes : is_fail (s7 w).status ≡ false
  unfolding s7
  s7_passes = ground arith

  s9_passes : is_fail (s9 w).status ≡ false
  unfolding s9
  s9_passes = ground arith

  s10_passes : is_fail (s10 w).status ≡ false
  unfolding s10
  s10_passes = ground arith

  v2_passes : is_fail (v2 w).status ≡ false
  unfolding v2
  v2_passes = ground arith

  v6_passes : is_fail (v6 w).status ≡ false
  unfolding v6
  v6_passes = ground arith

-- The service checks make a report fail exactly when a path is given and the file's EXTENSION_ID is
-- not `0x` and 64 hexadecimal digits: nothing else that they look at is a failure.
pub services_failure :
    (w : World) (lib : Eth) (path : String) (r : Report)
    → has_failures (register_services_checks w lib path r) ≡ (
        has_failures r
        || (not (path == "")
            && not (extension_id_matches (parse_extension_env w path).extension_id)))
services_failure w lib path r =
    has_failures-Emits (register_services_checks-Emits w lib path) r
    ∙ ap (λ b. has_failures r || b) own
  where
    own :
        adds_failure (register_services_checks w lib path)
        ≡ (not (path == "") && not (extension_id_matches (parse_extension_env w path).extension_id))
    own =
        unfold register_services_checks emit ◌>>◌ any_failure in
        ground (arith, s2_fails w lib path, s5_passes w, s7_passes w, s9_passes w, s10_passes w)

-- The TEE version checks make a report fail exactly when a path is given and the file's EXTENSION_ID
-- is malformed, or missing from a file that is there.
pub tee_version_failure :
    (w : World) (path : String) (r : Report)
    → has_failures (register_tee_version_checks w path r) ≡ (
        has_failures r
        || (not (path == "")
            && (not (extension_id_matches (parse_extension_env w path).extension_id)
                && not (((parse_extension_env w path).extension_id == "") && w.not_exist path))))
tee_version_failure w path r =
    has_failures-Emits (register_tee_version_checks-Emits w path) r
    ∙ ap (λ b. has_failures r || b)
        (unfold register_tee_version_checks emit ◌>>◌ any_failure in
          ground (arith, v4_fails w path, v2_passes w, v6_passes w))
