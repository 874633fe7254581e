-- ===== src/Machine/Agree.antt =====
-- Checks of different steps that look at the same thing answer alike.
use quietfill.Prelude.{String, ◌≡◌, ◌≢◌, true, arith, eq_iff, ◌↔◌}
use quietfill.World.{World, Eth}
use quietfill.Report.{pass, warn}
use quietfill.EnvFile.{parse_extension_env}
use quietfill.EnvFile.Format.{extension_id_matches, is_hex_of-empty}
use quietfill.Deploy.{check_deployer_key_source}
use quietfill.Startup.{s2, s9, s10, v2, v4, v6, reachable}
use quietfill.Machine.{t10, e3}

-- The four checks of EXT_PROXY_URL, in four steps, have the same status: skipped where it is unset,
-- and else passed or a warning as `GET /info` answers 200 or not.
pub proxy_status_agree :
    (w : World)
    → ((s9 w).status ≡ (v6 w).status)
      × ((v6 w).status ≡ (t10 w).status)
      × ((t10 w).status ≡ (e3 w).status)
      × (((s9 w).status ≡ pass)
          ↔ ((w.getenv "EXT_PROXY_URL" ≢ "") × (reachable w (w.getenv "EXT_PROXY_URL") ≡ true)))
unfolding s9 v6 t10 e3
proxy_status_agree w = ground (arith, eq_iff (w.getenv "EXT_PROXY_URL") "")

-- S2 and V4 pass in the same surroundings: where a path is given and the file's EXTENSION_ID has its
-- format.
pub s2-v4_pass :
    (w : World) (lib : Eth) (path : String)
    → (((s2 w lib path).status ≡ pass) ↔ ((v4 w path).status ≡ pass))
      × (((s2 w lib path).status ≡ pass)
          ↔ ((path ≢ "") × (extension_id_matches (parse_extension_env w path).extension_id ≡ true)))
unfolding s2 v4
s2-v4_pass w lib path =
    ground (
      arith,
      eq_iff path "",
      eq_iff (parse_extension_env w path).extension_id "",
      is_hex_of-empty 64,
    )

-- V2 warns exactly where EXTENSION_OWNER_KEY is unset and the deploy step's check of the key source
-- warns: the owner's key falls back to the deployer's.
pub v2-key_source :
    (w : World)
    → ((v2 w).status ≡ warn)
      ↔ ((w.getenv "EXTENSION_OWNER_KEY" ≡ "") × ((check_deployer_key_source w).status ≡ warn))
unfolding v2 check_deployer_key_source
v2-key_source w = ground (arith, eq_iff (w.getenv "EXTENSION_OWNER_KEY") "")

-- With a LOCAL_MODE that is neither `true`, `false` nor unset, and no PROXY_PRIVATE_KEY, S10 passes
-- and says that the key is configured, while the deploy step takes the same mode for a non-local one
-- and, with no DEPLOYMENT_PRIVATE_KEY either, warns.
s10_unlisted_mode :
    (w : World)
    → w.getenv "LOCAL_MODE" ≢ "true"
    → w.getenv "LOCAL_MODE" ≢ "false"
    → w.getenv "LOCAL_MODE" ≢ ""
    → w.getenv "PROXY_PRIVATE_KEY" ≡ ""
    → w.getenv "DEPLOYMENT_PRIVATE_KEY" ≡ ""
    → ((s10 w).status ≡ pass)
      × ((s10 w).message ≡ "PROXY_PRIVATE_KEY is configured")
      × ((check_deployer_key_source w).status ≡ warn)
unfolding s10 check_deployer_key_source
s10_unlisted_mode w not_true not_false set no_proxy_key no_key = ground (
  arith,
  eq_iff (w.getenv "LOCAL_MODE") "true",
  eq_iff (w.getenv "LOCAL_MODE") "false",
  eq_iff (w.getenv "LOCAL_MODE") "",
  eq_iff (w.getenv "DEPLOYMENT_PRIVATE_KEY") "",
)
