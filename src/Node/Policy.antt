-- ===== src/Node/Policy.antt =====
-- tools/pkg/fccutils/policy_consistency.go. A `uint64` is a number below 2 ^ 64; its sum and its
-- difference keep their wrap-around.
use quietfill.Prelude.{
  ℕ, ◌+◌, ◌-◌, ◌%◌, ◌^◌, ◌≢◌, ◌↔◌, refl, Bool, ◌||◌, String, Option, none, some, [], ◌∷◌, sprintf,
  eqb, ltb, if◌then◌else◌, arith,
}
use quietfill.Decimal.{decimal}
use quietfill.World.{Reply, ok, fail as error}
use quietfill.Io.{NoError, nil}

-- `policyInSync`.
unfoldable pub policy_in_sync : ℕ → ℕ → Bool
policy_in_sync onchain_epoch proxy_policy_id =
    eqb proxy_policy_id onchain_epoch || eqb proxy_policy_id ((onchain_epoch + 1) % 2 ^ 64)

-- `outOfSyncError`; both differences are of the larger and the smaller.
unfoldable pub out_of_sync_error : ℕ → ℕ → String
out_of_sync_error onchain_epoch proxy_policy_id = sprintf (
    "FTDC proxy signing policy out of sync with on-chain reward epoch"
    ∷ ": proxy signing policy "
    ∷ decimal proxy_policy_id
    ∷ " vs on-chain current reward epoch "
    ∷ decimal onchain_epoch
    ∷ " ("
    ∷ (if ltb proxy_policy_id onchain_epoch
        then sprintf
            ("proxy is " ∷ decimal (onchain_epoch - proxy_policy_id) ∷ " epoch(s) behind" ∷ [])
        else sprintf
            ("proxy is " ∷ decimal (proxy_policy_id - onchain_epoch) ∷ " epoch(s) ahead" ∷ []))
    ∷ "); data providers will reject the availability check with 404 \"no round\"; wait for the proxy to catch up to the current signing policy, or check the proxy's initial_signing_policy_offset and C-chain indexer sync"
    ∷ [])

abbrev pub compare_policy : ℕ → ℕ → Reply NoError
compare_policy onchain_epoch proxy_policy_id =
    if policy_in_sync onchain_epoch proxy_policy_id
    then ok nil
    else error (out_of_sync_error onchain_epoch proxy_policy_id)

abbrev pub with_info : ℕ → Reply ℕ → Reply NoError
with_info onchain (error _) = ok nil
with_info onchain (ok proxy_policy_id) = compare_policy (onchain % 2 ^ 64) proxy_policy_id

-- `CheckFTDCProxyPolicyConsistency`, of what `GetCurrentRewardEpochId` returns, with `none` for a
-- nil pointer, and of the `LastSigningPolicyID` that `TeeInfo` reads from the proxy.
unfoldable pub check_ftdc_proxy_policy_consistency : Reply (Option ℕ) → Reply ℕ → Reply NoError
unfolding policy_in_sync out_of_sync_error
check_ftdc_proxy_policy_consistency (error _) info = ok nil
check_ftdc_proxy_policy_consistency (ok none) info = ok nil
check_ftdc_proxy_policy_consistency (ok (some onchain)) info = with_info onchain info

-- Both lookups succeed, and the proxy's policy is neither the current epoch's nor the next one's.
abbrev pub ConfirmedMismatch : Reply (Option ℕ) → Reply ℕ → Type 0
ConfirmedMismatch (ok (some onchain)) (ok proxy_policy_id) =
    (proxy_policy_id ≢ onchain % 2 ^ 64) × (proxy_policy_id ≢ (onchain + 1) % 2 ^ 64)
ConfirmedMismatch _ _ = ⊥

-- The check refuses exactly on a confirmed mismatch: where both lookups succeed and the proxy's
-- policy is neither the one of the current epoch nor the one of the next, as 64-bit numbers. A
-- lookup that fails never blocks.
pub check_ftdc_proxy_policy_consistency_lem :
    (onchain : Reply (Option ℕ)) (info : Reply ℕ)
    → (check_ftdc_proxy_policy_consistency onchain info ≢ ok nil) ↔ ConfirmedMismatch onchain info
unfolding check_ftdc_proxy_policy_consistency policy_in_sync
check_ftdc_proxy_policy_consistency_lem (error e) info = ((λ h. absurd (h refl)), (λ h. absurd h))
check_ftdc_proxy_policy_consistency_lem (ok none) info = ((λ h. absurd (h refl)), (λ h. absurd h))
check_ftdc_proxy_policy_consistency_lem (ok (some onchain)) (error e) =
    ((λ h. absurd (h refl)), (λ h. absurd h))
check_ftdc_proxy_policy_consistency_lem (ok (some onchain)) (ok id) = ground arith
