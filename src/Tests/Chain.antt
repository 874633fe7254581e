-- ===== src/Tests/Chain.antt =====
-- The theorems about the policy, the governance and the polling at small instances.
use quietfill.Prelude.{ℕ, ◌+◌, ◌≡◌, ◌≢◌, ◌↔◌, refl, some, [], ◌∷◌, length}
use quietfill.World.{ok}
use quietfill.Support.{check_tx, judge_receipt}
use quietfill.Tests.Tools.{mined_at_once, at_once}
use quietfill.Io.{nil, return, view, labelled, ◌>>=◌, ◌>>◌}
use quietfill.Node.Policy.{
  check_ftdc_proxy_policy_consistency, check_ftdc_proxy_policy_consistency_lem, ConfirmedMismatch,
}
use quietfill.Node.Governance.{GovernanceChain, set_tee_governance, send_governance}
use quietfill.Node.Governed.{Sets, set_tee_governance-twice}

check_ftdc_proxy_policy_consistency_lem_example :
    (check_ftdc_proxy_policy_consistency (ok (some 3)) (ok 9) ≢ ok nil)
    ↔ ConfirmedMismatch (ok (some 3)) (ok 9)
check_ftdc_proxy_policy_consistency_lem_example =
    check_ftdc_proxy_policy_consistency_lem (ok (some 3)) (ok 9)

-- The outside is the latest hash.
abbrev governance : GovernanceChain ℕ
governance = record {
  governance_hash = λ signers threshold. ok (threshold + length signers);
  keyed_transactor = ok nil;
  get_latest_tee_governance_hash = λ _ s. ok s;
  set_new_tee_governance = λ _ signers threshold s. (ok 1, threshold + length signers);
  client = mined_at_once ℕ;
}

governance-Sets : Sets governance 1 (5 ∷ 6 ∷ []) 2
governance-Sets h e =
    at_once (λ s. governance.get_latest_tee_governance_hash 1 s ≡ ok h)
      (governance.set_new_tee_governance 1 (5 ∷ 6 ∷ []) 2) (λ s. e)

governance_done : (set_tee_governance governance 1 (5 ∷ 6 ∷ []) 2 0).0 ≡ ok nil
unfolding set_tee_governance send_governance check_tx judge_receipt return view labelled ◌>>=◌ ◌>>◌
governance_done = refl

set_tee_governance-twice_example :
    set_tee_governance governance 1
      (5 ∷ 6 ∷ [])
      2
      (set_tee_governance governance 1 (5 ∷ 6 ∷ []) 2 0).1
    ≡ (ok nil, (set_tee_governance governance 1 (5 ∷ 6 ∷ []) 2 0).1)
set_tee_governance-twice_example =
    set_tee_governance-twice governance 1 (5 ∷ 6 ∷ []) 2 0 governance-Sets governance_done
