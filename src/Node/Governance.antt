-- ===== src/Node/Governance.antt =====
-- tools/pkg/fccutils/governance.go.
use quietfill.Prelude.{
  ℕ, Bool, false, ◌||◌, List, [], ◌∷◌, sprintf, eqb, ltb, length, if◌then◌else◌,
}
use quietfill.Decimal.{decimal}
use quietfill.World.{Reply, ok, fail as error}
use quietfill.Io.{NoError, nil, Io, return, view, labelled, ◌>>=◌, ◌>>◌}
use quietfill.Support.{TxClient, check_tx}

-- The chain as `SetTeeGovernance` uses it. A transaction is a number.
pub record GovernanceChain (S : Type 0) : Type 0 where
  pub governance_hash : List ℕ → ℕ → Reply ℕ  -- `types.GovernanceHash`
  pub keyed_transactor : Reply NoError  -- `bind.NewKeyedTransactorWithChainID`
  pub get_latest_tee_governance_hash : ℕ → S → Reply ℕ
  pub set_new_tee_governance : ℕ → List ℕ → ℕ → Io S ℕ
  pub client : TxClient S  -- `s.ChainClient`

module _ {S : Type 0} (c : GovernanceChain S) where
  abbrev pub is_set : Reply ℕ → ℕ → Bool
  is_set (ok current) desired = eqb current desired
  is_set (error _) desired = false

  -- The transaction that `SetTeeGovernance` ends with.
  unfoldable pub send_governance : ℕ → List ℕ → ℕ → Io S NoError
  send_governance extension_id signers threshold = do
    view (λ _. c.keyed_transactor)
    tx ←
        labelled "SetNewTeeGovernance failed: "
          (c.set_new_tee_governance extension_id signers threshold)
    check_tx c.client tx
    return nil

  abbrev pub with_hash : ℕ → List ℕ → ℕ → Reply ℕ → Io S NoError
  with_hash extension_id signers threshold (error e) s =
      (error (sprintf ("computing governance hash: " ∷ e ∷ [])), s)
  with_hash extension_id signers threshold (ok desired) s =
      if is_set (c.get_latest_tee_governance_hash extension_id s) desired
      then (ok nil, s)
      else send_governance extension_id signers threshold s

  -- `SetTeeGovernance`.
  unfoldable pub set_tee_governance : ℕ → List ℕ → ℕ → Io S NoError
  unfolding send_governance
  set_tee_governance extension_id signers threshold s =
      if eqb (length signers) 0
      then (error "at least one governance signer is required (set GOVERNANCE_SIGNERS)", s)
      else if eqb threshold 0 || ltb (length signers) threshold
      then (
        error (
            sprintf (
              "invalid GOVERNANCE_THRESHOLD "
              ∷ decimal threshold
              ∷ " for "
              ∷ decimal (length signers)
              ∷ " signer(s)"
              ∷ [])),
        s,
      )
      else with_hash extension_id signers threshold (c.governance_hash signers threshold) s
