-- ===== src/Instructions.antt =====
-- tools/pkg/utils/instructions.go: deploying the auction's contract, and setting its extension id.
use quietfill.Prelude.{
  ℕ, String, Option, none, some, List, [], ◌∷◌, sprintf, eqb, ◌==◌, if◌then◌else◌,
}
use quietfill.World.{Reply, ok, fail as error}
use quietfill.Revert.{RpcError, CallOutcome, decode_revert_reason, simulate_and_decode_revert}
use quietfill.Io.{Io, NoError, nil, return, throw, view, labelled, ◌>>=◌, ◌>>◌}
use quietfill.Support.{TxClient, Receipt}

-- What a transacting call of a binding returns: a transaction or an error.
pub data Sent : Type 0 where
  sent : ℕ → Sent
  refused : RpcError → Sent

-- The binding of the auction's contract, the key, and the client.
pub record AuctionCode (S : Type 0) : Type 0 where
  pub client : TxClient S
  pub from : ℕ  -- `crypto.PubkeyToAddress(s.Prv.PublicKey)`
  pub flare_tee_manager : ℕ  -- `s.Addresses.FlareTeeManager`
  pub keyed_transactor : Reply NoError
  -- `DeployQuietFillAuction` with the two registries and the two tokens: the address and the
  -- transaction.
  pub deploy_quiet_fill_auction : ℕ → ℕ → ℕ → ℕ → Io S (ℕ × ℕ)
  pub new_quiet_fill_auction : ℕ → Reply NoError
  pub set_extension_id : ℕ → S → Sent × S
  -- `parsed.Pack("setExtensionId")`; `none` where there is no ABI or the packing fails.
  pub call_data : Option (List ℕ)
  -- `CallContract` from an address, to one, with call data.
  pub call_contract : ℕ → ℕ → List ℕ → S → CallOutcome

module _ {S : Type 0} (c : AuctionCode S) where
  abbrev pub mined_label : String → ℕ → String
  mined_label what tx = sprintf (what ∷ " (tx: " ∷ c.client.tx_hex tx ∷ "): " ∷ [])

  -- `receipt.Status != types.ReceiptStatusSuccessful`.
  abbrev pub successful : ℕ → Receipt → String → Io S ℕ
  successful address receipt failure =
      if eqb receipt.status 1 then return address else throw failure

  abbrev pub deployed : ℕ × ℕ → Io S ℕ
  deployed (address, tx) = do
    receipt ←
        labelled (mined_label "deployment tx not mined within 2 minutes" tx)
          (c.client.wait_mined tx)
    successful address receipt "contract deployment failed"

  -- `DeployInstructionSender`, and of its results the address, which is the one that is used.
  unfoldable pub deploy_instruction_sender : ℕ → ℕ → Io S ℕ
  deploy_instruction_sender base_token quote_token = do
    labelled "failed to create transactor: " (view (λ _. c.keyed_transactor))
    out ←
        labelled "failed to deploy contract: " (
          c.deploy_quiet_fill_auction c.flare_tee_manager c.flare_tee_manager base_token
            quote_token)
    deployed out

  abbrev pub simulated_with : ℕ → S → Option (List ℕ) → String
  simulated_with address s none = ""
  simulated_with address s (some call_data) =
      simulate_and_decode_revert c.client.unpack_revert (c.call_contract c.from address call_data s)

  abbrev pub refusal_reason : ℕ → RpcError → S → String
  refusal_reason address e s =
      let reason = decode_revert_reason c.client.unpack_revert (some e) in
      if reason == "" then simulated_with address s c.call_data else reason

  unfoldable pub refusal : ℕ → RpcError → S → String
  refusal address e s =
      let reason = refusal_reason address e s in
      if reason == ""
      then sprintf ("failed to call setExtensionId: " ∷ e.message ∷ [])
      else sprintf
          ("failed to call setExtensionId: " ∷ e.message ∷ " (revert reason: " ∷ reason ∷ ")" ∷ [])

  abbrev pub accepted : ℕ → Sent × S → Reply ℕ × S
  accepted address (sent tx, s) = (ok tx, s)
  accepted address (refused e, s) = (error (refusal address e s), s)

  abbrev pub failed_text : String → String
  failed_text reason =
      if reason == ""
      then "setExtensionId transaction failed"
      else sprintf ("setExtensionId transaction failed (revert reason: " ∷ reason ∷ ")" ∷ [])

  abbrev pub judge_set : ℕ → Receipt → Io S NoError
  judge_set address receipt = if eqb receipt.status 1 then return nil else λ s.
      (error (failed_text (simulated_with address s c.call_data)), s)

  -- `SetExtensionId`.
  unfoldable pub set_extension_id : ℕ → Io S NoError
  unfolding refusal
  set_extension_id address = do
    labelled "failed to bind contract: " (view (λ _. c.new_quiet_fill_auction address))
    labelled "failed to create transactor: " (view (λ _. c.keyed_transactor))
    tx ← λ s. accepted address (c.set_extension_id address s)
    receipt ← labelled "failed waiting for transaction: " (c.client.wait_mined tx)
    judge_set address receipt
