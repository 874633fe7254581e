-- ===== src/SetupExtension/Sender.antt =====
-- The instruction sender that a successful register-extension leaves on the chain.
use quietfill.Prelude.{ℕ, String, ◌≡◌, ◌≢◌, refl, subst, List, [], ◌∷◌}
use quietfill.World.{Reply, ok, Eth, Client}
use quietfill.Io.{◌>>◌}
use quietfill.Io.Preserves.{Preserves, Preserves_after}
use quietfill.Io.Success.{
  view_success, labelled_success, require_success, >>=_success, return-ok, throw-ok, labelled-ok,
}
use quietfill.Support.{Support, Receipt}
use quietfill.Support.Mined.{check_tx-mined}
use quietfill.SetupExtension.{
  ExtensionContracts, registered_event, register_extension, is_key_type_supported, setup_extension,
}
use quietfill.SetupExtension.Owners.{
  set_machine_owner-Preserves, set_project_owner-Preserves, set_key_type-Preserves,
}
use quietfill.SetupExtension.Command.{main}

-- `sender_of` is what `GetTeeExtensionInstructionsSender` answers on the chain.
module _ {S : Type 0} (c : ExtensionContracts S) (sender_of : ℕ → S → Reply ℕ) where
  abbrev pub HasSender : ℕ → ℕ → S → Type 0
  HasSender id sender s = sender_of id s ≡ ok sender

  -- What the registry promises: a registration that is mined without error records its sender under
  -- the id of its event, and none of the transactions that follow changes it.
  pub record Records : Type 0 where
    pub recorded :
        (sender verifier tx id log : ℕ) (logs : List ℕ) (receipt : Receipt) (s s₁ s₂ : S)
        → c.register verifier sender s ≡ (ok tx, s₁)
        → c.client.wait_mined tx s₁ ≡ (ok receipt, s₂)
        → receipt.status ≢ 0
        → receipt.logs ≡ log ∷ logs
        → c.parse_tee_extension_registered log ≡ ok id
        → HasSender id sender s₂
    pub sender_kept :
        (id sender : ℕ)
        → Preserves (HasSender id sender) (c.add_allowed_tee_machine_owners id (c.deployer ∷ []))
          × Preserves
              (HasSender id sender)
              (c.add_allowed_tee_wallet_project_owners id (c.deployer ∷ []))
          × Preserves (HasSender id sender) (c.add_supported_key_types id (c.evm_type ∷ []))
    pub mining_keeps : (id sender tx : ℕ) → Preserves (HasSender id sender) (c.client.wait_mined tx)

  registered_event-ok :
      (logs : List ℕ) (id : ℕ) (s s' : S)
      → registered_event c logs s ≡ (ok id, s')
      → (log : ℕ) × (rest : List ℕ) × (logs ≡ log ∷ rest)
        × (c.parse_tee_extension_registered log ≡ ok id)
        × (s ≡ s')
  unfolding ◌>>◌
  registered_event-ok [] id s s' h = absurd (throw-ok _ s h)
  registered_event-ok (log ∷ []) id s s' h = absurd (throw-ok _ s h)
  registered_event-ok (log ∷ set ∷ rest) id s s' h = labelled_success _ _ _ h λ i parsed h₁.
      labelled_success _ _ _ h₁ λ _ _ returned.
        let (same_id, same) = return-ok returned in
        (
          log,
          set ∷ rest,
          refl,
          subst (λ (j : ℕ). c.parse_tee_extension_registered log ≡ ok j) same_id parsed,
          same,
        )

  module _ (records : Records) where
    register_extension-HasSender :
        (sender verifier id : ℕ) (s s' : S)
        → register_extension c sender verifier s ≡ (ok id, s')
        → HasSender id sender s'
    unfolding register_extension
    register_extension-HasSender sender verifier id s s' h = >>=_success _ _ h λ tx s₁ sent h₁.
        >>=_success _ _ h₁ λ receipt s₂ waited event.
          let (mined, good) = check_tx-mined c.client tx s₁ (labelled-ok _ _ waited) in
          let (log, rest, logs, parsed, same) = registered_event-ok receipt.logs id s₂ s' event in
          subst (HasSender id sender) same (
            records.recorded sender verifier tx id log rest receipt s s₁ s₂ (labelled-ok _ _ sent)
              mined good logs parsed)

    setup_extension-HasSender :
        (sender verifier id : ℕ) (s s' : S)
        → setup_extension c sender verifier s ≡ (ok id, s')
        → HasSender id sender s'
    unfolding setup_extension is_key_type_supported ◌>>◌
    setup_extension-HasSender sender verifier id s s' h = view_success _ _ h λ _ _ h₁.
        >>=_success _ _ h₁ λ i s₁ registered h₂. labelled_success _ _ _ h₂ λ machine _ h₃.
          >>=_success _ _ h₃ λ _ s₂ set_machine h₄. labelled_success _ _ _ h₄ λ project _ h₅.
            >>=_success _ _ h₅ λ _ s₃ set_project h₆. view_success _ _ h₆ λ key _ h₇.
              >>=_success _ _ h₇ λ _ s₄ set_key returned.
                let (same_id, same) = return-ok returned in
                let (machine_kept, project_kept, key_kept) = records.sender_kept i sender in
                let mining = records.mining_keeps i sender in
                let first = register_extension-HasSender sender verifier i s s₁ registered in
                let second =
                  Preserves_after (set_machine_owner-Preserves c mining i machine machine_kept)
                    set_machine first in
                let third =
                  Preserves_after (set_project_owner-Preserves c mining i project project_kept)
                    set_project second in
                subst (λ (j : ℕ). HasSender j sender s') same_id
                  (subst (HasSender i sender) same (
                    Preserves_after (set_key_type-Preserves c mining i key key_kept) set_key third))

    -- Where the registry keeps its promises: a register-extension that succeeds leaves the chain with
    -- the sender of its flag recorded for the id that it returns.
    pub main-HasSender :
        (eth : Eth) (rpc : S → Client) (support : Reply Support) (instruction_sender : String)
        (id : ℕ) (s s' : S)
        → main c eth rpc support instruction_sender s ≡ (ok id, s')
        → HasSender id (eth.hex_to_address instruction_sender) s'
    unfolding main ◌>>◌
    main-HasSender eth rpc support instruction_sender id s s' h = require_success _ _ _ h λ _ h₁.
        view_success _ _ h₁ λ _ _ h₂.
          view_success _ _ h₂
            λ _ _ h₃. setup_extension-HasSender (eth.hex_to_address instruction_sender) 0 id s s' h₃
