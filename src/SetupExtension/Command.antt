-- ===== src/SetupExtension/Command.antt =====
-- tools/cmd/register-extension/main.go.
use quietfill.Prelude.{ℕ, String, not, ◌≡◌, ◌==◌, some}
use quietfill.World.{Reply, ok, Eth, Client}
use quietfill.Io.{Io, view, require, ◌>>◌}
use quietfill.Io.Success.{view_success, require_success}
use quietfill.Deploy.{address_has_code}
use quietfill.DeployContract.{refused_if}
use quietfill.DeployContract.Tokens.{HasCode, has_code, refused_if-ok}
use quietfill.Support.{Support}
use quietfill.SetupExtension.{ExtensionContracts, setup_extension}
use quietfill.SetupExtension.Owners.{Promises, Owned, setup_extension-Owned}

module _ {S : Type 0} (c : ExtensionContracts S) (eth : Eth) (rpc : S → Client) where
  -- `main`, with its flag `-instructionSender`, up to the printing of the id that it returns; the
  -- state verifier is the zero address, and `support` is what `DefaultSupport` returns.
  unfoldable pub main : Reply Support → String → Io S ℕ
  main support instruction_sender = do
    require (not (instruction_sender == "")) "--instructionSender flag is required"
    view (λ _. support)
    view (λ s. refused_if (
        address_has_code eth (some (rpc s)) (eth.hex_to_address instruction_sender)
          "InstructionSender"))
    setup_extension c (eth.hex_to_address instruction_sender) 0

  -- Where the contracts keep their promises: a register-extension that succeeds has seen code at the
  -- instruction sender, and leaves the chain with the deployer as an allowed machine owner and an
  -- allowed wallet project owner of the extension whose id it returns, and with the EVM key type
  -- supported.
  pub main-Owned :
      (support : Reply Support) (instruction_sender : String) (id : ℕ) (s s' : S)
      → Promises c
      → main support instruction_sender s ≡ (ok id, s')
      → HasCode (rpc s) (eth.hex_to_address instruction_sender) × Owned c id s'
  unfolding main ◌>>◌
  main-Owned support instruction_sender id s s' promises h = require_success _ _ _ h λ _ h₁.
      view_success _ _ h₁ λ _ _ h₂. view_success _ _ h₂ λ _ coded h₃.
        let sender = eth.hex_to_address instruction_sender in
        (
          has_code eth (rpc s) sender "InstructionSender" (refused_if-ok _ coded),
          setup_extension-Owned c sender 0 id s s' promises h₃,
        )
