-- ===== src/DeployContract/Live.antt =====
-- A run of deploy-contract that succeeds: what it deploys, and on what it relies.
use quietfill.Prelude.{
  ℕ, ◌≡◌, ◌∙◌, sym, subst, String, Bool, true, false, Option, none, some, refl, ap, eqb,
  if◌then◌else◌, arith,
}
use quietfill.World.{ok}
use quietfill.Io.{return, throw, ◌>>◌}
use quietfill.Io.Success.{
  >>=_success, >>_success, labelled_success, labelled-ok, return-ok, throw-ok,
}
use quietfill.Support.{Receipt}
use quietfill.Instructions.{deploy_instruction_sender}
use quietfill.DeployContract.{Deployment, Deployed, deploy, deploy_with, main}
use quietfill.DeployContract.Tokens.{IsReady, ArePair, preflight-IsReady, resolve_tokens-live}

module _ {S : Type 0} (d : Deployment S) where
  -- The contract at the address was created with the FlareTeeManager and these two tokens, in that
  -- order, by a transaction that is mined with status 1.
  abbrev pub WasDeployed : ℕ → ℕ → ℕ → Type 0
  WasDeployed base quote address =
      (s₁ s₂ s₃ : S) × (tx : ℕ) × (receipt : Receipt) × (d.code.deploy_quiet_fill_auction
          d.code.flare_tee_manager d.code.flare_tee_manager base quote s₁
        ≡ (ok (address, tx), s₂))
      × (d.code.client.wait_mined tx s₂ ≡ (ok receipt, s₃))
      × (receipt.status ≡ 1)

  judged-eq :
      (b : Bool) (address made : ℕ) (failure : String) (s s' : S)
      → (if b then return made else throw failure) s ≡ (ok address, s')
      → (b ≡ true) × (made ≡ address)
  judged-eq true address made failure s s' h = (refl, (return-ok h).0)
  judged-eq false address made failure s s' h = absurd (throw-ok failure s h)

  deploy_instruction_sender-WasDeployed :
      (base quote address : ℕ) (s s' : S)
      → deploy_instruction_sender d.code base quote s ≡ (ok address, s')
      → WasDeployed base quote address
  unfolding deploy_instruction_sender ◌>>◌
  deploy_instruction_sender-WasDeployed base quote address s s' h =
      labelled_success _ _ _ h λ _ _ h₁. >>=_success _ _ h₁ λ (made, tx) s₂ created h₂.
        >>=_success _ _ h₂ λ receipt s₃ waited judged.
          let (status, same) = judged-eq (eqb receipt.status 1) address made _ s₃ s' judged in
          (
            s,
            s₂,
            s₃,
            tx,
            receipt,
            labelled-ok _ _ created ∙ ap (λ (a : ℕ). (ok (a, tx), s₂)) same,
            labelled-ok _ _ waited,
            ground (arith, status),
          )

  -- The run has deployed a contract with two different tokens, as they are in a state.
  abbrev pub HasPair : S → Option Deployed → Type 0
  HasPair s none = ⊥
  HasPair s (some r) =
      ArePair d r.base_token r.quote_token s × WasDeployed r.base_token r.quote_token r.address

  deploy_with-HasPair :
      (out_file : String) (tokens : ℕ × ℕ) (r : Option Deployed) (s s₁ s' : S)
      → ArePair d tokens.0 tokens.1 s
      → deploy_with d out_file tokens s₁ ≡ (ok r, s')
      → HasPair s r
  deploy_with-HasPair out_file (base, quote) r s s₁ s' pair h =
      >>=_success _ _ h λ address s₂ made h₂. >>_success _ _ h₂ λ _ s₃ _ returned.
        subst (HasPair s) ((return-ok returned).0)
          (pair, deploy_instruction_sender-WasDeployed base quote address s₁ s₂ made)

  deploy-HasPair :
      (out_file base_hex quote_hex : String) (r : Option Deployed) (s s' : S)
      → d.equal_fold d.local_mode "false" ≡ true
      → deploy d out_file base_hex quote_hex s ≡ (ok r, s')
      → HasPair s r
  unfolding deploy
  deploy-HasPair out_file base_hex quote_hex r s s' live h =
      >>=_success _ _ h λ tokens s₁ resolved h₁.
        let pair =
          resolve_tokens-live d base_hex quote_hex (tokens.0) (tokens.1) s s₁ live resolved in
        deploy_with-HasPair out_file tokens r s s₁ s' pair h₁

  -- A run of deploy-contract that succeeds has seen, before its first transaction, a FlareTeeManager
  -- that is not zero and has code and a deployer with the least balance; with -preflight-only it
  -- changes nothing; and else, where LOCAL_MODE is false, it creates the contract at the address that
  -- it returns with the FlareTeeManager and the two tokens that it returns, base before quote, by a
  -- transaction that is mined with status 1, and these tokens are different, are not zero, have code
  -- and answer symbol() and decimals().
  pub main-IsReady :
      (preflight_only : Bool) (out_file base_hex quote_hex : String) (r : Option Deployed)
      (s s' : S)
      → main d preflight_only out_file base_hex quote_hex s ≡ (ok r, s')
      → IsReady d s
        × (preflight_only ≡ true → (r ≡ none) × (s' ≡ s))
        × (preflight_only ≡ false → d.equal_fold d.local_mode "false" ≡ true → HasPair s r)
  unfolding main
  main-IsReady true out_file base_hex quote_hex r s s' h = >>_success _ _ h λ _ s₁ checked returned.
      let (ready, same) = preflight-IsReady d s s₁ checked in
      let (result, unchanged) = return-ok returned in
      (ready, λ _. (sym result, sym (same ∙ unchanged)), λ no. ground (arith, no))
  main-IsReady false out_file base_hex quote_hex r s s' h =
      >>_success _ _ h λ _ s₁ checked deployed.
        let (ready, same) = preflight-IsReady d s s₁ checked in
        (
          ready,
          λ no. ground (arith, no),
          λ _ live.
              subst (λ (t : S). HasPair t r) (sym same)
                (deploy-HasPair out_file base_hex quote_hex r s₁ s' live deployed),
        )
