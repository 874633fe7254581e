-- ===== src/DeployContract.antt =====
-- tools/cmd/deploy-contract/main.go.
pub mod Tokens
pub mod Live
pub mod Verified
use quietfill.Prelude.{
  ℕ, String, Bool, not, ◌&&◌, Option, none, some, [], ◌∷◌, sprintf, eqb, ◌==◌, if◌then◌else◌,
}
use quietfill.World.{Reply, ok, fail as error, Eth, Client}
use quietfill.Io.{Io, NoError, nil, return, throw, view, labelled, require, ◌>>=◌, ◌>>◌}
use quietfill.Deploy.{address_not_zero, address_has_code, key_has_funds, min_deploy_balance}
use quietfill.Support.{check_tx}
use quietfill.Instructions.{AuctionCode, deploy_instruction_sender}

-- The deployment key, the clients, the environment and the libraries.
pub record Deployment (S : Type 0) : Type 0 where
  pub code : AuctionCode S
  pub eth : Eth
  pub rpc : S → Client  -- `s.ChainClient`, as the chain is at the time
  pub prv : ℕ
  pub local_mode : String  -- the variable `LOCAL_MODE`
  pub equal_fold : String → String → Bool  -- `strings.EqualFold`
  pub new_test_token : ℕ → Reply NoError
  pub symbol : ℕ → S → Reply String
  pub decimals : ℕ → S → Reply ℕ
  -- `DeployTestToken` with a name, a symbol and decimals: the address and the transaction.
  pub deploy_test_token : String → String → ℕ → Io S (ℕ × ℕ)
  -- `os.MkdirAll` and `os.WriteFile`, whose errors are not looked at.
  pub write_file : String → String → S → S

-- What the program prints.
pub record Deployed : Type 0 where
  pub base_token : ℕ
  pub quote_token : ℕ
  pub address : ℕ

-- `if err := …; err != nil`, of an error's text.
abbrev pub refused_if : Option String → Reply NoError
refused_if none = ok nil
refused_if (some e) = error e

module _ {S : Type 0} (d : Deployment S) where
  -- `describeToken`.
  unfoldable pub describe_token : ℕ → String → Io S NoError
  describe_token addr name = do
    labelled (sprintf ("failed to bind " ∷ name ∷ ": " ∷ [])) (view (λ _. d.new_test_token addr))
    labelled (sprintf (name ∷ " at " ∷ d.eth.hex addr ∷ " does not answer symbol(): " ∷ []))
        (view (d.symbol addr))
    labelled (sprintf (name ∷ " at " ∷ d.eth.hex addr ∷ " does not answer decimals(): " ∷ []))
        (view (d.decimals addr))
    return nil

  -- The body of the loop of `resolveTokens`.
  unfoldable pub check_token : String → ℕ → Io S NoError
  check_token name addr = do
    view (λ _. refused_if (address_not_zero d.eth addr name))
    view (λ s. refused_if (address_has_code d.eth (some (d.rpc s)) addr name))
    describe_token addr name

  abbrev pub deployed_token : String → ℕ × ℕ → Io S ℕ
  deployed_token symbol (addr, tx) = do
    labelled (sprintf (symbol ∷ " deployment failed: " ∷ [])) (check_tx d.code.client tx)
    return addr

  -- `deployTestToken`.
  unfoldable pub deploy_test_token : String → String → ℕ → Io S ℕ
  deploy_test_token name symbol decimals = do
    labelled "failed to create transactor: " (view (λ _. d.code.keyed_transactor))
    out ←
        labelled (sprintf ("failed to deploy " ∷ symbol ∷ ": " ∷ []))
          (d.deploy_test_token name symbol decimals)
    deployed_token symbol out

  -- `resolveTokens`, where both addresses are given.
  unfoldable pub given_tokens : ℕ → ℕ → Io S (ℕ × ℕ)
  given_tokens base quote = do
    check_token "base token" base
    check_token "quote token" quote
    require (not (eqb base quote)) "base and quote token must differ"
    return (base, quote)

  -- `resolveTokens`, where one is not.
  unfoldable pub test_tokens : Io S (ℕ × ℕ)
  test_tokens = do
    base ← deploy_test_token "Test FXRP" "FXRP" 6
    quote ← deploy_test_token "Test USDT0" "USDT0" 6
    return (base, quote)

  -- `resolveTokens`.
  unfoldable pub resolve_tokens : String → String → Io S (ℕ × ℕ)
  resolve_tokens base_hex quote_hex =
      if not (base_hex == "") && not (quote_hex == "")
      then given_tokens (d.eth.hex_to_address base_hex) (d.eth.hex_to_address quote_hex)
      else if d.equal_fold d.local_mode "false"
      then throw
          "BASE_TOKEN and QUOTE_TOKEN must be set on live networks — verify the current Coston2 FXRP and USDT0 addresses against official Flare sources before deploying"
      else test_tokens

  -- The validation of `main`.
  unfoldable pub preflight : Io S NoError
  preflight = do
    view (λ _. refused_if (address_not_zero d.eth d.code.flare_tee_manager "FlareTeeManager"))
    view (λ s.
        refused_if
          (address_has_code d.eth (some (d.rpc s)) d.code.flare_tee_manager "FlareTeeManager"))
    view (λ s. refused_if (key_has_funds d.eth (some (d.rpc s)) d.prv min_deploy_balance))

  abbrev pub write_address : String → ℕ → Io S NoError
  write_address out_file address s =
      if out_file == "" then (ok nil, s) else (ok nil, d.write_file out_file (d.eth.hex address) s)

  abbrev pub deploy_with : String → ℕ × ℕ → Io S (Option Deployed)
  deploy_with out_file (base, quote) = do
    address ← deploy_instruction_sender d.code base quote
    write_address out_file address
    return (some (record { base_token = base; quote_token = quote; address = address }))

  -- The end of `main`, once the checks have passed.
  unfoldable pub deploy : String → String → String → Io S (Option Deployed)
  deploy out_file base_hex quote_hex = do
    tokens ← resolve_tokens base_hex quote_hex
    deploy_with out_file tokens

  -- `main`, once `DefaultSupport` has returned; `none` for a run with `-preflight-only`.
  unfoldable pub main : Bool → String → String → String → Io S (Option Deployed)
  main preflight_only out_file base_hex quote_hex = do
    preflight
    if preflight_only then return none else deploy out_file base_hex quote_hex
