-- ===== src/DeployContract/Tokens.antt =====
-- What a successful run of deploy-contract has checked.
use quietfill.Prelude.{
  ℕ, ◌≡◌, ◌≢◌, ◌∙◌, ◌≤◌, ap, refl, sym, subst, String, true, not, ◌&&◌, Option, none, some, ◌==◌,
  arith, inl, inr, Bool-cases,
}
use quietfill.World.{Reply-cases, ok, Eth, Client}
use quietfill.Io.{NoError, ◌>>◌}
use quietfill.Io.Success.{
  view_success, labelled_success, >>_success, view-ok, throw-ok, return-ok, require-ok,
}
use quietfill.Deploy.{address_not_zero, address_has_code, key_has_funds, min_deploy_balance}
use quietfill.DeployContract.{
  Deployment, refused_if, describe_token, check_token, given_tokens, resolve_tokens, preflight,
}

pub refused_if-ok : (o : Option String) {n : NoError} → refused_if o ≡ ok n → o ≡ none
refused_if-ok none h = refl
refused_if-ok (some e) h = ground (arith, h)

not_zero :
    (eth : Eth) (addr : ℕ) (label : String) → address_not_zero eth addr label ≡ none → addr ≢ 0
unfolding address_not_zero
not_zero eth addr label h = ground (arith, h)

-- An address has code, as a client answers.
abbrev pub HasCode : Client → ℕ → Type 0
HasCode client addr = (size : ℕ) × (client.code_at addr ≡ ok size) × (size ≢ 0)

pub has_code :
    (eth : Eth) (client : Client) (addr : ℕ) (label : String)
    → address_has_code eth (some client) addr label ≡ none
    → HasCode client addr
unfolding address_has_code
has_code eth client addr label h = elim (Reply-cases (client.code_at addr)) [
  | inl (size, found) ↦ (size, found, ground (arith, rw found at h))
  | inr (e, failed) ↦ ground (arith, rw failed at h)
]

-- The key's address has the least balance that a deployment takes.
abbrev pub HasFunds : Eth → Client → ℕ → Type 0
HasFunds eth client key =
    (balance : ℕ) × (client.balance_at (eth.pubkey_to_address key) ≡ ok balance)
    × (min_deploy_balance ≤ balance)

has_funds :
    (eth : Eth) (client : Client) (key : ℕ)
    → key_has_funds eth (some client) key min_deploy_balance ≡ none
    → HasFunds eth client key
unfolding key_has_funds
has_funds eth client key h = elim (Reply-cases (client.balance_at (eth.pubkey_to_address key))) [
  | inl (balance, found) ↦ (balance, found, ground (arith, rw found at h))
  | inr (e, failed) ↦ ground (arith, rw failed at h)
]

module _ {S : Type 0} (d : Deployment S) where
  -- A token's address is not zero, has code, and answers symbol() and decimals().
  abbrev pub IsToken : ℕ → S → Type 0
  IsToken addr s =
      (addr ≢ 0)
      × HasCode (d.rpc s) addr
      × ((symbol : String) × (d.symbol addr s ≡ ok symbol))
      × ((decimals : ℕ) × (d.decimals addr s ≡ ok decimals))

  check_token-IsToken :
      (name : String) (addr : ℕ) (s s' : S) {n : NoError}
      → check_token d name addr s ≡ (ok n, s')
      → IsToken addr s × (s ≡ s')
  unfolding check_token describe_token ◌>>◌
  check_token-IsToken name addr s s' h = view_success _ _ h λ _ nonzero h₁.
      view_success _ _ h₁ λ _ coded h₂. labelled_success _ _ _ h₂ λ _ _ h₃.
        labelled_success _ _ _ h₃ λ symbol symbols h₄.
          labelled_success _ _ _ h₄ λ decimals decimal returned. (
            (
              not_zero d.eth addr name (refused_if-ok _ nonzero),
              has_code d.eth (d.rpc s) addr name (refused_if-ok _ coded),
              (symbol, symbols),
              (decimals, decimal),
            ),
            (return-ok returned).1,
          )

  given_tokens-IsToken :
      (base quote b q : ℕ) (s s' : S)
      → given_tokens d base quote s ≡ (ok (b, q), s')
      → (b ≡ base) × (q ≡ quote) × (base ≢ quote) × IsToken base s × IsToken quote s × (s ≡ s')
  unfolding given_tokens
  given_tokens-IsToken base quote b q s s' h = >>_success _ _ h λ _ s₁ based h₁.
      >>_success _ _ h₁ λ _ s₂ quoted h₂. >>_success _ _ h₂ λ _ s₃ differ returned.
        let (base_good, e₁) = check_token-IsToken "base token" base s s₁ based in
        let (quote_good, e₂) = check_token-IsToken "quote token" quote s₁ s₂ quoted in
        let (apart, e₃) = require-ok _ _ _ differ in
        let (same, e₄) = return-ok returned in
        (
          ap (λ (t : ℕ × ℕ). t.0) (sym same),
          ap (λ (t : ℕ × ℕ). t.1) (sym same),
          ground (arith, apart),
          base_good,
          subst (IsToken quote) (sym e₁) quote_good,
          e₁ ∙ e₂ ∙ e₃ ∙ e₄,
        )

  -- What the validation has seen.
  abbrev pub IsReady : S → Type 0
  IsReady s =
      (d.code.flare_tee_manager ≢ 0)
      × HasCode (d.rpc s) d.code.flare_tee_manager
      × HasFunds d.eth (d.rpc s) d.prv

  pub preflight-IsReady :
      (s s' : S) {n : NoError} → preflight d s ≡ (ok n, s') → IsReady s × (s ≡ s')
  unfolding preflight ◌>>◌
  preflight-IsReady s s' h =
      let manager = d.code.flare_tee_manager in
      view_success _ _ h λ _ nonzero h₁. view_success _ _ h₁ λ _ coded h₂.
        let (funded, same) = view-ok _ h₂ in
        (
          (
            not_zero d.eth manager "FlareTeeManager" (refused_if-ok _ nonzero),
            has_code d.eth (d.rpc s) manager "FlareTeeManager" (refused_if-ok _ coded),
            has_funds d.eth (d.rpc s) d.prv (refused_if-ok _ funded),
          ),
          same,
        )

  -- Two different tokens.
  abbrev pub ArePair : ℕ → ℕ → S → Type 0
  ArePair base quote s = (base ≢ quote) × IsToken base s × IsToken quote s

  -- On a live network, where LOCAL_MODE is false, resolveTokens succeeds only with two different
  -- tokens that are given.
  pub resolve_tokens-live :
      (base_hex quote_hex : String) (base quote : ℕ) (s s' : S)
      → d.equal_fold d.local_mode "false" ≡ true
      → resolve_tokens d base_hex quote_hex s ≡ (ok (base, quote), s')
      → ArePair base quote s
  unfolding resolve_tokens
  resolve_tokens-live base_hex quote_hex base quote s s' live h =
      elim (Bool-cases (not (base_hex == "") && not (quote_hex == ""))) [
        | inl given ↦
            let (b, q, pair, base_good, quote_good, _) =
              given_tokens-IsToken _ _ base quote s s' (rw given at h) in
            rw (b, q) (pair, base_good, quote_good)
        | inr missing ↦ absurd (throw-ok _ s (rw (missing, live) at h))
      ]
