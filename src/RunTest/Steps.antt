-- ===== src/RunTest/Steps.antt =====
-- The steps 0 to 9 of `main` of tools/cmd/run-test/main.go.
use quietfill.Prelude.{
  ℕ, ◌+◌, ◌%◌, ◌^◌, String, Bool, true, false, not, ◌&&◌, ◌||◌, Option, none, some, List, [], ◌∷◌,
  length, sprintf, eqb, ltb, ◌==◌, if◌then◌else◌,
}
use quietfill.Decimal.{decimal}
use quietfill.World.{Reply, ok, fail as error}
use quietfill.Io.{Io, NoError, nil, return, throw, view, labelled, attempt, require, ◌>>=◌, ◌>>◌}
use quietfill.TeeCalls.{tee_info}
use quietfill.Instructions.{set_extension_id}
use quietfill.RunTest.{contains, ensure_funds, send_tx, send_tx_retry, poll_result}
use quietfill.RunTest.Arguments.{
  Value, bid_tuple, bid_values, bid_receipt_args, clear_result_args, ClearResult, address_at,
  bytes32_at, clear_result,
}
use quietfill.RunTest.Stack.{AuctionBinding, Stack}

abbrev pub instruction_fee_wei : ℕ
instruction_fee_wei = 1000000

abbrev pub auction_state_settled : ℕ
auction_state_settled = 3

-- What the flags and the keys come to.
pub record Terms : Type 0 where
  pub sender_addr : ℕ
  pub base_addr : ℕ
  pub quote_addr : ℕ
  pub lot : ℕ
  pub floor : ℕ
  pub ceiling : ℕ
  pub bid_price : ℕ
  pub bid_window : ℕ
  pub seller_prv : ℕ
  pub seller_addr : ℕ
  pub dealer_prv : ℕ
  pub dealer_addr : ℕ

-- `for _, l := range receipt.Logs { if ev, err := parse(*l); err == nil { …; break } }`.
unfoldable pub first_event : (ℕ → Reply ℕ) → List ℕ → Option ℕ
first_event parse [] = none
first_event parse (log ∷ logs) =
    let later = first_event parse logs in elim (parse log) [ ok ev ↦ some ev | error _ ↦ later ]

-- The hash that such a loop assigns: the zero hash where there is no event.
abbrev pub instruction_of : (ℕ → Reply ℕ) → List ℕ → ℕ
instruction_of parse logs = elim (first_event parse logs) [ none ↦ 0 | some id ↦ id ]

abbrev pub is_some : Option ℕ → Bool
is_some none = false
is_some (some _) = true

-- The three texts by which an error says that the id is set.
unfoldable pub already_set : String → Bool
unfolding contains
already_set e =
    contains e "already set" || contains e "ExtensionIdAlreadySet" || contains e "0x88f9fe3d"

-- An index or a type assertion that may panic.
abbrev pub asserted : {S A : Type 0} → Option A → Io S A
asserted none = throw "panic"
asserted (some a) = return a

module _ {S : Type 0} (k : Stack S) (b : AuctionBinding S) (t : Terms) where
  abbrev pub cached : Reply ℕ → Bool
  cached (ok id) = ltb 0 id
  cached (error _) = false

  abbrev pub tolerated : Reply NoError → Io S NoError
  tolerated (ok _) = return nil
  tolerated (error e) =
      if already_set e
      then return nil
      else throw (
          sprintf (
            "setExtensionId failed — is the extension registered? Check that pre-build.sh completed. Error: "
            ∷ e ∷ []))

  -- Step 0.
  unfoldable pub cache_extension_id : Io S NoError
  unfolding already_set
  cache_extension_id s =
      if cached (b.extension_id s)
      then (ok nil, s)
      else (attempt (set_extension_id k.auction_code t.sender_addr) >>= tolerated) s

  -- Step 1: the public key of the TEE.
  unfoldable pub fetch_tee : Io S ℕ
  unfolding tee_info
  fetch_tee = do
    info ← labelled "cannot fetch TEE info: " (view (tee_info k.libraries k.proxy_url))
    labelled "cannot parse TEE public key: " (view (λ _. k.libraries.parse_pub_key info.public_key))

  -- Step 2.
  unfoldable pub escrow : Io S NoError
  escrow = do
    base_token ← view (λ _. k.new_test_token t.base_addr)
    quote_token ← view (λ _. k.new_test_token t.quote_addr)
    max_quote ← labelled "quoteAmount call failed: " (view (b.quote_amount t.lot t.ceiling))
    ensure_funds k.chain base_token "base" t.seller_addr t.seller_prv t.lot
    ensure_funds k.chain quote_token "quote" t.dealer_addr t.dealer_prv max_quote
    send_tx k.chain "approve base escrow" (λ opts. base_token.approve opts t.sender_addr t.lot)
        t.seller_prv 0
    send_tx k.chain "approve quote escrow"
        (λ opts. quote_token.approve opts t.sender_addr max_quote) t.dealer_prv 0
    return nil

  -- `uint64(now + *bidWindowF)`.
  abbrev pub bid_deadline_at : ℕ → ℕ
  bid_deadline_at now = (now + t.bid_window) % 2 ^ 64

  abbrev pub created : Option ℕ → Io S ℕ
  created none = throw "AuctionCreated event not found"
  created (some id) = return id

  -- Step 3: the auction that is created, with its bid deadline.
  unfoldable pub create_auction : ℕ → ℕ → Io S ℕ
  create_auction tee_id bid_deadline = do
    receipt ←
        send_tx k.chain "createAuction"
          (b.create_auction t.lot t.floor t.ceiling bid_deadline ((bid_deadline + 1800) % 2 ^ 64))
          t.seller_prv 0
    auction_id ← created (first_event b.parse_auction_created receipt.logs)
    auction ← view (b.get_auction auction_id)
    require (eqb auction.tee_id tee_id) "the auction pinned a TEE that the proxy does not serve"
    return auction_id

  -- Step 4: the instruction of the bid.
  unfoldable pub submit_bid : ℕ → ℕ → Io S ℕ
  submit_bid tee_pub auction_id = do
    salt ← k.read_random
    plaintext ← labelled "failed to ABI-encode bid: " (
        view (λ _. k.pack_tuple bid_tuple (
          bid_values (record {
            bidder = t.dealer_addr;
            contract_addr = t.sender_addr;
            auction_id = auction_id;
            nonce = 1;
            unit_price_wei = t.bid_price;
            salt = salt;
          }))))
    ciphertext ← labelled "ECIES encryption failed: " (k.encrypt plaintext tee_pub)
    receipt ←
        send_tx k.chain "submitPrivateBid" (b.submit_private_bid auction_id ciphertext) t.dealer_prv
          instruction_fee_wei
    let id = instruction_of b.parse_private_bid_submitted receipt.logs in
        require (not (eqb id 0)) "PrivateBidSubmitted event not found" >> return id

  -- The bidder that a receipt names, and its commitment.
  unfoldable pub check_receipt : List Value → Io S ℕ
  unfolding address_at bytes32_at
  check_receipt receipt_vals = do
    got ← asserted (address_at 2 receipt_vals)
    require (eqb got t.dealer_addr) "the bid receipt names another bidder"
    asserted (bytes32_at 4 receipt_vals)

  unfoldable pub read_receipt : String → Io S ℕ
  read_receipt bytes = do
    receipt_vals ←
        labelled "cannot decode bid receipt: " (view (λ _. k.unpack bid_receipt_args bytes))
    check_receipt receipt_vals

  -- Step 5: the commitment that the receipt of the bid has.
  unfoldable pub acknowledge_bid : ℕ → Io S ℕ
  acknowledge_bid bid_instruction_id = do
    resp ← poll_result k.chain k.proxy bid_instruction_id
    require (eqb resp.status 1) (sprintf ("TEE rejected the bid: " ∷ resp.log ∷ []))
    read_receipt resp.result_data

  -- The wait of step 6.
  unfoldable pub wait_out : ℕ → Io S NoError
  wait_out bid_deadline s =
      let wait = k.time_until ((bid_deadline + 2) % 2 ^ 64) s in
      if ltb 0 wait then (ok nil, k.sleep_for wait s) else (ok nil, s)

  -- Step 6: the instruction of the clear.
  unfoldable pub request_clear : ℕ → ℕ → Io S ℕ
  request_clear bid_deadline auction_id = do
    wait_out bid_deadline
    receipt ←
        send_tx_retry k.chain "requestClear" (b.request_clear auction_id) t.seller_prv
          instruction_fee_wei 5
    let id = instruction_of b.parse_clear_requested receipt.logs in
        require (not (eqb id 0)) "ClearRequested event not found" >> return id

  unfoldable pub read_clear : String → Io S ClearResult
  unfolding clear_result
  read_clear bytes = do
    clear_vals ←
        labelled "cannot decode clear result: " (view (λ _. k.unpack clear_result_args bytes))
    asserted (clear_result clear_vals)

  -- Step 7: the result, with the signature that the proxy has for it.
  unfoldable pub fetch_clear : ℕ → Io S (ClearResult × List ℕ)
  fetch_clear clear_instruction_id = do
    resp ← poll_result k.chain k.proxy clear_instruction_id
    require (eqb resp.status 1) (sprintf ("TEE clear failed: " ∷ resp.log ∷ []))
    require (resp.submission_tag == k.threshold)
        "the contract only verifies threshold-tagged signatures"
    require (eqb (length resp.signature) 65) (
        sprintf (
          "proxy returned "
          ∷ decimal (length resp.signature)
          ∷ "-byte TEE signature, want 65"
          ∷ []))
    result ← read_clear resp.result_data
    require (eqb result.winner t.dealer_addr && eqb result.unit_price_wei t.bid_price)
        "unexpected clear outcome"
    return (result, resp.signature)

  -- Step 8.
  unfoldable pub settle : ℕ → ClearResult × List ℕ → Io S NoError
  settle auction_id signed = do
    receipt ←
        send_tx k.chain "settleAuction" (b.settle_auction auction_id signed.0 signed.1) t.seller_prv
          0
    require (is_some (first_event b.parse_auction_settled receipt.logs))
        "AuctionSettled event not found"

  -- Step 9, without the balances, which are only logged.
  unfoldable pub verify_settled : ℕ → Io S NoError
  verify_settled auction_id = do
    auction ← view (b.get_auction auction_id)
    require (eqb auction.state auction_state_settled)
        (sprintf ("auction state is " ∷ decimal auction.state ∷ ", want Settled" ∷ []))
