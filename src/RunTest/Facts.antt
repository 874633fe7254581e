-- ===== src/RunTest/Facts.antt =====
-- What a run of run-test brings about between two of its states.
use quietfill.Prelude.{
  [], ◌∷◌, ◌+◌, ◌%◌, ◌^◌, ltb, if◌then◌else◌, ℕ, String, ◌≡◌, true, some, List, length, ◌==◌,
}
use quietfill.World.{ok}
use quietfill.Support.{Receipt}
use quietfill.RunTest.{ActionResponse, send_tx, send_tx_retry, poll_result}
use quietfill.RunTest.Arguments.{
  Value, address, big_int, uint64, bytes32, bid_tuple, ClearResult, bid_receipt_args,
  clear_result_args, address_at, clear_result,
}
use quietfill.RunTest.Stack.{AuctionView, AuctionBinding, Stack}
use quietfill.RunTest.Steps.{Terms, first_event, auction_state_settled}

module _ {S : Type 0} (k : Stack S) (b : AuctionBinding S) (t : Terms) where
  -- From the one state to the other, createAuction is sent with the terms and the deadline and mined
  -- with the event of the auction, which GetAuction then says to be pinned to the TEE.
  abbrev pub Pinned : ℕ → ℕ → ℕ → S → S → Type 0
  Pinned tee_id bid_deadline auction_id s s' =
      (receipt : Receipt) × (a : AuctionView) × (send_tx k.chain "createAuction"
          (b.create_auction t.lot t.floor t.ceiling bid_deadline ((bid_deadline + 1800) % 2 ^ 64))
          t.seller_prv 0 s
        ≡ (ok receipt, s'))
      × (first_event b.parse_auction_created receipt.logs ≡ some auction_id)
      × (b.get_auction auction_id s' ≡ ok a)
      × (a.tee_id ≡ tee_id)

  -- A bid for the auction by the dealer, at the price of the terms, with a random salt, is packed,
  -- encrypted for the TEE's public key and sent with the fee; the event has the instruction.
  abbrev pub Submitted : ℕ → ℕ → ℕ → S → S → Type 0
  Submitted tee_pub auction_id instruction s s' =
      (salt : ℕ) × (plaintext ciphertext : String) × (receipt : Receipt) × (s₁ s₂ : S)
      × (k.read_random s ≡ (ok salt, s₁))
      × (k.pack_tuple bid_tuple (
            address t.dealer_addr
            ∷ address t.sender_addr
            ∷ big_int auction_id
            ∷ uint64 1
            ∷ big_int t.bid_price
            ∷ bytes32 salt
            ∷ [])
          ≡ ok plaintext)
      × (k.encrypt plaintext tee_pub s₁ ≡ (ok ciphertext, s₂))
      × (send_tx k.chain "submitPrivateBid" (b.submit_private_bid auction_id ciphertext)
            t.dealer_prv 1000000 s₂
          ≡ (ok receipt, s'))
      × (first_event b.parse_private_bid_submitted receipt.logs ≡ some instruction)

  -- The state after the time until two seconds past the deadline, if there is any.
  abbrev pub waited_until : ℕ → S → S
  waited_until bid_deadline s =
      let wait = k.time_until ((bid_deadline + 2) % 2 ^ 64) s in
      if ltb 0 wait then k.sleep_for wait s else s

  -- After that wait, requestClear is sent for the auction with the fee, five times at
  -- most; the event has the instruction.
  abbrev pub Requested : ℕ → ℕ → ℕ → S → S → Type 0
  Requested bid_deadline auction_id instruction s s' =
      (receipt : Receipt) × (s₁ : S) × (s₁ ≡ waited_until bid_deadline s)
      × (send_tx_retry k.chain "requestClear" (b.request_clear auction_id) t.seller_prv 1000000 5 s₁
          ≡ (ok receipt, s'))
      × (first_event b.parse_clear_requested receipt.logs ≡ some instruction)

  -- The TEE's answer to the bid's instruction is a success whose receipt names the dealer.
  abbrev pub Acknowledged : ℕ → S → S → Type 0
  Acknowledged instruction s s' =
      (resp : ActionResponse) × (vals : List Value) × (poll_result k.chain k.proxy instruction s
        ≡ (ok resp, s'))
      × (resp.status ≡ 1)
      × (k.unpack bid_receipt_args resp.result_data ≡ ok vals)
      × (address_at 2 vals ≡ some t.dealer_addr)

  -- The TEE's answer to the clear's instruction is a success, tagged for the threshold, with a
  -- signature of 65 bytes, and says that the dealer wins at the price of the bid.
  abbrev pub Cleared : ℕ → ClearResult × List ℕ → S → S → Type 0
  Cleared instruction signed s s' =
      (resp : ActionResponse) × (vals : List Value) × (poll_result k.chain k.proxy instruction s
        ≡ (ok resp, s'))
      × (resp.status ≡ 1)
      × ((resp.submission_tag == k.threshold) ≡ true)
      × (length signed.1 ≡ 65)
      × (resp.signature ≡ signed.1)
      × (k.unpack clear_result_args resp.result_data ≡ ok vals)
      × (clear_result vals ≡ some signed.0)
      × (signed.0.winner ≡ t.dealer_addr)
      × (signed.0.unit_price_wei ≡ t.bid_price)

  -- The settlement's transaction is mined with its event.
  abbrev pub Relayed : ℕ → ClearResult × List ℕ → S → S → Type 0
  Relayed auction_id signed s s' =
      (receipt : Receipt) × (ev : ℕ) × (send_tx k.chain "settleAuction"
          (b.settle_auction auction_id signed.0 signed.1) t.seller_prv 0 s
        ≡ (ok receipt, s'))
      × (first_event b.parse_auction_settled receipt.logs ≡ some ev)

  -- The auction is in the state Settled.
  abbrev pub IsSettled : ℕ → S → Type 0
  IsSettled auction_id s =
      (a : AuctionView) × (b.get_auction auction_id s ≡ ok a) × (a.state ≡ auction_state_settled)
