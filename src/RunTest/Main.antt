-- ===== src/RunTest/Main.antt =====
-- `main` of tools/cmd/run-test/main.go: its start, and the steps one after the other.
use quietfill.Prelude.{ℕ, not, ◌||◌, ◌==◌}
use quietfill.World.{Reply, ok}
use quietfill.Io.{Io, return, view, require, ◌>>=◌, ◌>>◌}
use quietfill.Support.{Support}
use quietfill.RunTest.{must_big, dealer_key}
use quietfill.RunTest.Stack.{Flags, AuctionBinding, Stack}
use quietfill.RunTest.Steps.{
  Terms, bid_deadline_at, cache_extension_id, fetch_tee, escrow, create_auction, submit_bid,
  acknowledge_bid, request_clear, fetch_clear, settle, verify_settled,
}

-- What the last lines report, but for the hash of the last transaction.
pub record Passed : Type 0 where
  pub contract : ℕ
  pub auction : ℕ
  pub tee : ℕ
  pub bid_instruction : ℕ
  pub clear_instruction : ℕ

module _ {S : Type 0} (k : Stack S) where
  -- The flags, the keys and the addresses; `support` is what `DefaultSupport` returns.
  unfoldable pub prepare : Flags → Reply Support → Io S Terms
  prepare flags support = do
    lot ← view (λ _. must_big k.set_string flags.lot "lot")
    floor ← view (λ _. must_big k.set_string flags.floor "floor")
    ceiling ← view (λ _. must_big k.set_string flags.ceiling "ceiling")
    bid_price ← view (λ _. must_big k.set_string flags.bid_price "bidPrice")
    require (not ((flags.base_token == "") || (flags.quote_token == "")))
        "baseToken and quoteToken are required (pre-build.sh writes them into config/extension.env)"
    found ← view (λ _. support)
    dealer_prv ← view (λ _. dealer_key k.hex_to_ecdsa flags.dealer_private_key found.prv)
    return (record {
      sender_addr = k.hex_to_address flags.instruction_sender;
      base_addr = k.hex_to_address flags.base_token;
      quote_addr = k.hex_to_address flags.quote_token;
      lot = lot;
      floor = floor;
      ceiling = ceiling;
      bid_price = bid_price;
      bid_window = flags.bid_window;
      seller_prv = found.prv;
      seller_addr = k.pubkey_to_address found.prv;
      dealer_prv = dealer_prv;
      dealer_addr = k.pubkey_to_address dealer_prv;
    })

  -- The steps.
  unfoldable pub run_auction : AuctionBinding S → Terms → Io S Passed
  run_auction b t = do
    cache_extension_id k b t
    tee_pub ← fetch_tee k b t
    escrow k b t
    bid_deadline ← view (λ s. ok (bid_deadline_at k b t (k.now s)))
    auction_id ← create_auction k b t (k.tee_address tee_pub) bid_deadline
    bid_instruction_id ← submit_bid k b t tee_pub auction_id
    acknowledge_bid k b t bid_instruction_id
    clear_instruction_id ← request_clear k b t bid_deadline auction_id
    signed ← fetch_clear k b t clear_instruction_id
    settle k b t auction_id signed
    verify_settled k b t auction_id
    return (record {
      contract = t.sender_addr;
      auction = auction_id;
      tee = k.tee_address tee_pub;
      bid_instruction = bid_instruction_id;
      clear_instruction = clear_instruction_id;
    })

  -- `main`.
  unfoldable pub main : Flags → Reply Support → Io S Passed
  main flags support = do
    t ← prepare flags support
    b ← view (λ _. k.new_quiet_fill_auction t.sender_addr)
    run_auction b t
