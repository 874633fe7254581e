-- ===== src/Tests/Auction.antt =====
-- An end-to-end run, with a result that the third round of polling finds. The outside is a clock,
-- in seconds.
use quietfill.Prelude.{
  map, ℕ, zero, suc, ◌+◌, ◌-◌, ◌<◌, ◌≡◌, ◌≢◌, ◌↔◌, refl, Bool, true, none, some, [], ◌∷◌, eqb, ltb,
  ◌==◌, if◌then◌else◌,
}
use quietfill.Hex.{trim_0x, trim_upper_0x}
use quietfill.World.{ok, fail as error}
use quietfill.Io.{nil, return, throw, view, labelled, attempt, require, ◌>>=◌, ◌>>◌}
use quietfill.Io.Loop.{loop}
use quietfill.Revert.{text, CallOutcome}
use quietfill.Support.{Receipt, check_tx, judge_receipt}
use quietfill.Instructions.{AuctionCode, Sent, sent, refused}
use quietfill.Node.Poll.{action_result, poll}
use quietfill.RunTest.{
  ActionResponse, nonnegative, TransactOpts, Chain, Token, ResultProxy, must_big, dealer_key,
  ensure_funds, send_round, send_tx_retry, send_tx, poll_round, poll_result,
}
use quietfill.RunTest.Arguments.{
  AbiType, address_type, uint256_type, uint64_type, bytes32_type, Value, Argument, value_at,
  address_at, big_int_at, uint64_at, bytes32_at, clear_result,
}
use quietfill.RunTest.Typed.{of_type}
use quietfill.RunTest.Stack.{Flags, AuctionBinding, Stack}
use quietfill.RunTest.Steps.{
  Terms, first_event, cache_extension_id, fetch_tee, escrow, create_auction, submit_bid,
  check_receipt, read_receipt, read_clear, acknowledge_bid, wait_out, request_clear, fetch_clear,
  settle, verify_settled,
}
use quietfill.RunTest.Main.{Passed, prepare, run_auction, main}
use quietfill.RunTest.Polling.{Waits, come, missing, read_result, poll_result-first}
use quietfill.RunTest.Retry.{Tries, Succeeds, send_tx_retry-first}
use quietfill.RunTest.Cached.{cache_extension_id-selector}
use quietfill.RunTest.Passed.{IsGenuine, main-IsGenuine}
use quietfill.Tests.Tools.{mined_at_once, chain_support, reporting, machine_report}

abbrev chain : Chain ℕ
chain = record {
  client = mined_at_once ℕ;
  keyed_transactor = λ key. ok nil;
  sleep = λ seconds s. seconds + s;
}

abbrev response : ℕ → ActionResponse
response status = record {
  status = status;
  log = "ok";
  result_data = "data";
  submission_tag = "threshold";
  signature =
      0 ∷ 1 ∷ 2 ∷ 3 ∷ 4 ∷ 5 ∷ 6 ∷ 7 ∷ 8 ∷ 9 ∷ 0 ∷ 1 ∷ 2 ∷ 3 ∷ 4 ∷ 5 ∷ 6 ∷ 7 ∷ 8 ∷ 9 ∷ 0 ∷ 1 ∷ 2 ∷ 3
      ∷ 4 ∷ 5 ∷ 6 ∷ 7 ∷ 8 ∷ 9 ∷ 0 ∷ 1 ∷ 2 ∷ 3 ∷ 4 ∷ 5 ∷ 6 ∷ 7 ∷ 8 ∷ 9 ∷ 0 ∷ 1 ∷ 2 ∷ 3 ∷ 4 ∷ 5 ∷ 6
      ∷ 7 ∷ 8 ∷ 9 ∷ 0 ∷ 1 ∷ 2 ∷ 3 ∷ 4 ∷ 5 ∷ 6 ∷ 7 ∷ 8 ∷ 9 ∷ 0 ∷ 1 ∷ 2 ∷ 3 ∷ 4 ∷ [];
}

-- The result is pending for five seconds.
abbrev proxy : ResultProxy ℕ
proxy = record {
  hex = λ id. "0x1";
  get_action_result =
      λ id s i. ok (record { status_code = 200; body = if ltb s 5 then "pending" else "done" });
  decode_action_response = λ t. ok (response (if t == "pending" then 2 else 1));
}

abbrev silent : ResultProxy ℕ
silent = record {
  hex = λ id. "0x1";
  get_action_result = λ id s i. error "connection refused";
  decode_action_response = λ t. ok (response 1);
}

abbrev done : ActionResponse
done = response 1

poll_result-first_example : (poll_result chain proxy 1 0 ≡ (ok done, 6)) ↔ (
    (n : ℕ) × (n < 20)
    × Waits chain proxy 1 n 0 6
    × (read_result chain proxy 1 6 ≡ ok done)
    × (done.status ≢ 2))
poll_result-first_example = poll_result-first chain proxy 1 0 6 done

-- The clock after so many rounds.
abbrev later : ℕ → ℕ → ℕ
later zero s = s
later (suc n) s = later n (3 + s)

silent-Waits : (n s : ℕ) → Waits chain silent 1 n s (later n s)
unfolding action_result poll
silent-Waits zero s = come
silent-Waits (suc n) s = missing "connection refused" refl (silent-Waits n (3 + s))

-- A call that is refused before ten seconds have passed.
abbrev call : TransactOpts → ℕ → Sent × ℕ
call opts s =
    if ltb s 10
    then (refused (record { message = "too early"; payload = text "0x" }), s)
    else (sent 1, s)

abbrev receipt : Receipt
receipt = record { status = 1; logs = 11 ∷ 12 ∷ [] }

send_tx_retry-first_example :
    (send_tx_retry chain "requestClear" call 5 7 5 0 ≡ (ok receipt, 10)) ↔ (
      (k : ℕ) × (k < 5)
      × (f : Bool) × (s₁ : ℕ) × Tries chain "requestClear" call 5 7 k true 0 f s₁
      × Succeeds chain "requestClear" call 5 7 f s₁ receipt 10)
send_tx_retry-first_example = send_tx_retry-first chain "requestClear" call 5 7 5 0 10 receipt refl

abbrev token : Token ℕ
token = record {
  balance_of = λ holder s. ok 0;
  mint = λ opts holder amount s. (ok 3, s);
  approve = λ opts spender amount s. (sent 4, s);
}

abbrev pub binding : AuctionBinding ℕ
binding = record {
  extension_id = λ s. ok 1;
  quote_amount = λ lot price s. ok 10;
  get_auction = λ id s. ok (record { tee_id = 20; state = 3 });
  create_auction = λ lot floor ceiling bid_deadline settle_deadline opts s. (sent 5, s);
  submit_private_bid = λ id ciphertext opts s. (sent 6, s);
  request_clear = λ id opts s. (sent 7, s);
  settle_auction = λ id result signature opts s. (sent 8, s);
  parse_auction_created = λ log. if eqb log 12 then ok 30 else error "another event";
  parse_private_bid_submitted = λ log. ok 31;
  parse_clear_requested = λ log. ok 32;
  parse_auction_settled = λ log. ok 33;
}

abbrev code : AuctionCode ℕ
code = record {
  client = mined_at_once ℕ;
  from = 5;
  flare_tee_manager = 9;
  keyed_transactor = ok nil;
  deploy_quiet_fill_auction = λ a b base quote s. (ok (77, 8), s);
  new_quiet_fill_auction = λ addr. ok nil;
  set_extension_id = λ addr s.
      (refused (record { message = "execution reverted"; payload = text "0x88f9fe3d" }), s);
  call_data = none;
  call_contract = λ from to bytes s. CallOutcome.returned [];
}

-- A value of each type: the dealer's address, the price, the nonce, and a commitment.
abbrev pub answer : Argument → Value
answer a = of_type a.type (numbers a.type)
  where
    numbers : AbiType → ℕ
    numbers address_type = 5
    numbers uint256_type = 2
    numbers uint64_type = 1
    numbers bytes32_type = 61

abbrev pub stack : Stack ℕ
stack = record {
  chain = chain;
  proxy = proxy;
  auction_code = code;
  set_string = λ t. some (nonnegative 2);
  hex_to_address = λ t. 40;
  hex_to_ecdsa = λ t. ok 5;
  pubkey_to_address = λ key. key;
  new_quiet_fill_auction = λ addr. ok binding;
  new_test_token = λ addr. ok token;
  libraries = reporting ℕ (machine_report 1 2);
  proxy_url = "http://proxy";
  tee_address = λ key. 20;
  now = λ s. s;
  time_until = λ t s. t - s;
  sleep_for = λ wait s. wait + s;
  read_random = λ s. (ok 60, s);
  pack_tuple = λ args vals. ok "bid";
  encrypt = λ plaintext key s. (ok "ciphertext", s);
  unpack = λ args bytes. ok (map answer args);
  threshold = "threshold";
}

abbrev flags : Flags
flags = record {
  instruction_sender = "0x40";
  base_token = "0x1";
  quote_token = "0x2";
  lot = "2";
  floor = "2";
  ceiling = "2";
  bid_price = "2";
  bid_window = 90;
  dealer_private_key = "";
}

abbrev passed : Passed
passed = record {
  contract = 40;
  auction = 30;
  tee = 20;
  bid_instruction = 31;
  clear_instruction = 32;
}

run : main stack flags (ok chain_support) 0 ≡ (ok passed, 92)
unfolding main prepare run_auction must_big dealer_key trim_0x trim_upper_0x cache_extension_id
    fetch_tee escrow ensure_funds create_auction submit_bid acknowledge_bid wait_out request_clear
    fetch_clear settle verify_settled first_event send_tx send_tx_retry send_round poll_result
    poll_round action_result poll loop check_tx judge_receipt attempt return throw view labelled
    require ◌>>=◌ ◌>>◌ check_receipt read_receipt read_clear clear_result address_at big_int_at
    uint64_at bytes32_at value_at
run = refl

main-IsGenuine_example :
    (t : Terms) × (b : AuctionBinding ℕ) × (s₁ : ℕ) × (prepare stack flags (ok chain_support) 0
      ≡ (ok t, s₁))
    × (ok binding ≡ ok b)
    × IsGenuine stack b t passed 92
main-IsGenuine_example = main-IsGenuine stack flags (ok chain_support) passed 0 92 run

abbrev pub terms : Terms
terms = record {
  sender_addr = 40;
  base_addr = 1;
  quote_addr = 2;
  lot = 2;
  floor = 2;
  ceiling = 2;
  bid_price = 2;
  bid_window = 90;
  seller_prv = 5;
  seller_addr = 5;
  dealer_prv = 5;
  dealer_addr = 5;
}

-- A contract whose cached id cannot be read.
abbrev unread : AuctionBinding ℕ
unread = record binding { extension_id = λ s. error "no code" }

cache_extension_id-selector_example : (cache_extension_id stack unread terms 0).0 ≡ ok nil
cache_extension_id-selector_example =
    cache_extension_id-selector stack unread terms
      (record { message = "execution reverted"; payload = text "0x88f9fe3d" }) 0 0 refl refl refl
      refl refl
