-- ===== src/RunTest/Stack.antt =====
-- What `main` of tools/cmd/run-test/main.go is given and what it calls: its flags, the auction's
-- binding, the codecs, and the clock.
use quietfill.Prelude.{ℕ, String, List, Option}
use quietfill.World.{Reply}
use quietfill.Io.{Io}
use quietfill.TeeCalls.{TeeLibraries}
use quietfill.Instructions.{Sent, AuctionCode}
use quietfill.RunTest.Arguments.{Argument, Value, ClearResult}
use quietfill.RunTest.{BigInt, TransactOpts, Chain, Token, ResultProxy}

-- The flags, and the variable `DEALER_PRIVATE_KEY`; `bid_window` is an int64 modulo 2 ^ 64.
pub record Flags : Type 0 where
  pub instruction_sender : String
  pub base_token : String
  pub quote_token : String
  pub lot : String
  pub floor : String
  pub ceiling : String
  pub bid_price : String
  pub bid_window : ℕ
  pub dealer_private_key : String

-- What `GetAuction` returns: the fields that are read.
pub record AuctionView : Type 0 where
  pub tee_id : ℕ
  pub state : ℕ

-- `*quietfill.QuietFillAuction`.
pub record AuctionBinding (S : Type 0) : Type 0 where
  pub extension_id : S → Reply ℕ
  pub quote_amount : ℕ → ℕ → S → Reply ℕ
  pub get_auction : ℕ → S → Reply AuctionView
  pub create_auction : ℕ → ℕ → ℕ → ℕ → ℕ → TransactOpts → S → Sent × S
  pub submit_private_bid : ℕ → String → TransactOpts → S → Sent × S
  pub request_clear : ℕ → TransactOpts → S → Sent × S
  pub settle_auction : ℕ → ClearResult → List ℕ → TransactOpts → S → Sent × S
  -- The events: the auction's id, the instructions' ids, and the clearing price.
  pub parse_auction_created : ℕ → Reply ℕ
  pub parse_private_bid_submitted : ℕ → Reply ℕ
  pub parse_clear_requested : ℕ → Reply ℕ
  pub parse_auction_settled : ℕ → Reply ℕ

-- The running stack and the libraries.
pub record Stack (S : Type 0) : Type 0 where
  pub chain : Chain S
  pub proxy : ResultProxy S
  pub auction_code : AuctionCode S
  pub set_string : String → Option BigInt
  pub hex_to_address : String → ℕ
  pub hex_to_ecdsa : String → Reply ℕ
  pub pubkey_to_address : ℕ → ℕ  -- of a key's public half
  pub new_quiet_fill_auction : ℕ → Reply (AuctionBinding S)
  pub new_test_token : ℕ → Reply (Token S)
  pub libraries : TeeLibraries S
  pub proxy_url : String  -- the flag -p
  pub tee_address : ℕ → ℕ  -- of a public key
  pub now : S → ℕ  -- `time.Now().Unix()`
  -- `time.Until(time.Unix(t, 0))`, 0 where it is not positive; and `time.Sleep` of it.
  pub time_until : ℕ → S → ℕ
  pub sleep_for : ℕ → S → S
  pub read_random : Io S ℕ
  -- `Pack` of one tuple with these components, and `Unpack` of these arguments.
  pub pack_tuple : List Argument → List Value → Reply String
  pub encrypt : String → ℕ → Io S String
  pub unpack : List Argument → String → Reply (List Value)
  pub threshold : String  -- `teenodetypes.Threshold`
