-- ===== src/RunTest/Arguments.antt =====
-- The ABI arguments that `init` of tools/cmd/run-test/main.go sets up, and how `main` takes the
-- values apart that `Unpack` returns for them: by an index and a type assertion, which panic where
-- the value is not there or has another type.
use quietfill.Prelude.{ℕ, zero, suc, String, Option, none, some, List, [], ◌∷◌}

-- The types that occur, and the Go values of them, as `interface{}`.
pub data AbiType : Type 0 where
  address_type uint256_type uint64_type bytes32_type : AbiType

pub data Value : Type 0 where
  address : ℕ → Value  -- `common.Address`
  big_int : ℕ → Value  -- `*big.Int`
  uint64 : ℕ → Value
  bytes32 : ℕ → Value  -- `[32]byte`

pub record Argument : Type 0 where
  pub name : String
  pub type : AbiType

abbrev named : String → AbiType → Argument
named name type = record { name = name; type = type }

-- The components of `bidTuple`, the one argument of `bidTupleArgs`.
abbrev pub bid_tuple : List Argument
bid_tuple =
    named "bidder" address_type
    ∷ named "contractAddr" address_type
    ∷ named "auctionId" uint256_type
    ∷ named "nonce" uint64_type
    ∷ named "unitPriceWei" uint256_type
    ∷ named "salt" bytes32_type
    ∷ []

abbrev pub bid_receipt_args : List Argument
bid_receipt_args =
    named "contractAddr" address_type
    ∷ named "auctionId" uint256_type
    ∷ named "bidder" address_type
    ∷ named "nonce" uint64_type
    ∷ named "bidCommitment" bytes32_type
    ∷ []

abbrev pub clear_result_args : List Argument
clear_result_args =
    named "contractAddr" address_type
    ∷ named "auctionId" uint256_type
    ∷ named "winner" address_type
    ∷ named "unitPriceWei" uint256_type
    ∷ named "winningNonce" uint64_type
    ∷ named "winningCommitment" bytes32_type
    ∷ named "submittedBidCount" uint256_type
    ∷ named "eligibleBidCount" uint256_type
    ∷ []

-- `privateBid`, and its fields, in order.
pub record PrivateBid : Type 0 where
  pub bidder : ℕ
  pub contract_addr : ℕ
  pub auction_id : ℕ
  pub nonce : ℕ
  pub unit_price_wei : ℕ
  pub salt : ℕ

abbrev pub bid_values : PrivateBid → List Value
bid_values b =
    address b.bidder
    ∷ address b.contract_addr
    ∷ big_int b.auction_id
    ∷ uint64 b.nonce
    ∷ big_int b.unit_price_wei
    ∷ bytes32 b.salt
    ∷ []

-- `QuietFillAuctionClearResult`.
pub record ClearResult : Type 0 where
  pub contract_addr : ℕ
  pub auction_id : ℕ
  pub winner : ℕ
  pub unit_price_wei : ℕ
  pub winning_nonce : ℕ
  pub winning_commitment : ℕ
  pub submitted_bid_count : ℕ
  pub eligible_bid_count : ℕ

-- `vals[i]`; `none` where it panics.
unfoldable pub value_at : ℕ → List Value → Option Value
value_at i [] = none
value_at zero (v ∷ vs) = some v
value_at (suc i) (v ∷ vs) = value_at i vs

-- The type assertions, each of which panics on a value of another type.
abbrev pub as_address : Value → Option ℕ
as_address (address a) = some a
as_address _ = none

abbrev pub as_big_int : Value → Option ℕ
as_big_int (big_int n) = some n
as_big_int _ = none

abbrev pub as_uint64 : Value → Option ℕ
as_uint64 (uint64 n) = some n
as_uint64 _ = none

abbrev pub as_bytes32 : Value → Option ℕ
as_bytes32 (bytes32 n) = some n
as_bytes32 _ = none

infixl 5 ◌>>=◌
abbrev ◌>>=◌ : {A B : Type 0} → Option A → (A → Option B) → Option B
none >>= f = none
(some a) >>= f = f a

unfoldable pub address_at : ℕ → List Value → Option ℕ
unfolding value_at
address_at i vals = value_at i vals >>= as_address

unfoldable pub big_int_at : ℕ → List Value → Option ℕ
unfolding value_at
big_int_at i vals = value_at i vals >>= as_big_int

unfoldable pub uint64_at : ℕ → List Value → Option ℕ
unfolding value_at
uint64_at i vals = value_at i vals >>= as_uint64

unfoldable pub bytes32_at : ℕ → List Value → Option ℕ
unfolding value_at
bytes32_at i vals = value_at i vals >>= as_bytes32

-- The literal of `quietfill.QuietFillAuctionClearResult`.
unfoldable pub clear_result : List Value → Option ClearResult
unfolding address_at big_int_at uint64_at bytes32_at
clear_result vals = do
  contract_addr ← address_at 0 vals
  auction_id ← big_int_at 1 vals
  winner ← address_at 2 vals
  unit_price_wei ← big_int_at 3 vals
  winning_nonce ← uint64_at 4 vals
  winning_commitment ← bytes32_at 5 vals
  submitted_bid_count ← big_int_at 6 vals
  eligible_bid_count ← big_int_at 7 vals
  some (record {
    contract_addr = contract_addr;
    auction_id = auction_id;
    winner = winner;
    unit_price_wei = unit_price_wei;
    winning_nonce = winning_nonce;
    winning_commitment = winning_commitment;
    submitted_bid_count = submitted_bid_count;
    eligible_bid_count = eligible_bid_count;
  })
