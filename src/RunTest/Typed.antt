-- ===== src/RunTest/Typed.antt =====
-- The types of the values that run-test packs and unpacks.
use quietfill.Prelude.{
  ℕ, ◌≡◌, ◌∙◌, ap, refl, String, Option, none, some, List, [], ◌∷◌, ◌==◌, if◌then◌else◌,
}
use quietfill.RunTest.Arguments.{
  AbiType, address_type, uint256_type, uint64_type, bytes32_type, Value, address, big_int, uint64,
  bytes32, Argument, bid_tuple, bid_receipt_args, clear_result_args, PrivateBid, bid_values,
  ClearResult,
}

abbrev pub type_of : Value → AbiType
type_of (address a) = address_type
type_of (big_int n) = uint256_type
type_of (uint64 n) = uint64_type
type_of (bytes32 n) = bytes32_type

abbrev pub of_type : AbiType → ℕ → Value
of_type address_type n = address n
of_type uint256_type n = big_int n
of_type uint64_type n = uint64 n
of_type bytes32_type n = bytes32 n

abbrev number : Value → ℕ
number (address n) = n
number (big_int n) = n
number (uint64 n) = n
number (bytes32 n) = n

of_type-type_of : (v : Value) → v ≡ of_type (type_of v) (number v)
of_type-type_of (address n) = refl
of_type-type_of (big_int n) = refl
of_type-type_of (uint64 n) = refl
of_type-type_of (bytes32 n) = refl

pub type_of-of_type : (t : AbiType) (n : ℕ) → type_of (of_type t n) ≡ t
type_of-of_type address_type n = refl
type_of-of_type uint256_type n = refl
type_of-of_type uint64_type n = refl
type_of-of_type bytes32_type n = refl

-- One value for each argument, of the argument's type.
abbrev pub Fits : List Argument → List Value → Type 0
Fits [] [] = Unit
Fits [] (v ∷ vs) = ⊥
Fits (a ∷ args) [] = ⊥
Fits (a ∷ args) (v ∷ vs) = (type_of v ≡ a.type) × Fits args vs

-- The first value, and the others, which fit the other arguments.
Fits-first :
    (a : Argument) (args : List Argument) (vals : List Value)
    → Fits (a ∷ args) vals
    → (n : ℕ) × (rest : List Value) × (vals ≡ of_type a.type n ∷ rest) × Fits args rest
Fits-first a args [] fits = absurd fits
Fits-first a args (v ∷ vs) (same, fits) =
    (number v, vs, ap (λ w. w ∷ vs) (of_type-type_of v ∙ ap (λ t. of_type t (number v)) same), fits)

-- The value that stands in the place of the argument with this name.
unfoldable pub value_named : List Argument → List Value → String → Option Value
value_named [] vals name = none
value_named (a ∷ args) [] name = none
value_named (a ∷ args) (v ∷ vs) name =
    let later = value_named args vs name in if a.name == name then some v else later

-- What a list of arguments says of the values that fit it: a number for each.
abbrev Numbers : List Argument → List Value → Type 0
Numbers [] vals = vals ≡ []
Numbers (a ∷ args) vals =
    (n : ℕ) × (rest : List Value) × (vals ≡ of_type a.type n ∷ rest) × Numbers args rest

Fits-Numbers : (args : List Argument) (vals : List Value) → Fits args vals → Numbers args vals
Fits-Numbers [] [] fits = refl
Fits-Numbers [] (v ∷ vs) fits = absurd fits
Fits-Numbers (a ∷ args) vals fits =
    let (n, rest, split, fits') = Fits-first a args vals fits in
    (n, rest, split, Fits-Numbers args rest fits')

-- The values of a clear result and of a receipt, in the order of the arguments.
abbrev pub clear_values : ClearResult → List Value
clear_values r =
    address r.contract_addr
    ∷ big_int r.auction_id
    ∷ address r.winner
    ∷ big_int r.unit_price_wei
    ∷ uint64 r.winning_nonce
    ∷ bytes32 r.winning_commitment
    ∷ big_int r.submitted_bid_count
    ∷ big_int r.eligible_bid_count
    ∷ []

pub record BidReceipt : Type 0 where
  pub contract_addr : ℕ
  pub auction_id : ℕ
  pub bidder : ℕ
  pub nonce : ℕ
  pub bid_commitment : ℕ

abbrev pub receipt_values : BidReceipt → List Value
receipt_values r =
    address r.contract_addr
    ∷ big_int r.auction_id
    ∷ address r.bidder
    ∷ uint64 r.nonce
    ∷ bytes32 r.bid_commitment
    ∷ []

pub Fits-clear_values :
    (vals : List Value) → Fits clear_result_args vals → (r : ClearResult) × (vals ≡ clear_values r)
Fits-clear_values vals fits =
    let (
      a,
      r₁,
      e₁,
      (b, r₂, e₂, (c, r₃, e₃, (d, r₄, e₄, (e, r₅, e₅, (f, r₆, e₆, (g, r₇, e₇, (h, r₈, e₈, e₉))))))),
    ) =
      Fits-Numbers clear_result_args vals fits in
    (
      record {
        contract_addr = a;
        auction_id = b;
        winner = c;
        unit_price_wei = d;
        winning_nonce = e;
        winning_commitment = f;
        submitted_bid_count = g;
        eligible_bid_count = h;
      },
      cc (e₁, e₂, e₃, e₄, e₅, e₆, e₇, e₈, e₉),
    )

pub Fits-receipt_values :
    (vals : List Value) → Fits bid_receipt_args vals → (r : BidReceipt) × (vals ≡ receipt_values r)
Fits-receipt_values vals fits =
    let (a, r₁, e₁, (b, r₂, e₂, (c, r₃, e₃, (d, r₄, e₄, (e, r₅, e₅, e₆))))) =
      Fits-Numbers bid_receipt_args vals fits in
    (
      record { contract_addr = a; auction_id = b; bidder = c; nonce = d; bid_commitment = e },
      cc (e₁, e₂, e₃, e₄, e₅, e₆),
    )

-- The fields of a bid fit the components of the tuple that it is packed by.
pub bid_values-Fits : (bid : PrivateBid) → Fits bid_tuple (bid_values bid)
bid_values-Fits bid = (refl, (refl, (refl, (refl, (refl, (refl, tt))))))

-- The fields of a clear result are the values of the arguments with their names.
abbrev pub ClearNamed : List Value → ClearResult → Type 0
ClearNamed vals r =
    (value_named clear_result_args vals "contractAddr" ≡ some (address r.contract_addr))
    × (value_named clear_result_args vals "auctionId" ≡ some (big_int r.auction_id))
    × (value_named clear_result_args vals "winner" ≡ some (address r.winner))
    × (value_named clear_result_args vals "unitPriceWei" ≡ some (big_int r.unit_price_wei))
    × (value_named clear_result_args vals "winningNonce" ≡ some (uint64 r.winning_nonce))
    × (value_named clear_result_args vals "winningCommitment" ≡ some (bytes32 r.winning_commitment))
    × (value_named clear_result_args vals "submittedBidCount"
        ≡ some (big_int r.submitted_bid_count))
    × (value_named clear_result_args vals "eligibleBidCount" ≡ some (big_int r.eligible_bid_count))

pub clear_values-ClearNamed : (r : ClearResult) → ClearNamed (clear_values r) r
unfolding value_named
clear_values-ClearNamed r = (refl, refl, refl, refl, refl, refl, refl, refl)

-- So are those of a receipt,
abbrev pub ReceiptNamed : List Value → BidReceipt → Type 0
ReceiptNamed vals r =
    (value_named bid_receipt_args vals "contractAddr" ≡ some (address r.contract_addr))
    × (value_named bid_receipt_args vals "auctionId" ≡ some (big_int r.auction_id))
    × (value_named bid_receipt_args vals "bidder" ≡ some (address r.bidder))
    × (value_named bid_receipt_args vals "nonce" ≡ some (uint64 r.nonce))
    × (value_named bid_receipt_args vals "bidCommitment" ≡ some (bytes32 r.bid_commitment))

pub receipt_values-ReceiptNamed : (r : BidReceipt) → ReceiptNamed (receipt_values r) r
unfolding value_named
receipt_values-ReceiptNamed r = (refl, refl, refl, refl, refl)

-- and the components of the tuple that a bid is packed by have the values of its fields.
abbrev pub BidNamed : List Value → PrivateBid → Type 0
BidNamed vals bid =
    (value_named bid_tuple vals "bidder" ≡ some (address bid.bidder))
    × (value_named bid_tuple vals "contractAddr" ≡ some (address bid.contract_addr))
    × (value_named bid_tuple vals "auctionId" ≡ some (big_int bid.auction_id))
    × (value_named bid_tuple vals "nonce" ≡ some (uint64 bid.nonce))
    × (value_named bid_tuple vals "unitPriceWei" ≡ some (big_int bid.unit_price_wei))
    × (value_named bid_tuple vals "salt" ≡ some (bytes32 bid.salt))

pub bid_values-BidNamed : (bid : PrivateBid) → BidNamed (bid_values bid) bid
unfolding value_named
bid_values-BidNamed bid = (refl, refl, refl, refl, refl, refl)
