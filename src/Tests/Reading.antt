-- ===== src/Tests/Reading.antt =====
-- What the TEE answers to run-test, read on a small stack.
use quietfill.Prelude.{List, [], ◌∷◌, map, subst}
use quietfill.Io.Success.{ok_injective}
use quietfill.RunTest.Arguments.{Argument, PrivateBid, bid_tuple, bid_values}
use quietfill.RunTest.Typed.{Fits, BidNamed, type_of-of_type}
use quietfill.RunTest.Reading.{Unpacks, ReadsClear, ReadsReceipt, reads-typed}
use quietfill.Tests.Auction.{stack, binding, terms, answer}

abbrev bid : PrivateBid
bid = record {
  bidder = 5;
  contract_addr = 40;
  auction_id = 30;
  nonce = 1;
  unit_price_wei = 2;
  salt = 60;
}

stack-Unpacks : Unpacks stack
stack-Unpacks args bytes vals h = subst (Fits args) (ok_injective h) (answers args)
  where
    answers : (args : List Argument) → Fits args (map answer args)
    answers [] = tt
    answers (a ∷ args) = (type_of-of_type a.type _, answers args)

reads-typed_example :
    ReadsReceipt stack binding terms "receipt" 0
    × ReadsClear stack binding terms "result" 6
    × Fits bid_tuple (bid_values bid)
    × BidNamed (bid_values bid) bid
reads-typed_example = reads-typed stack binding terms stack-Unpacks "receipt" "result" bid 0 6
