-- ===== src/RunTest/Reading.antt =====
-- How run-test reads what the TEE answers: no index and no type assertion panics.
use quietfill.Prelude.{
  ℕ, String, ◌≡◌, ◌∙◌, ap, refl, ◌⊎◌, inl, inr, sprintf, eqb, List, [], ◌∷◌, if◌then◌else◌, arith,
}
use quietfill.World.{Reply, ok, fail as error, Reply-cases}
use quietfill.Io.{view, labelled, return, throw, require, ◌>>=◌, ◌>>◌}
use quietfill.RunTest.Arguments.{
  Value, Argument, bid_tuple, bid_receipt_args, clear_result_args, PrivateBid, bid_values,
  ClearResult, value_at, address_at, big_int_at, uint64_at, bytes32_at, clear_result,
}
use quietfill.RunTest.Stack.{AuctionBinding, Stack}
use quietfill.RunTest.Steps.{Terms, check_receipt, read_receipt, read_clear}
use quietfill.RunTest.Typed.{
  Fits, clear_values, BidReceipt, receipt_values, Fits-clear_values, Fits-receipt_values,
  bid_values-Fits, ClearNamed, clear_values-ClearNamed, ReceiptNamed, receipt_values-ReceiptNamed,
  BidNamed, bid_values-BidNamed,
}

-- `Unpack`, as go-ethereum documents it: a value for each argument, of the argument's type.
abbrev pub Unpacks : {S : Type 0} → Stack S → Type 0
Unpacks k =
    (args : List Argument) (bytes : String) (vals : List Value)
    → k.unpack args bytes ≡ ok vals
    → Fits args vals

module _ {S : Type 0} (k : Stack S) (b : AuctionBinding S) (t : Terms) where
  -- The bytes do not decode, and the routine fails with that error; or they decode to a clear
  -- result, which it returns.
  abbrev pub ReadsClear : String → S → Type 0
  ReadsClear bytes s =
      ((e : String) × (k.unpack clear_result_args bytes ≡ error e)
        × (read_clear k b t bytes s
            ≡ (error (sprintf ("cannot decode clear result: " ∷ e ∷ [])), s)))
      ⊎ ((r : ClearResult) × (k.unpack clear_result_args bytes ≡ ok (clear_values r))
          × ClearNamed (clear_values r) r
          × (read_clear k b t bytes s ≡ (ok r, s)))

  read_clear-error :
      (bytes : String) (s : S) (e : String)
      → k.unpack clear_result_args bytes ≡ error e
      → read_clear k b t bytes s ≡ (error (sprintf ("cannot decode clear result: " ∷ e ∷ [])), s)
  unfolding read_clear labelled view ◌>>=◌
  read_clear-error bytes s e h = rw h refl

  read_clear-values :
      (bytes : String) (s : S) (r : ClearResult)
      → k.unpack clear_result_args bytes ≡ ok (clear_values r)
      → read_clear k b t bytes s ≡ (ok r, s)
  unfolding read_clear labelled view return ◌>>=◌ clear_result address_at big_int_at uint64_at
      bytes32_at value_at
  read_clear-values bytes s r h = rw h refl

  read_clear-ReadsClear : Unpacks k → (bytes : String) (s : S) → ReadsClear bytes s
  read_clear-ReadsClear unpacks bytes s = elim (Reply-cases (k.unpack clear_result_args bytes)) [
    | inl (vals, h) ↦
        let (r, same) = Fits-clear_values vals (unpacks clear_result_args bytes vals h) in
        let found = h ∙ ap ok same in
        inr (r, found, clear_values-ClearNamed r, read_clear-values bytes s r found)
    | inr (e, h) ↦ inl (e, h, read_clear-error bytes s e h)
  ]

  abbrev pub judged : BidReceipt → Reply ℕ
  judged r =
      if eqb r.bidder t.dealer_addr
      then ok r.bid_commitment
      else error "the bid receipt names another bidder"

  -- The bytes do not decode, and the routine fails with that error; or they decode to a receipt,
  -- whose commitment it returns if the receipt names the dealer.
  abbrev pub ReadsReceipt : String → S → Type 0
  ReadsReceipt bytes s =
      ((e : String) × (k.unpack bid_receipt_args bytes ≡ error e)
        × (read_receipt k b t bytes s
            ≡ (error (sprintf ("cannot decode bid receipt: " ∷ e ∷ [])), s)))
      ⊎ ((r : BidReceipt) × (k.unpack bid_receipt_args bytes ≡ ok (receipt_values r))
          × ReceiptNamed (receipt_values r) r
          × (read_receipt k b t bytes s ≡ (judged r, s)))

  read_receipt-error :
      (bytes : String) (s : S) (e : String)
      → k.unpack bid_receipt_args bytes ≡ error e
      → read_receipt k b t bytes s ≡ (error (sprintf ("cannot decode bid receipt: " ∷ e ∷ [])), s)
  unfolding read_receipt labelled view ◌>>=◌
  read_receipt-error bytes s e h = rw h refl

  check_receipt-values :
      (r : BidReceipt) (s : S) → check_receipt k b t (receipt_values r) s ≡ (judged r, s)
  unfolding check_receipt require throw return ◌>>=◌ ◌>>◌ address_at bytes32_at value_at
  check_receipt-values r s = ground arith

  read_receipt-values :
      (bytes : String) (s : S) (r : BidReceipt)
      → k.unpack bid_receipt_args bytes ≡ ok (receipt_values r)
      → read_receipt k b t bytes s ≡ (judged r, s)
  unfolding read_receipt labelled view ◌>>=◌
  read_receipt-values bytes s r h = rw h (check_receipt-values r s)

  read_receipt-ReadsReceipt : Unpacks k → (bytes : String) (s : S) → ReadsReceipt bytes s
  read_receipt-ReadsReceipt unpacks bytes s = elim (Reply-cases (k.unpack bid_receipt_args bytes)) [
    | inl (vals, h) ↦
        let (r, same) = Fits-receipt_values vals (unpacks bid_receipt_args bytes vals h) in
        let found = h ∙ ap ok same in
        inr (r, found, receipt_values-ReceiptNamed r, read_receipt-values bytes s r found)
    | inr (e, h) ↦ inl (e, h, read_receipt-error bytes s e h)
  ]

  -- Where Unpack returns a value for each argument, of the argument's type: run-test reads the answers
  -- of the TEE without a panic. Bytes that do not decode end it with that error; a receipt yields the
  -- value of its argument bidCommitment if that of its argument bidder is the dealer; and each field of
  -- a clear result is the value of the argument that has the field's name. And the fields of a bid
  -- have the types of the tuple's components, and are the values of the components with their names.
  pub reads-typed :
      Unpacks k
      → (receipt result : String) (bid : PrivateBid) (s s' : S)
      → ReadsReceipt receipt s
        × ReadsClear result s'
        × Fits bid_tuple (bid_values bid)
        × BidNamed (bid_values bid) bid
  reads-typed unpacks receipt result bid s s' = (
    read_receipt-ReadsReceipt unpacks receipt s,
    read_clear-ReadsClear unpacks result s',
    bid_values-Fits bid,
    bid_values-BidNamed bid,
  )
