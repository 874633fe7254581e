-- ===== src/RunTest/Achieved.antt =====
-- What the success of each step of run-test brings about.
use quietfill.Prelude.{
  ◌+◌, ◌%◌, ◌^◌, not, sym, eqb, ltb, inl, inr, Bool-cases, ℕ, String, ◌≡◌, ◌∙◌, ap, refl, subst,
  true, Option, none, some, List, arith,
}
use quietfill.World.{Reply, ok}
use quietfill.Io.{NoError}
use quietfill.Io.Success.{
  >>=_success, >>_success, labelled-ok, view-ok, view-ok_after, return-ok, require-ok, throw-ok,
}
use quietfill.RunTest.Arguments.{
  Value, ClearResult, bid_receipt_args, clear_result_args, address_at, clear_result,
}
use quietfill.RunTest.Stack.{AuctionBinding, Stack}
use quietfill.RunTest.Steps.{
  Terms, is_some, create_auction, created, submit_bid, wait_out, request_clear, asserted,
  check_receipt, read_receipt, read_clear, acknowledge_bid, fetch_clear, settle, verify_settled,
}
use quietfill.RunTest.Facts.{
  waited_until, Pinned, Submitted, Requested, Acknowledged, Cleared, Relayed, IsSettled,
}

asserted-ok :
    {S A : Type 0} (o : Option A) {a : A} {s' : S} (s : S) → asserted o s ≡ (ok a, s') → o ≡ some a
asserted-ok none s h = absurd (throw-ok _ s h)
asserted-ok (some a) s h = ap some (return-ok h).0

-- The hash that the loop over the logs assigns is that of an event, where it is not zero.
instruction-event :
    (o : Option ℕ) {id : ℕ}
    → not (eqb (elim o [ none ↦ 0 | some i ↦ i ]) 0) ≡ true
    → elim o [ none ↦ 0 | some i ↦ i ] ≡ id
    → o ≡ some id
instruction-event none nonzero same = ground (arith, nonzero)
instruction-event (some i) nonzero same = ap some same

module _ {S : Type 0} (k : Stack S) (b : AuctionBinding S) (t : Terms) where
  created-ok :
      (o : Option ℕ) (s : S) {id : ℕ} {s' : S}
      → created k b t o s ≡ (ok id, s')
      → (o ≡ some id) × (s ≡ s')
  created-ok none s h = absurd (throw-ok _ s h)
  created-ok (some i) s h = let (same, at) = return-ok h in (ap some same, at)

  pub create_auction-Pinned :
      (tee_id bid_deadline auction_id : ℕ) (s s' : S)
      → create_auction k b t tee_id bid_deadline s ≡ (ok auction_id, s')
      → Pinned k b t tee_id bid_deadline auction_id s s'
  unfolding create_auction
  create_auction-Pinned tee_id bid_deadline auction_id s s' h =
      >>=_success _ _ h λ receipt s₁ sent h₁. >>=_success _ _ h₁ λ id s₂ made h₂.
        >>=_success _ _ h₂ λ a s₃ got h₃. >>_success _ _ h₃ λ _ s₄ required returned.
          let (found, same₁) = created-ok _ s₁ made in
          let (view, same₂) = view-ok _ got in
          let (pinned, same₃) = require-ok _ _ _ required in
          let (same_id, same₄) = return-ok returned in
          let at : s₂ ≡ s' = same₂ ∙ same₃ ∙ same₄ in
          (
            receipt,
            a,
            sent ∙ ap (λ (u : S). (ok receipt, u)) (same₁ ∙ at),
            found ∙ ap some same_id,
            cc (view, same_id, at),
            ground (arith, pinned),
          )

  pub submit_bid-Submitted :
      (tee_pub auction_id instruction : ℕ) (s s' : S)
      → submit_bid k b t tee_pub auction_id s ≡ (ok instruction, s')
      → Submitted k b t tee_pub auction_id instruction s s'
  unfolding submit_bid
  submit_bid-Submitted tee_pub auction_id instruction s s' h =
      >>=_success _ _ h λ salt s₁ random h₁. >>=_success _ _ h₁ λ plaintext s₂ packed h₂.
        >>=_success _ _ h₂ λ ciphertext s₃ encrypted h₃. >>=_success _ _ h₃ λ receipt s₄ sent h₄.
          >>_success _ _ h₄ λ _ s₅ required returned.
            let (nonzero, same₁) = require-ok _ _ _ required in
            let (same_id, same₂) = return-ok returned in
            let (pack, same₃) = view-ok _ (labelled-ok _ _ packed) in
            (
              salt,
              plaintext,
              ciphertext,
              receipt,
              s₁,
              s₃,
              random,
              pack,
              subst (λ (u : S). k.encrypt plaintext tee_pub u ≡ (ok ciphertext, s₃)) (sym same₃)
                  (labelled-ok _ _ encrypted),
              sent ∙ ap (λ (u : S). (ok receipt, u)) (same₁ ∙ same₂),
              instruction-event _ nonzero same_id,
            )

  wait_out-until :
      (bid_deadline : ℕ) (s s₁ : S) {n : NoError}
      → wait_out k b t bid_deadline s ≡ (ok n, s₁)
      → s₁ ≡ waited_until k b t bid_deadline s
  unfolding wait_out
  wait_out-until bid_deadline s s₁ h =
      elim (Bool-cases (ltb 0 (k.time_until ((bid_deadline + 2) % 2 ^ 64) s))) [
        | inl early ↦ rw early (ap (λ (out : Reply NoError × S). out.1) (sym (rw early at h)))
        | inr late ↦ rw late (ap (λ (out : Reply NoError × S). out.1) (sym (rw late at h)))
      ]

  pub request_clear-Requested :
      (bid_deadline auction_id instruction : ℕ) (s s' : S)
      → request_clear k b t bid_deadline auction_id s ≡ (ok instruction, s')
      → Requested k b t bid_deadline auction_id instruction s s'
  unfolding request_clear
  request_clear-Requested bid_deadline auction_id instruction s s' h =
      >>_success _ _ h λ _ s₁ waited h₁. >>=_success _ _ h₁ λ receipt s₂ sent h₂.
        >>_success _ _ h₂ λ _ s₃ required returned.
          let (nonzero, same₁) = require-ok _ _ _ required in
          let (same_id, same₂) = return-ok returned in
          (
            receipt,
            s₁,
            wait_out-until bid_deadline s s₁ waited,
            sent ∙ ap (λ (u : S). (ok receipt, u)) (same₁ ∙ same₂),
            instruction-event _ nonzero same_id,
          )

  asserted-kept :
      {A : Type 0} (o : Option A) {a : A} {s' : S} (s : S) → asserted o s ≡ (ok a, s') → s ≡ s'
  asserted-kept none s h = absurd (throw-ok _ s h)
  asserted-kept (some a) s h = (return-ok h).1

  read_receipt-ok :
      (bytes : String) (commitment : ℕ) (s s' : S)
      → read_receipt k b t bytes s ≡ (ok commitment, s')
      → (vals : List Value) × (k.unpack bid_receipt_args bytes ≡ ok vals)
        × (address_at 2 vals ≡ some t.dealer_addr)
        × (s ≡ s')
  unfolding read_receipt check_receipt
  read_receipt-ok bytes commitment s s' h = >>=_success _ _ h λ vals s₁ unpacked h₁.
      >>=_success _ _ h₁ λ got s₂ found h₂. >>_success _ _ h₂ λ _ s₃ named last.
        let (is_dealer, same₁) = require-ok _ _ _ named in
        let same : got ≡ t.dealer_addr = ground (arith, is_dealer) in
        let (bytes_read, same₂) = view-ok _ (labelled-ok _ _ unpacked) in
        (
          vals,
          bytes_read,
          asserted-ok _ s₁ found ∙ ap some same,
          same₂ ∙ asserted-kept _ s₁ found ∙ same₁ ∙ asserted-kept _ s₃ last,
        )

  read_clear-ok :
      (bytes : String) (r : ClearResult) (s s' : S)
      → read_clear k b t bytes s ≡ (ok r, s')
      → (vals : List Value) × (k.unpack clear_result_args bytes ≡ ok vals)
        × (clear_result vals ≡ some r)
        × (s ≡ s')
  unfolding read_clear
  read_clear-ok bytes r s s' h = >>=_success _ _ h λ vals s₁ unpacked found.
      let (bytes_read, same) = view-ok _ (labelled-ok _ _ unpacked) in
      (vals, bytes_read, asserted-ok _ s₁ found, same ∙ asserted-kept _ s₁ found)

  pub acknowledge_bid-Acknowledged :
      (instruction receipt : ℕ) (s s' : S)
      → acknowledge_bid k b t instruction s ≡ (ok receipt, s')
      → Acknowledged k b t instruction s s'
  unfolding acknowledge_bid
  acknowledge_bid-Acknowledged instruction receipt s s' h = >>=_success _ _ h λ resp s₁ polled h₁.
      >>_success _ _ h₁ λ _ s₂ accepted read.
        let (success, same) = require-ok _ _ _ accepted in
        let (vals, unpacked, named, kept) = read_receipt-ok resp.result_data receipt s₂ s' read in
        (
          resp,
          vals,
          polled ∙ ap (λ (u : S). (ok resp, u)) (same ∙ kept),
          ground (arith, success),
          unpacked,
          named,
        )

  pub fetch_clear-Cleared :
      (instruction : ℕ) (signed : ClearResult × List ℕ) (s s' : S)
      → fetch_clear k b t instruction s ≡ (ok signed, s')
      → Cleared k b t instruction signed s s'
  unfolding fetch_clear
  fetch_clear-Cleared instruction signed s s' h = >>=_success _ _ h λ resp s₁ polled h₁.
      >>_success _ _ h₁ λ _ s₂ accepted h₂. >>_success _ _ h₂ λ _ s₃ tagged h₃.
        >>_success _ _ h₃ λ _ s₄ long h₄. >>=_success _ _ h₄ λ result s₅ read h₅.
          >>_success _ _ h₅ λ _ s₆ won returned.
            let (vals, unpacked, found, kept) = read_clear-ok resp.result_data result s₄ s₅ read in
            let (success, same₁) = require-ok _ _ _ accepted in
            let (threshold, same₂) = require-ok _ _ _ tagged in
            let (length_65, same₃) = require-ok _ _ _ long in
            let (as_bid, same₄) = require-ok _ _ _ won in
            let (same, same₅) = return-ok returned in
            let at : s₁ ≡ s' = same₁ ∙ same₂ ∙ same₃ ∙ kept ∙ same₄ ∙ same₅ in
            subst (λ (r : ClearResult × List ℕ). Cleared k b t instruction r s s') same
              (
                resp,
                vals,
                polled ∙ ap (λ (u : S). (ok resp, u)) at,
                ground (arith, success),
                threshold,
                ground (arith, length_65),
                refl,
                unpacked,
                found,
                ground (arith, as_bid),
                ground (arith, as_bid),
              )

  has_event : (o : Option ℕ) → is_some o ≡ true → (ev : ℕ) × (o ≡ some ev)
  has_event none h = ground (arith, h)
  has_event (some ev) h = (ev, refl)

  pub settle-Relayed :
      (auction_id : ℕ) (signed : ClearResult × List ℕ) (s s' : S) {n : NoError}
      → settle k b t auction_id signed s ≡ (ok n, s')
      → Relayed k b t auction_id signed s s'
  unfolding settle
  settle-Relayed auction_id signed s s' h = >>=_success _ _ h λ receipt s₁ sent required.
      let (is_there, same) = require-ok _ _ _ required in
      let (ev, found) = has_event _ is_there in
      (receipt, ev, sent ∙ ap (λ (u : S). (ok receipt, u)) same, found)

  pub verify_settled-IsSettled :
      (auction_id : ℕ) (s s' : S) {n : NoError}
      → verify_settled k b t auction_id s ≡ (ok n, s')
      → IsSettled k b t auction_id s' × (s ≡ s')
  unfolding verify_settled
  verify_settled-IsSettled auction_id s s' h = >>=_success _ _ h λ a s₁ got required.
      let (settled, same) = require-ok _ _ _ required in
      (
        subst (IsSettled k b t auction_id) same (a, view-ok_after _ s got, ground (arith, settled)),
        (view-ok _ got).1 ∙ same,
      )
