-- ===== src/RunTest/Passed.antt =====
-- What the last lines of run-test say of the run.
use quietfill.Prelude.{ℕ, ◌≡◌, ◌∙◌, refl, subst, List}
use quietfill.World.{Reply, ok}
use quietfill.Io.Success.{>>=_success, >>_success, view-ok, return-ok}
use quietfill.Support.{Support}
use quietfill.RunTest.Arguments.{ClearResult}
use quietfill.RunTest.Stack.{Flags, AuctionBinding, Stack}
use quietfill.RunTest.Steps.{Terms}
use quietfill.RunTest.Main.{Passed, prepare, run_auction, main}
use quietfill.RunTest.Facts.{
  Pinned, Submitted, Requested, Acknowledged, Cleared, Relayed, IsSettled,
}
use quietfill.RunTest.Achieved.{
  create_auction-Pinned, acknowledge_bid-Acknowledged, fetch_clear-Cleared, settle-Relayed,
  verify_settled-IsSettled, submit_bid-Submitted, request_clear-Requested,
}

module _ {S : Type 0} (k : Stack S) (b : AuctionBinding S) (t : Terms) where
  -- What the last lines stand for, from one state of the run to the next.
  abbrev pub IsGenuine : Passed → S → Type 0
  IsGenuine passed s' =
      (tee_pub bid_deadline : ℕ) × (signed : ClearResult × List ℕ) × (s₁ s₂ s₃ s₄ s₅ s₆ s₇ : S)
      × (passed.tee ≡ k.tee_address tee_pub)
      × Pinned k b t passed.tee bid_deadline passed.auction s₁ s₂
      × Submitted k b t tee_pub passed.auction passed.bid_instruction s₂ s₃
      × Acknowledged k b t passed.bid_instruction s₃ s₄
      × Requested k b t bid_deadline passed.auction passed.clear_instruction s₄ s₅
      × Cleared k b t passed.clear_instruction signed s₅ s₆
      × Relayed k b t passed.auction signed s₆ s₇
      × (s₇ ≡ s')
      × IsSettled k b t passed.auction s'

  -- The steps of a run that passes.
  run_auction-IsGenuine :
      (passed : Passed) (s s' : S) → run_auction k b t s ≡ (ok passed, s') → IsGenuine passed s'
  unfolding run_auction
  run_auction-IsGenuine passed s s' h = >>_success _ _ h λ _ s₁ _ h₁.
      >>=_success _ _ h₁ λ tee_pub s₂ _ h₂. >>_success _ _ h₂ λ _ s₃ _ h₃.
        >>=_success _ _ h₃ λ bid_deadline s₄ _ h₄. >>=_success _ _ h₄ λ auction_id s₅ created h₅.
          >>=_success _ _ h₅ λ bid_instruction s₆ submitted h₆.
            >>_success _ _ h₆ λ receipt s₇ acknowledged h₇.
              >>=_success _ _ h₇ λ clear_instruction s₈ requested h₈.
                >>=_success _ _ h₈ λ signed s₉ fetched h₉. >>_success _ _ h₉ λ _ s₁₀ relayed h₁₀.
                  >>_success _ _ h₁₀ λ _ s₁₁ verified returned.
                    let (same, at) = return-ok returned in
                    let (settled, kept) =
                      verify_settled-IsSettled k b t auction_id s₁₀ s₁₁ verified in
                    subst (λ (p : Passed). IsGenuine p s') same
                      (
                        tee_pub,
                        bid_deadline,
                        signed,
                        s₄,
                        s₅,
                        s₆,
                        s₇,
                        s₈,
                        s₉,
                        s₁₀,
                        refl,
                        create_auction-Pinned k b t _ bid_deadline auction_id s₄ s₅ created,
                        submit_bid-Submitted k b t tee_pub auction_id bid_instruction s₅ s₆
                            submitted,
                        acknowledge_bid-Acknowledged k b t bid_instruction receipt s₆ s₇
                            acknowledged,
                        request_clear-Requested k b t bid_deadline auction_id clear_instruction s₇
                            s₈ requested,
                        fetch_clear-Cleared k b t clear_instruction signed s₈ s₉ fetched,
                        settle-Relayed k b t auction_id signed s₉ s₁₀ relayed,
                        kept ∙ at,
                        subst (IsSettled k b t auction_id) at settled,
                      )

module _ {S : Type 0} (k : Stack S) where
  -- If run-test passes, on the terms that its flags and keys come to, then, from one state of the run
  -- to the next: createAuction was mined with the event of the auction that it reports, which was
  -- pinned to the TEE that it reports; a bid of the dealer for that auction, at the price of the terms,
  -- was packed, encrypted for that TEE's key and mined with the event of the bid's instruction; the TEE
  -- answered that instruction with a receipt that names the dealer; requestClear was mined with the
  -- event of the clear's instruction; the TEE answered that one with a threshold-tagged result and 65
  -- bytes of signature by which the dealer wins at the price of the bid; that result and that signature
  -- were relayed by a settlement with its event; and at the end the auction is in the state Settled.
  pub main-IsGenuine :
      (flags : Flags) (support : Reply Support) (passed : Passed) (s s' : S)
      → main k flags support s ≡ (ok passed, s')
      → (t : Terms) × (b : AuctionBinding S) × (s₁ : S) × (prepare k flags support s ≡ (ok t, s₁))
        × (k.new_quiet_fill_auction t.sender_addr ≡ ok b)
        × IsGenuine k b t passed s'
  unfolding main
  main-IsGenuine flags support passed s s' h = >>=_success _ _ h λ t s₁ prepared h₁.
      >>=_success _ _ h₁ λ b s₂ bound h₂.
        (t, b, s₁, prepared, (view-ok _ bound).0, run_auction-IsGenuine k b t passed s₂ s' h₂)
