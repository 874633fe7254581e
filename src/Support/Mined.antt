-- ===== src/Support/Mined.antt =====
-- Waiting for a transaction: what `CheckTx` keeps, and what its success says.
use quietfill.Prelude.{
  ℕ, String, Bool, true, false, ◌≡◌, ◌≢◌, ◌∙◌, ap, refl, subst, arith, eqb, if◌then◌else◌,
}
use quietfill.World.{Reply, ok}
use quietfill.Io.{Io, return, labelled, ◌>>=◌}
use quietfill.Io.Preserves.{
  Preserves, >>=-Preserves, view-Preserves, return-Preserves, throw-Preserves, labelled-Preserves,
  if-Preserves,
}
use quietfill.Io.Success.{>>=-ok, labelled-ok, throw-ok, return-ok}
use quietfill.Support.{
  TxClient, Receipt, check_tx, judge_receipt, transaction_fail, get_failing_message,
}

module _ {S : Type 0} (client : TxClient S) where
  get_failing_message-Preserves :
      {P : S → Type 0} (tx : ℕ) → Preserves P (get_failing_message client tx)
  unfolding get_failing_message
  get_failing_message-Preserves tx =
      >>=-Preserves (view-Preserves _)
        (λ _. >>=-Preserves (view-Preserves _) (λ _. view-Preserves _))

  judge_receipt-Preserves :
      {P : S → Type 0} (tx : ℕ) (receipt : Receipt) → Preserves P (judge_receipt client tx receipt)
  unfolding judge_receipt
  judge_receipt-Preserves tx receipt =
      if-Preserves (eqb receipt.status 0)
        (>>=-Preserves (get_failing_message-Preserves tx) (λ _. throw-Preserves _))
        (return-Preserves receipt)

  -- Waiting for a transaction keeps what mining one keeps.
  pub check_tx-Preserves :
      {P : S → Type 0} (tx : ℕ)
      → Preserves P (client.wait_mined tx)
      → Preserves P (check_tx client tx)
  unfolding check_tx
  check_tx-Preserves tx mined =
      >>=-Preserves (labelled-Preserves _ mined) (judge_receipt-Preserves tx)

  judged :
      (tx : ℕ) (receipt : Receipt) (s : S) (b : Bool) {r : Receipt} {s' : S}
      → eqb receipt.status 0 ≡ b
      → (if b then get_failing_message client tx >>= transaction_fail client else return receipt) s
        ≡ (ok r, s')
      → (receipt ≡ r) × (receipt.status ≢ 0) × (s ≡ s')
  judged tx receipt s true failed h =
      let (reason, s₁, _, thrown) = >>=-ok _ _ h in absurd (throw-ok _ s₁ thrown)
  judged tx receipt s false mined h = ((return-ok h).0, ground (arith, mined), (return-ok h).1)

  -- A wait that succeeds is one for a transaction that is mined without error.
  pub check_tx-mined :
      (tx : ℕ) (s : S) {r : Receipt} {s' : S}
      → check_tx client tx s ≡ (ok r, s')
      → (client.wait_mined tx s ≡ (ok r, s')) × (r.status ≢ 0)
  unfolding check_tx judge_receipt
  check_tx-mined tx s {s' = s'} h =
      let (receipt, s₁, waited, h') = >>=-ok _ _ h in
      let (found, mined, same) = judged tx receipt s₁ _ refl h' in
      (
        labelled-ok _ _ waited
            ∙ ap (λ (t : S). (ok receipt, t)) same
            ∙ ap (λ (q : Receipt). (ok q, s')) found,
        subst (λ (q : Receipt). q.status ≢ 0) found mined,
      )

  pub check_tx-ok :
      (tx : ℕ) (s : S) {r : Receipt} {s' : S}
      → check_tx client tx s ≡ (ok r, s')
      → (receipt : Receipt) × (client.wait_mined tx s ≡ (ok receipt, s')) × (receipt.status ≢ 0)
  check_tx-ok tx s {r} h = let (mined, good) = check_tx-mined tx s h in (r, mined, good)

  -- What a transaction that is mined without error brings about.
  abbrev pub Brings : Io S ℕ → (S → Type 0) → Type 0
  Brings send P =
      (tx : ℕ) (receipt : Receipt) (s s₁ s₂ : S)
      → send s ≡ (ok tx, s₁)
      → client.wait_mined tx s₁ ≡ (ok receipt, s₂)
      → receipt.status ≢ 0
      → P s₂

  module _ {A : Type 0} (l l' : String) (send : Io S ℕ) (after : Receipt → Io S A) where
    -- A transaction, the wait for it, and what reads the receipt.
    abbrev pub transact : Io S A
    transact = labelled l send >>= λ tx. labelled l' (check_tx client tx) >>= after

    pub transact-Preserves :
        {P : S → Type 0}
        → Preserves P send
        → ((tx : ℕ) → Preserves P (client.wait_mined tx))
        → ((receipt : Receipt) → Preserves P (after receipt))
        → Preserves P transact
    transact-Preserves sent mined kept =
        >>=-Preserves (labelled-Preserves _ sent)
          (λ tx. >>=-Preserves (labelled-Preserves _ (check_tx-Preserves tx (mined tx))) kept)

    pub transact-ok :
        (P : S → Type 0)
        → Brings send P
        → ((receipt : Receipt) → Preserves P (after receipt))
        → (s : S) {a : A} {s' : S} → transact s ≡ (ok a, s')
        → P s'
    transact-ok P brings kept s h =
        let (tx, s₁, sent, h₁) = >>=-ok _ _ h in
        let (r, s₂, waited, h₂) = >>=-ok _ _ h₁ in
        let (receipt, mined, good) = check_tx-ok tx s₁ (labelled-ok _ _ waited) in
        subst P (ap (λ (t : Reply A × S). t.1) h₂)
          ((kept r).holds s₂ (brings tx receipt s s₁ s₂ (labelled-ok _ _ sent) mined good))
