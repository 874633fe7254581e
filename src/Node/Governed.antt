-- ===== src/Node/Governed.antt =====
-- What a successful `SetTeeGovernance` leaves on the chain.
use quietfill.Prelude.{
  ℕ, ◌≡◌, ap, refl, subst, Bool, true, false, ◌||◌, List, String, length, eqb, ltb, ◌<◌, ◌≤◌,
  if◌then◌else◌, arith,
}
use quietfill.World.{Reply, ok, fail as error}
use quietfill.Io.{NoError, nil, ◌>>◌}
use quietfill.Io.Success.{view_success, >>=_success, labelled-ok, return-ok}
use quietfill.Support.Mined.{Brings, check_tx-ok}
use quietfill.Node.Governance.{
  GovernanceChain, is_set, with_hash, send_governance, set_tee_governance,
}

module _ {S : Type 0} (c : GovernanceChain S) where
  -- The chain has the hash of the signers and the threshold.
  abbrev pub HasHash : ℕ → List ℕ → ℕ → S → Type 0
  HasHash extension_id signers threshold s =
      (h : ℕ) × (c.governance_hash signers threshold ≡ ok h)
      × (c.get_latest_tee_governance_hash extension_id s ≡ ok h)

  -- The contract's promise: a transaction of setNewTeeGovernance that is mined without error leaves
  -- the hash of the signers and the threshold that it was sent with.
  abbrev pub Sets : ℕ → List ℕ → ℕ → Type 0
  Sets extension_id signers threshold =
      (h : ℕ)
      → c.governance_hash signers threshold ≡ ok h
      → Brings c.client (c.set_new_tee_governance extension_id signers threshold)
          (λ s. c.get_latest_tee_governance_hash extension_id s ≡ ok h)

  -- So a send that succeeds leaves it.
  send_governance-HasHash :
      (extension_id : ℕ) (signers : List ℕ) (threshold h : ℕ) (s s' : S)
      → Sets extension_id signers threshold
      → c.governance_hash signers threshold ≡ ok h
      → send_governance c extension_id signers threshold s ≡ (ok nil, s')
      → c.get_latest_tee_governance_hash extension_id s' ≡ ok h
  unfolding send_governance ◌>>◌
  send_governance-HasHash extension_id signers threshold h s s' sets e done =
      view_success _ _ done λ _ _ h₁. >>=_success _ _ h₁ λ tx s₁ sent h₂.
        >>=_success _ _ h₂ λ r s₂ waited returned.
          let (receipt, mined, good) = check_tx-ok c.client tx s₁ waited in
          subst (λ (t : S). c.get_latest_tee_governance_hash extension_id t ≡ ok h)
            ((return-ok returned).1) (sets h e tx receipt s s₁ s₂ (labelled-ok _ _ sent) mined good)

  is_set-eq : (r : Reply ℕ) (h : ℕ) → is_set c r h ≡ true → r ≡ ok h
  is_set-eq (ok current) h e = ap ok (ground (arith, e))
  is_set-eq (error _) h e = ground (arith, e)

  is_set_refl : (r : Reply ℕ) (h : ℕ) → r ≡ ok h → is_set c r h ≡ true
  is_set_refl r h e = ground (arith, e)

  pair_eq : (out : Reply NoError × S) → out.0 ≡ ok nil → out ≡ (ok nil, out.1)
  pair_eq (r, s) h = ap (λ (t : Reply NoError). (t, s)) h

  choice-HasHash :
      (extension_id : ℕ) (signers : List ℕ) (threshold h : ℕ) (s : S) (b : Bool)
      → Sets extension_id signers threshold
      → c.governance_hash signers threshold ≡ ok h
      → is_set c (c.get_latest_tee_governance_hash extension_id s) h ≡ b
      → (if b then (ok nil, s) else send_governance c extension_id signers threshold s).0 ≡ ok nil
      → HasHash extension_id signers threshold
          (if b then (ok nil, s) else send_governance c extension_id signers threshold s).1
  choice-HasHash extension_id signers threshold h s true sets e set done = (h, e, is_set-eq _ h set)
  choice-HasHash extension_id signers threshold h s false sets e set done = (
    h,
    e,
    send_governance-HasHash extension_id signers threshold h s _ sets e
        (pair_eq (send_governance c extension_id signers threshold s) done),
  )

  with_hash-HasHash :
      (extension_id : ℕ) (signers : List ℕ) (threshold : ℕ) (r : Reply ℕ) (s : S)
      → Sets extension_id signers threshold
      → c.governance_hash signers threshold ≡ r
      → (with_hash c extension_id signers threshold r s).0 ≡ ok nil
      → HasHash extension_id signers threshold (with_hash c extension_id signers threshold r s).1
  with_hash-HasHash extension_id signers threshold (error e) s sets h done = ground (arith, done)
  with_hash-HasHash extension_id signers threshold (ok desired) s sets h done =
      choice-HasHash extension_id signers threshold desired s _ sets h refl done

  -- A guard that fails the call.
  guarded :
      (Q : Reply NoError × S → Type 0) (b : Bool) (e : String) (s : S) (out : Reply NoError × S)
      → (b ≡ false → out.0 ≡ ok nil → Q out)
      → (if b then (error e, s) else out).0 ≡ ok nil
      → Q (if b then (error e, s) else out)
  guarded Q true e s out h done = ground (arith, done)
  guarded Q false e s out h done = h refl done

  -- A call of `SetTeeGovernance` that succeeds has a threshold from 1 to the number of signers, and
  -- leaves the chain with the hash of these signers and this threshold, where a transaction that is
  -- mined without error sets it.
  pub set_tee_governance-HasHash :
      (extension_id : ℕ) (signers : List ℕ) (threshold : ℕ) (s : S)
      → Sets extension_id signers threshold
      → (set_tee_governance c extension_id signers threshold s).0 ≡ ok nil
      → (0 < threshold)
        × (threshold ≤ length signers)
        × HasHash extension_id signers threshold
            (set_tee_governance c extension_id signers threshold s).1
  unfolding set_tee_governance
  set_tee_governance-HasHash extension_id signers threshold s sets done =
      guarded Good (eqb (length signers) 0) _ s _
        (λ _. guarded Good (eqb threshold 0 || ltb (length signers) threshold) _ s _ (λ valid done.
          (
            ground (arith, valid),
            ground (arith, valid),
            with_hash-HasHash extension_id signers threshold _ s sets refl done,
          )))
        done
    where
      Good : Reply NoError × S → Type 0
      Good out =
          (0 < threshold)
          × (threshold ≤ length signers)
          × HasHash extension_id signers threshold out.1

  set_tee_governance-skips :
      (extension_id : ℕ) (signers : List ℕ) (threshold : ℕ) (s : S)
      → 0 < threshold
      → threshold ≤ length signers
      → HasHash extension_id signers threshold s
      → set_tee_governance c extension_id signers threshold s ≡ (ok nil, s)
  unfolding set_tee_governance
  set_tee_governance-skips extension_id signers threshold s positive bounded (h, computed, latest) =
      let some_signer : eqb (length signers) 0 ≡ false = ground (arith, positive, bounded) in
      let valid : (eqb threshold 0 || ltb (length signers) threshold) ≡ false =
        ground (arith, positive, bounded) in
      rw (some_signer, valid, computed, is_set_refl _ h latest)

  -- Where a transaction that is mined without error sets the hash, a second call with the same
  -- arguments after one that succeeds returns without an error and changes nothing.
  pub set_tee_governance-twice :
      (extension_id : ℕ) (signers : List ℕ) (threshold : ℕ) (s : S)
      → Sets extension_id signers threshold
      → (set_tee_governance c extension_id signers threshold s).0 ≡ ok nil
      → set_tee_governance c extension_id signers threshold
          (set_tee_governance c extension_id signers threshold s).1
        ≡ (ok nil, (set_tee_governance c extension_id signers threshold s).1)
  set_tee_governance-twice extension_id signers threshold s sets done =
      let (positive, bounded, has) =
        set_tee_governance-HasHash extension_id signers threshold s sets done in
      set_tee_governance-skips extension_id signers threshold
        (set_tee_governance c extension_id signers threshold s).1 positive bounded has
