-- ===== src/RunTest/Retry.antt =====
-- The loop of `sendTxRetry`.
use quietfill.Prelude.{
  ℕ, suc, ◌↔◌, ◌<◌, ◌≡◌, ◌∙◌, ap, refl, sym, subst, String, Bool, true, false, ◌⊎◌, inl, inr, arith,
  if◌then◌else◌, Bool-cases, sprintf, [], ◌∷◌,
}
use quietfill.World.{Reply, ok, fail as error}
use quietfill.Io.{NoError, return, throw, view, attempt, ◌>>=◌, ◌>>◌}
use quietfill.Io.Loop.{Rounds, start, again as again_round, loop-first, loop-ok}
use quietfill.Support.{Receipt, check_tx}
use quietfill.Revert.{RpcError}
use quietfill.Instructions.{Sent, sent, refused}
use quietfill.RunTest.{
  TransactOpts, Chain, Attempt, first_attempt, send_round, send_tx_retry, judge_sent, judge_mined,
  refused_text,
}

module _ {S : Type 0} (c : Chain S) (label : String) (call : TransactOpts → S → Sent × S)
    (key value : ℕ) where
  abbrev pub opts : TransactOpts
  opts = record { key = key; value = value }

  -- An attempt other than the first is made five seconds after the one before.
  abbrev pub paused : Bool → S → S
  paused is_first s = if is_first then s else c.sleep 5 s

  -- An attempt fails: the call is refused, or the transaction is not mined without error.
  pub data Failed (is_first : Bool) (s : S) : S → Type 0 where
    not_sent :
        (s₁ : S)
        → ((e : RpcError) × (call opts (paused is_first s) ≡ (refused e, s₁)))
        → Failed is_first s s₁
    not_mined :
        (tx : ℕ) (e : String) (s₁ s₂ : S)
        → call opts (paused is_first s) ≡ (sent tx, s₁)
        → check_tx c.client tx s₁ ≡ (error e, s₂)
        → Failed is_first s s₂

  -- So many attempts fail, one after the other.
  pub data Tries : ℕ → Bool → S → Bool → S → Type 0 where
    begin : {f : Bool} {s : S} → Tries 0 f s f s
    more :
        {n : ℕ} {f g : Bool} {s s₁ s₂ : S}
        → Failed f s s₁
        → Tries n false s₁ g s₂
        → Tries (suc n) f s g s₂

  -- An attempt succeeds with a receipt.
  abbrev pub Succeeds : Bool → S → Receipt → S → Type 0
  Succeeds is_first s receipt s' =
      (tx : ℕ) × (s₁ : S) × (call opts (paused is_first s) ≡ (sent tx, s₁))
      × (check_tx c.client tx s₁ ≡ (ok receipt, s'))

  send_round-call :
      (a : Attempt) (s : S) {n : NoError}
      → c.keyed_transactor key ≡ ok n
      → send_round c label call key value a s
        ≡ judge_sent c label (call opts (paused a.is_first s)).0 (call opts (paused a.is_first s)).1
  unfolding send_round view ◌>>=◌ ◌>>◌ return
  send_round-call a s keyed = elim (Bool-cases a.is_first) [
    | inl first ↦ rw (first, keyed) refl
    | inr later ↦ rw (later, keyed) refl
  ]

  -- What a round does: it goes on after an attempt that fails, or ends with a receipt.
  abbrev Judged : Bool → S → Attempt ⊎ Receipt → S → Type 0
  Judged is_first s (inl a) s₁ = (a.is_first ≡ false) × Failed is_first s s₁
  Judged is_first s (inr receipt) s₁ = Succeeds is_first s receipt s₁

  abbrev again_with : String → Attempt
  again_with e = record { is_first = false; last_err = e }

  abbrev receipt_of : Reply (Attempt ⊎ Receipt) → Reply Receipt
  receipt_of (ok (inr receipt)) = ok receipt
  receipt_of _ = error ""

  abbrev is_first_of : Reply (Attempt ⊎ Receipt) → Bool
  is_first_of (ok (inl a)) = a.is_first
  is_first_of _ = true

  abbrev Outcome : Type 0
  Outcome = Reply (Attempt ⊎ Receipt) × S

  mined-Judged :
      (f : Bool) (s s₁ s₂ : S) (tx : ℕ) (out : Reply Receipt × S) (step : Attempt ⊎ Receipt)
      → call opts (paused f s) ≡ (sent tx, s₁)
      → check_tx c.client tx s₁ ≡ out
      → judge_mined c label out.0 out.1 ≡ (ok step, s₂)
      → Judged f s step s₂
  unfolding return
  mined-Judged f s s₁ s₂ tx (ok receipt, t) (inl a) called checked h = ground (arith, h)
  mined-Judged f s s₁ s₂ tx (ok receipt, t) (inr r) called checked h =
      (tx, s₁, called, checked ∙ ap (λ (o : Outcome). (receipt_of o.0, o.1)) h)
  mined-Judged f s s₁ s₂ tx (error e, t) (inl a) called checked h =
      let at : t ≡ s₂ = ap (λ (o : Outcome). o.1) h in
      (
        sym (ap (λ (o : Outcome). is_first_of o.0) h),
        not_mined tx e s₁ s₂ called (checked ∙ ap (λ (u : S). (error e, u)) at),
      )
  mined-Judged f s s₁ s₂ tx (error e, t) (inr r) called checked h = ground (arith, h)

  sent-Judged :
      (f : Bool) (s s₂ : S) (out : Sent × S) (step : Attempt ⊎ Receipt)
      → call opts (paused f s) ≡ out
      → judge_sent c label out.0 out.1 ≡ (ok step, s₂)
      → Judged f s step s₂
  unfolding return attempt ◌>>=◌
  sent-Judged f s s₂ (sent tx, s₁) step called h = mined-Judged f s s₁ s₂ tx _ step called refl h
  sent-Judged f s s₂ (refused e, s₁) (inl a) called h =
      let at : s₁ ≡ s₂ = ap (λ (o : Outcome). o.1) h in
      (
        sym (ap (λ (o : Outcome). is_first_of o.0) h),
        not_sent s₂ (e, called ∙ ap (λ (u : S). (refused e, u)) at),
      )
  sent-Judged f s s₂ (refused e, s₁) (inr r) called h = ground (arith, h)

  module _ {n : NoError} (keyed : c.keyed_transactor key ≡ ok n) where
    send_round-Judged :
        (a : Attempt) (s s₁ : S) (step : Attempt ⊎ Receipt)
        → send_round c label call key value a s ≡ (ok step, s₁)
        → Judged a.is_first s step s₁
    send_round-Judged a s s₁ step h =
        sent-Judged a.is_first s s₁ _ step refl (sym (send_round-call a s keyed) ∙ h)

    send_round-Succeeds :
        (a : Attempt) (s s' : S) (receipt : Receipt)
        → Succeeds a.is_first s receipt s'
        → send_round c label call key value a s ≡ (ok (inr receipt), s')
    unfolding attempt ◌>>=◌ return
    send_round-Succeeds a s s' receipt (tx, s₁, called, checked) =
        send_round-call a s keyed ∙ rw (called, checked) refl

    send_round-Failed :
        (a : Attempt) {s s₁ : S}
        → Failed a.is_first s s₁
        → (b : Attempt) × (b.is_first ≡ false)
          × (send_round c label call key value a s ≡ (ok (inl b), s₁))
    unfolding attempt ◌>>=◌ return
    send_round-Failed a {s} (not_sent s₁ (e, called)) =
        (again_with (refused_text c label e), refl, send_round-call a s keyed ∙ rw called refl)
    send_round-Failed a {s} (not_mined tx e s₁ s₂ called checked) = (
      again_with (sprintf (label ∷ ": " ∷ e ∷ [])),
      refl,
      send_round-call a s keyed ∙ rw (called, checked) refl,
    )

    Tries-Rounds :
        {k : ℕ} {f g : Bool} {s s' : S} (a : Attempt)
        → a.is_first ≡ f
        → Tries k f s g s'
        → (b : Attempt) × (b.is_first ≡ g) × Rounds (send_round c label call key value) k a s b s'
    Tries-Rounds a same begin = (a, same, start)
    Tries-Rounds a same (more {s = s} {s₁ = s₁} failed later) =
        let (b, second, here) =
          send_round-Failed a (subst (λ (f : Bool). Failed f s s₁) (sym same) failed) in
        let (last, which, rounds) = Tries-Rounds b second later in
        (last, which, again_round here rounds)

    Rounds-Tries :
        {k : ℕ} {a b : Attempt} {s s' : S}
        → Rounds (send_round c label call key value) k a s b s'
        → Tries k a.is_first s b.is_first s'
    Rounds-Tries start = begin
    Rounds-Tries
          (again_round {n = m} {x = x} {y = y} {z = z} {s = s} {s₁ = s₁} {s₂ = s₂} here later) =
        let (second, failed) = send_round-Judged x s s₁ (inl y) here in
        more failed (subst (λ (f : Bool). Tries m f s₁ z.is_first s₂) second (Rounds-Tries later))

  -- Where the key has a transactor: sendTxRetry returns a receipt exactly when it is that of the
  -- first attempt that is sent and mined without error, that attempt being one of the number given,
  -- and each after the first being made five seconds after one that failed.
  pub send_tx_retry-first :
      {n : NoError} (attempts : ℕ) (s s' : S) (receipt : Receipt)
      → c.keyed_transactor key ≡ ok n
      → (send_tx_retry c label call key value attempts s ≡ (ok receipt, s')) ↔ (
          (k : ℕ) × (k < attempts)
          × (f : Bool) × (s₁ : S) × Tries k true s f s₁
          × Succeeds f s₁ receipt s')
  unfolding send_tx_retry throw
  send_tx_retry-first attempts s s' receipt keyed = (
    λ h.
        let (k, early, a, s₁, rounds, here) =
          loop-ok (send_round c label call key value) (λ a. throw a.last_err) (λ a s. (_, refl))
            attempts h in
        (
          k,
          early,
          a.is_first,
          s₁,
          Rounds-Tries keyed rounds,
          send_round-Judged keyed a s₁ s' (inr receipt) here,
        ),
    λ (k, early, f, s₁, tries, succeeds).
        let (a, which, rounds) = Tries-Rounds keyed first_attempt refl tries in
        loop-first (send_round c label call key value) (λ a. throw a.last_err) attempts rounds early
          (send_round-Succeeds keyed a s₁ s' receipt
            (subst (λ (g : Bool). Succeeds g s₁ receipt s') (sym which) succeeds)),
  )
