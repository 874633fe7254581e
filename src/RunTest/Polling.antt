-- ===== src/RunTest/Polling.antt =====
-- The loop of `pollResult`.
use quietfill.Prelude.{
  ℕ, suc, ◌↔◌, ◌<◌, ◌≡◌, ◌≢◌, ◌∙◌, ap, refl, sym, subst, String, Bool, true, false, Option, none,
  some, ◌⊎◌, inl, inr, eqb, arith, if◌then◌else◌,
}
use quietfill.World.{Reply, ok, fail as error}
use quietfill.Io.{return, throw, view, attempt, ◌>>=◌, ◌>>◌}
use quietfill.Io.Loop.{Rounds, start, again, loop-first, loop-last, loop-ok}
use quietfill.Node.Poll.{action_result}
use quietfill.RunTest.{
  ActionResponse, Chain, ResultProxy, poll_round, judge_response, no_result, poll_result, pause,
}

module _ {S : Type 0} (c : Chain S) (p : ResultProxy S) (id : ℕ) where
  -- What the proxy has for the action, as `ActionResult` reads it.
  abbrev pub read_result : S → Reply ActionResponse
  read_result s = action_result (p.get_action_result id s) p.decode_action_response

  -- So many rounds go by without a result that is not pending, each with a pause of three seconds.
  pub data Waits : ℕ → S → S → Type 0 where
    come : {s : S} → Waits 0 s s
    pending :
        {n : ℕ} {s s' : S} (resp : ActionResponse)
        → read_result s ≡ ok resp
        → resp.status ≡ 2
        → Waits n (c.sleep 3 s) s'
        → Waits (suc n) s s'
    missing :
        {n : ℕ} {s s' : S} (e : String)
        → read_result s ≡ error e
        → Waits n (c.sleep 3 s) s'
        → Waits (suc n) s s'

  poll_round-pending :
      (last : Option ActionResponse) (s : S) (resp : ActionResponse)
      → read_result s ≡ ok resp
      → resp.status ≡ 2
      → poll_round c p id last s ≡ (ok (inl (some resp)), c.sleep 3 s)
  unfolding poll_round attempt view ◌>>=◌ ◌>>◌ return
  poll_round-pending last s resp found status = rw (found, status) refl

  poll_round-missing :
      (last : Option ActionResponse) (s : S) (e : String)
      → read_result s ≡ error e
      → poll_round c p id last s ≡ (ok (inl last), c.sleep 3 s)
  unfolding poll_round attempt view ◌>>=◌ ◌>>◌ return
  poll_round-missing last s e found = rw found refl

  poll_round-result :
      (last : Option ActionResponse) (s : S) (resp : ActionResponse)
      → read_result s ≡ ok resp
      → resp.status ≢ 2
      → poll_round c p id last s ≡ (ok (inr resp), s)
  unfolding poll_round attempt view ◌>>=◌ ◌>>◌ return
  poll_round-result last s resp found status =
      let other : eqb resp.status 2 ≡ false = ground (arith, status) in rw (found, other) refl

  Waits-Rounds :
      {n : ℕ} {s s' : S} (last : Option ActionResponse)
      → Waits n s s'
      → (last' : Option ActionResponse) × Rounds (poll_round c p id) n last s last' s'
  Waits-Rounds last come = (last, start)
  Waits-Rounds last (pending {s = s} resp found status later) =
      let (last', rounds) = Waits-Rounds (some resp) later in
      (last', again (poll_round-pending last s resp found status) rounds)
  Waits-Rounds last (missing {s = s} e found later) =
      let (last', rounds) = Waits-Rounds last later in
      (last', again (poll_round-missing last s e found) rounds)

  abbrev Verdict : Type 0
  Verdict = Option ActionResponse ⊎ ActionResponse

  -- A round goes on after a pause, with a result that is pending or with none, or it ends with a
  -- result that is not pending.
  abbrev Judged : S → Verdict → S → Type 0
  Judged s (inl _) s₁ =
      (c.sleep 3 s ≡ s₁)
      × (((resp : ActionResponse) × (read_result s ≡ ok resp) × (resp.status ≡ 2))
          ⊎ ((e : String) × (read_result s ≡ error e)))
  Judged s (inr resp) s₁ = (s ≡ s₁) × (read_result s ≡ ok resp) × (resp.status ≢ 2)

  status-Judged :
      (b : Bool) (s s₁ : S) (resp : ActionResponse) (step : Verdict)
      → eqb resp.status 2 ≡ b
      → read_result s ≡ ok resp
      → (if b then pause c 3 >> return {A = Verdict} (inl (some resp)) else return (inr resp)) s
        ≡ (ok step, s₁)
      → Judged s step s₁
  unfolding ◌>>=◌ ◌>>◌ return
  status-Judged true s s₁ resp (inl y) is read h =
      (ap (λ (t : Reply Verdict × S). t.1) h, inl (resp, read, ground (arith, is)))
  status-Judged true s s₁ resp (inr y) is read h = ground (arith, h)
  status-Judged false s s₁ resp (inl y) is read h = ground (arith, h)
  status-Judged false s s₁ resp (inr y) is read h =
      let same : resp ≡ y = ground (arith, h) in
      (
        ap (λ (t : Reply Verdict × S). t.1) h,
        read ∙ ap ok same,
        subst (λ (r : ActionResponse). r.status ≢ 2) same (ground (arith, is)),
      )

  judge_response-Judged :
      (last : Option ActionResponse) (s s₁ : S) (r : Reply ActionResponse) (step : Verdict)
      → read_result s ≡ r
      → judge_response c p last r s ≡ (ok step, s₁)
      → Judged s step s₁
  unfolding ◌>>=◌ ◌>>◌ return
  judge_response-Judged last s s₁ (ok resp) step read h = status-Judged _ s s₁ resp step refl read h
  judge_response-Judged last s s₁ (error e) (inl y) read h =
      (ap (λ (t : Reply Verdict × S). t.1) h, inr (e, read))
  judge_response-Judged last s s₁ (error e) (inr y) read h = ground (arith, h)

  poll_round-Judged :
      (last : Option ActionResponse) (s s₁ : S) (step : Verdict)
      → poll_round c p id last s ≡ (ok step, s₁)
      → Judged s step s₁
  unfolding poll_round attempt view ◌>>=◌ ◌>>◌
  poll_round-Judged last s s₁ step h = judge_response-Judged last s s₁ _ step refl h

  Rounds-Waits :
      {n : ℕ} {s s' : S} {last last' : Option ActionResponse}
      → Rounds (poll_round c p id) n last s last' s'
      → Waits n s s'
  Rounds-Waits start = come
  Rounds-Waits (again {n = n} {x = x} {s = s} {s₁ = s₁} {s₂ = s₂} here later) =
      let (slept, read) = poll_round-Judged x s s₁ _ here in
      let rest = subst (λ (t : S). Waits n t s₂) (sym slept) (Rounds-Waits later) in
      elim read [
        | inl (resp, found, status) ↦ pending resp found status rest
        | inr (e, found) ↦ missing e found rest
      ]

  no_result-error :
      (last : Option ActionResponse) (s : S)
      → (e : String) × (no_result c p id last s ≡ (error e, s))
  unfolding throw
  no_result-error none s = (_, refl)
  no_result-error (some _) s = (_, refl)

  no_result_fails :
      (last : Option ActionResponse) (s : S)
      → (e : String) × ((no_result c p id last s).0 ≡ error e)
  no_result_fails last s =
      let (e, ends) = no_result-error last s in (e, ap (λ (t : Reply ActionResponse × S). t.0) ends)

  -- pollResult returns a response exactly when it is the first that is there and not pending, in one
  -- of twenty rounds, the rounds before it having found none or a pending one; and it returns it at
  -- once, with no pause after it.
  pub poll_result-first :
      (s s' : S) (resp : ActionResponse)
      → (poll_result c p id s ≡ (ok resp, s'))
        ↔ ((n : ℕ) × (n < 20) × Waits n s s' × (read_result s' ≡ ok resp) × (resp.status ≢ 2))
  unfolding poll_result
  poll_result-first s s' resp = (
    λ h.
        let (n, early, last, s₁, rounds, here) =
          loop-ok (poll_round c p id) (no_result c p id) no_result_fails 20 h in
        let (same, read, status) = poll_round-Judged last s₁ s' _ here in
        (
          n,
          early,
          subst (Waits n s) same (Rounds-Waits rounds),
          subst (λ (t : S). read_result t ≡ ok resp) same read,
          status,
        ),
    λ (n, early, waits, found, status).
        let (last, rounds) = Waits-Rounds none waits in
        loop-first (poll_round c p id) (no_result c p id) 20 rounds early
          (poll_round-result last s' resp found status),
  )

  -- Where the result is missing or pending in all of the twenty rounds, pollResult is an error.
  pub poll_result-error :
      (s s' : S) → Waits 20 s s' → (e : String) × (poll_result c p id s ≡ (error e, s'))
  unfolding poll_result
  poll_result-error s s' waits =
      let (last, rounds) = Waits-Rounds none waits in
      let (e, ends) = no_result-error last s' in
      (e, loop-last (poll_round c p id) (no_result c p id) 20 rounds ∙ ends)
