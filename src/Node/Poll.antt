-- ===== src/Node/Poll.antt =====
-- `ActionResult` of tools/pkg/fccutils/tee_calls.go: the polling of a proxy. The answer of the
-- proxy to the request of each round is a parameter.
use quietfill.Prelude.{
  ℕ, zero, suc, ◌+◌, ◌<◌, ◌≡◌, ◌∙◌, ap, refl, sym, subst, Bool, true, false, String, [], ◌∷◌,
  sprintf, eqb, if◌then◌else◌, arith,
}
use quietfill.Decimal.{decimal}
use quietfill.World.{Reply, ok, fail as error}

-- `http.Response`: the status code and the body.
pub record Answer : Type 0 where
  pub status_code : ℕ
  pub body : String

abbrev pub repeats : ℕ
repeats = 15

-- `err == nil && result.StatusCode == http.StatusOK`.
abbrev pub is_ok : Reply Answer → Bool
is_ok (error _) = false
is_ok (ok a) = eqb a.status_code 200

-- The loop, with so many rounds left, at round `k`; `last` is what the round before got.
unfoldable pub poll : (ℕ → Reply Answer) → ℕ → ℕ → Reply Answer → Reply Answer
poll get zero k last = last
poll get (suc rounds) k last =
    let later = poll get rounds (suc k) (get k) in if is_ok (get k) then get k else later

abbrev pub judge : {A : Type 0} → (String → Reply A) → Reply Answer → Reply A
judge decode (error e) = error e
judge decode (ok a) =
    if eqb a.status_code 200
    then decode a.body
    else error (sprintf ("action result status not ok, got: " ∷ decimal a.status_code ∷ []))

-- `ActionResult`, with the JSON decoder of the response. Before the first round there is no answer;
-- as there are rounds, the code never looks at it.
unfoldable pub action_result : {A : Type 0} → (ℕ → Reply Answer) → (String → Reply A) → Reply A
unfolding poll
action_result get decode = judge decode (poll get repeats 0 (error ""))

-- The rounds from `k`, so many, all miss.
abbrev pub Misses : (ℕ → Reply Answer) → ℕ → ℕ → Type 0
Misses get k n = (i : ℕ) → k < suc i → i < k + n → is_ok (get i) ≡ false

poll-hit :
    (get : ℕ → Reply Answer) (n k rounds : ℕ) (last : Reply Answer)
    → Misses get k n
    → n < rounds
    → is_ok (get (k + n)) ≡ true
    → poll get rounds k last ≡ get (k + n)
unfolding poll
poll-hit get n k zero last misses bound hit = ground (arith, bound)
poll-hit get zero k (suc rounds) last misses bound hit =
    let here : k + 0 ≡ k = omega arith in
    let good : is_ok (get k) ≡ true = subst (λ i. is_ok (get i) ≡ true) here hit in
    rw good (sym (ap get here))
poll-hit get (suc n) k (suc rounds) last misses bound hit =
    let next : suc k + n ≡ k + suc n = omega arith in
    let bad : is_ok (get k) ≡ false = misses k (omega arith) (omega arith) in
    rw bad (
      poll-hit get n (suc k) rounds (get k)
        (λ i low high. misses i (omega (arith, low)) (omega (arith, high))) (omega (arith, bound))
        (subst (λ i. is_ok (get i) ≡ true) (sym next) hit)
      ∙ ap get next)

poll-miss :
    (get : ℕ → Reply Answer) (k rounds : ℕ) (last : Reply Answer)
    → Misses get k (suc rounds)
    → poll get (suc rounds) k last ≡ get (k + rounds)
unfolding poll
poll-miss get k zero last misses =
    let here : k + 0 ≡ k = omega arith in
    let bad : is_ok (get k) ≡ false = misses k (omega arith) (omega arith) in
    rw bad (sym (ap get here))
poll-miss get k (suc rounds) last misses =
    let next : suc k + rounds ≡ k + suc rounds = omega arith in
    let bad : is_ok (get k) ≡ false = misses k (omega arith) (omega arith) in
    rw bad (
      poll-miss get (suc k) rounds (get k)
        (λ i low high. misses i (omega (arith, low)) (omega (arith, high)))
      ∙ ap get next)

judge-miss :
    {A : Type 0} (decode : String → Reply A) (out : Reply Answer)
    → is_ok out ≡ false
    → (e : String) × (judge decode out ≡ error e)
judge-miss decode (error e) miss = (e, refl)
judge-miss decode (ok a) miss =
    (sprintf ("action result status not ok, got: " ∷ decimal a.status_code ∷ []), rw miss)

is_ok-hit : (a : Answer) → a.status_code ≡ 200 → is_ok (ok a) ≡ true
is_ok-hit a hit = ground (arith, hit)

judge-hit :
    {A : Type 0} (decode : String → Reply A) (a : Answer)
    → a.status_code ≡ 200
    → judge decode (ok a) ≡ decode a.body
judge-hit decode a hit = ground (arith, hit)

-- Where a round below the fifteenth is the first that the proxy answers by 200, `ActionResult` is
-- what the decoder makes of that answer's body, and the answers of later rounds do not matter.
action_result-first :
    {A : Type 0} (get : ℕ → Reply Answer) (decode : String → Reply A) (n : ℕ) (a : Answer)
    → Misses get 0 n
    → n < repeats
    → get n ≡ ok a
    → a.status_code ≡ 200
    → action_result get decode ≡ decode a.body
unfolding action_result
action_result-first get decode n a misses bound got hit =
    let here : 0 + n ≡ n = omega arith in
    let good : is_ok (get (0 + n)) ≡ true = ap is_ok (ap get here ∙ got) ∙ is_ok-hit a hit in
    ap (judge decode) (poll-hit get n 0 repeats (error "") misses bound good ∙ ap get here ∙ got)
    ∙ judge-hit decode a hit

-- Where none of the fifteen rounds is answered by 200, `ActionResult` is an error.
pub action_result-none :
    {A : Type 0} (get : ℕ → Reply Answer) (decode : String → Reply A)
    → Misses get 0 repeats
    → (e : String) × (action_result get decode ≡ error e)
unfolding action_result
action_result-none get decode misses =
    let (e, failed) = judge-miss decode (get 14) (misses 14 (omega arith) (omega arith)) in
    (e, ap (judge decode) (poll-miss get 0 14 (error "") misses) ∙ failed)
