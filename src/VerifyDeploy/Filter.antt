-- ===== src/VerifyDeploy/Filter.antt =====
-- The filter that reuses the array it reads keeps exactly the allowed results.
use quietfill.Prelude.{
  ℕ, zero, suc, ◌+◌, ◌≡◌, refl, sym, ◌∙◌, ap, Bool, some, List, [], ◌∷◌, ◌++◌, length,
  length-append, keep_if, append-nil, append_assoc, arith, Bool-cases, inl, inr, if◌then◌else◌,
}
use quietfill.Report.{CheckResult}
use quietfill.VerifyDeploy.{read, write, prefix, filter_in_place}

read-append :
    (xs t : List CheckResult) (x : CheckResult) (i : ℕ)
    → i ≡ length xs
    → read (xs ++ x ∷ t) i ≡ some x
unfolding read
read-append [] t x zero h = refl
read-append [] t x (suc i) h = absurd (omega arith)
read-append (y ∷ ys) t x zero h = absurd (omega arith)
read-append (y ∷ ys) t x (suc i) h = read-append ys t x i (omega arith)

write-append :
    (ws t : List CheckResult) (x y : CheckResult) (k : ℕ)
    → k ≡ length ws
    → write (ws ++ y ∷ t) k x ≡ ws ++ x ∷ t
unfolding write
write-append [] t x y zero h = refl
write-append [] t x y (suc k) h = absurd (omega arith)
write-append (w ∷ ws) t x y zero h = absurd (omega arith)
write-append (w ∷ ws) t x y (suc k) h = ap (λ l. w ∷ l) (write-append ws t x y k (omega arith))

prefix-append : (ws t : List CheckResult) (k : ℕ) → k ≡ length ws → prefix k (ws ++ t) ≡ ws
unfolding prefix
prefix-append [] t zero h = refl
prefix-append [] t (suc k) h = absurd (omega arith)
prefix-append (w ∷ ws) t zero h = absurd (omega arith)
prefix-append (w ∷ ws) t (suc k) h = ap (λ l. w ∷ l) (prefix-append ws t k (omega arith))

-- What stands between the kept results and the unread ones, after one more is kept.
abbrev shift : List CheckResult → CheckResult → List CheckResult
shift [] x = []
shift (g ∷ gs) x = gs ++ x ∷ []

length-shift : (gap : List CheckResult) (x : CheckResult) → length (shift gap x) ≡ length gap
length-shift [] x = refl
length-shift (g ∷ gs) x = omega (arith, length-append gs (x ∷ []))

write_step :
    (ws gap t : List CheckResult) (x : CheckResult) (k : ℕ)
    → k ≡ length ws
    → write (ws ++ gap ++ x ∷ t) k x ≡ (ws ++ x ∷ []) ++ shift gap x ++ t
write_step ws [] t x k h = simp (append-nil, append_assoc) (write-append ws t x x k h)
write_step ws (g ∷ gs) t x k h = simp append_assoc (write-append ws (gs ++ x ∷ t) x g k h)

assoc_one :
    (ws gap : List CheckResult) (x : CheckResult) (todo : List CheckResult)
    → ws ++ (gap ++ x ∷ []) ++ todo ≡ ws ++ gap ++ x ∷ todo
assoc_one ws gap x todo = simp append_assoc

filter_step :
    (p : CheckResult → Bool) (rounds i k : ℕ) (array : List CheckResult) (x : CheckResult)
    → read array i ≡ some x
    → filter_in_place p (suc rounds) i k array ≡ (
        if p x
        then filter_in_place p rounds (suc i) (suc k) (write array k x)
        else filter_in_place p rounds (suc i) k array)
unfolding filter_in_place
filter_step p rounds i k array x h = ground arith

filter_from :
    (p : CheckResult → Bool) (ws gap todo : List CheckResult) (rounds i k : ℕ)
    → rounds ≡ length todo
    → k ≡ length ws
    → i ≡ length ws + length gap
    → filter_in_place p rounds i k (ws ++ gap ++ todo) ≡ ws ++ keep_if p todo
filter_from p ws gap [] zero i k hr hk hi =
    unfold filter_in_place in
    ap (prefix k) (append_assoc ws gap []) ∙ prefix-append ws (gap ++ []) k hk ∙ sym (append-nil ws)
filter_from p ws gap [] (suc rounds) i k hr hk hi = absurd (omega arith)
filter_from p ws gap (x ∷ todo) zero i k hr hk hi = absurd (omega arith)
filter_from p ws gap (x ∷ todo) (suc rounds) i k hr hk hi =
    let found : read (ws ++ gap ++ x ∷ todo) i ≡ some x =
      read-append (ws ++ gap) todo x i (omega (arith, length-append ws gap)) in
    elim (Bool-cases (p x)) [
      | inl e ↦
          rw (filter_step p rounds i k _ x found, e, write_step ws gap todo x k hk)
            (filter_from p (ws ++ x ∷ []) (shift gap x) todo rounds (suc i) (suc k) (omega arith)
                (omega (arith, length-append ws (x ∷ [])))
                (omega (arith, length-append ws (x ∷ []), length-shift gap x))
              ∙ append_assoc ws (x ∷ []) (keep_if p todo))
      | inr e ↦
          rw (filter_step p rounds i k _ x found, e, ← assoc_one ws gap x todo)
            (filter_from p ws (gap ++ x ∷ []) todo rounds (suc i) k (omega arith) hk
              (omega (arith, length-append gap (x ∷ []))))
    ]

-- The loop of `main` under `-checks`, which overwrites the array while it reads it, leaves the
-- results that pass the test, each once and in their order.
pub filter_in_place_lem :
    (allowed : CheckResult → Bool) (results : List CheckResult)
    → filter_in_place allowed (length results) 0 0 results ≡ keep_if allowed results
filter_in_place_lem allowed results =
    filter_from allowed [] [] results (length results) 0 0 refl refl (omega arith)
