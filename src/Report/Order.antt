-- ===== src/Report/Order.antt =====
-- What does not depend on the order of a report's results, and of a loop's entries: the counts, the
-- failure test, what a loop yields.
use mathlib.Core.Logic.{∥∥₁_elim}
use mathlib.Core.List.{Perm, Permᴰ}
use mathlib.Core.List.Perm
use quietfill.Prelude.{
  ◌≡◌, ◌∙◌, refl, ap, sym, Bool, Option, none, some, List, [], ◌∷◌, any, collect, arith,
  Option-cases, inl, inr,
}
use quietfill.Report.{
  Status, CheckResult, Report, Counters, any_failure, has_failures, bump, tally, no_counts, summary,
  is_fail,
}

module _ {ℓ} {A : Type ℓ} (p : A → Bool) where
  any-Permᴰ : {xs ys : List A} → Permᴰ xs ys → any p xs ≡ any p ys
  any-Permᴰ Permᴰ.nil = refl
  any-Permᴰ (Permᴰ.cons e h) = cc (e, any-Permᴰ h)
  any-Permᴰ (Permᴰ.swap e e') = rw (e, e') (ground arith)
  any-Permᴰ (Permᴰ.trans h k) = any-Permᴰ h ∙ any-Permᴰ k

  pub any-Perm : {xs ys : List A} → Perm xs ys → any p xs ≡ any p ys
  any-Perm h = ∥∥₁_elim h (hlevel) any-Permᴰ

module _ {A B : Type 0} (f : A → Option B) where
  -- What an element yields, in front of what the others do.
  abbrev put : Option B → List B → List B
  put none ys = ys
  put (some y) ys = y ∷ ys

  collect-cons : (x : A) (xs : List A) → collect f (x ∷ xs) ≡ put (f x) (collect f xs)
  collect-cons x xs = elim (Option-cases (f x)) [
    | inl e ↦ rw (e, collect) refl
    | inr (y, e) ↦ rw (e, collect) refl
  ]

  put-Perm : (o : Option B) (xs ys : List B) → Perm xs ys → Perm (put o xs) (put o ys)
  put-Perm none xs ys h = h
  put-Perm (some y) xs ys h = Perm.cons y h

  put-swap : (o u : Option B) (xs : List B) → Perm (put o (put u xs)) (put u (put o xs))
  put-swap none u xs = Perm.refl _
  put-swap (some y) none xs = Perm.refl _
  put-swap (some y) (some z) xs = Perm.swap z y xs

  collect-Permᴰ : {xs ys : List A} → Permᴰ xs ys → Perm (collect f xs) (collect f ys)
  collect-Permᴰ Permᴰ.nil = Perm.nil
  collect-Permᴰ (Permᴰ.cons {a} {b} {l₁} {l₂} e h) =
      rw (collect-cons a l₁, collect-cons b l₂, sym e)
        (put-Perm (f a) (collect f l₁) (collect f l₂) (collect-Permᴰ h))
  collect-Permᴰ (Permᴰ.swap {a} {b} {a'} {b'} {l} e e') =
      rw
        (
          collect-cons a (b ∷ l),
          collect-cons b l,
          collect-cons a' (b' ∷ l),
          collect-cons b' l,
          sym e,
          sym e',
        )
        (put-swap (f a) (f b) (collect f l))
  collect-Permᴰ (Permᴰ.trans h k) = Perm.trans (collect-Permᴰ h) (collect-Permᴰ k)

  pub collect-Perm : {xs ys : List A} → Perm xs ys → Perm (collect f xs) (collect f ys)
  collect-Perm h = ∥∥₁_elim h (hlevel) collect-Permᴰ

bump_comm : (s t : Status) (c : Counters) → bump s (bump t c) ≡ bump t (bump s c)
unfolding bump
bump_comm s t c = ground arith

tally-Permᴰ : {xs ys : List CheckResult} → Permᴰ xs ys → (c : Counters) → tally c xs ≡ tally c ys
unfolding tally
tally-Permᴰ Permᴰ.nil c = refl
tally-Permᴰ (Permᴰ.cons {a} {b} {l₁} {l₂} e h) c =
    tally-Permᴰ h (bump a.status c) ∙ ap (λ (x : CheckResult). tally (bump x.status c) l₂) e
tally-Permᴰ (Permᴰ.swap {a} {b} {a'} {b'} {l} e e') c =
    rw (sym e, sym e') (ap (λ d. tally d l) (bump_comm b.status a.status c))
tally-Permᴰ (Permᴰ.trans h k) c = tally-Permᴰ h c ∙ tally-Permᴰ k c

any_failure-any :
    (xs : List CheckResult) → any_failure xs ≡ any (λ (x : CheckResult). is_fail x.status) xs
unfolding any_failure
any_failure-any [] = refl
any_failure-any (x ∷ xs) = ground (arith, any_failure-any xs)

-- Two reports agree up to the order of their results: the same results, each as often, and with
-- them the same failure test and the same summary.
pub record Agree (r q : Report) : Type 0 where
  pub same_results : Perm r.results q.results
  pub same_failure : has_failures r ≡ has_failures q
  pub same_summary : summary r ≡ summary q

pub Perm-Agree : (r q : Report) → Perm r.results q.results → Agree r q
unfolding has_failures summary
Perm-Agree r q h = record {
  same_results = h;
  same_failure =
      any_failure-any r.results
      ∙ any-Perm (λ (x : CheckResult). is_fail x.status) h
      ∙ sym (any_failure-any q.results);
  same_summary =
      let same =
        ∥∥₁_elim {P = tally no_counts r.results ≡ tally no_counts q.results} h (hlevel)
          (λ p. tally-Permᴰ p no_counts) in
      rw same refl;
}
