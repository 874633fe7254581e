-- ===== src/Io/Preserves.antt =====
-- A routine preserves a property of what is outside: one rule for each way to build a routine.
use quietfill.Prelude.{String, Bool, true, false, if◌then◌else◌, ◌≡◌, ap, subst}
use quietfill.World.{Reply, ok, fail as error}
use quietfill.Io.{Io, return, throw, view, labelled, wrapped, continue, ◌>>=◌, ◌>>◌}

pub record Preserves {S : Type 0} (P : S → Type 0) {A : Type 0} (m : Io S A) : Type 0 where
  pub holds : (s : S) → P s → P (m s).1

wrapped-Preserves :
    {S A : Type 0} (P : S → Type 0) (e : String) (out : Reply A × S) → P out.1 → P (wrapped e out).1
wrapped-Preserves P e (ok a, s) h = h
wrapped-Preserves P e (error _, s) h = h

pub Preserves_after :
    {S A : Type 0} {P : S → Type 0} {m : Io S A} {s s' : S} {out : Reply A}
    → Preserves P m
    → m s ≡ (out, s')
    → P s
    → P s'
Preserves_after {S} {A} {P} {s = s} kept ran h =
    subst P (ap (λ (t : Reply A × S). t.1) ran) (kept.holds s h)

module _ {S : Type 0} {P : S → Type 0} where
  module _ {A B : Type 0} where
    continue-Preserves :
        (f : A → Io S B)
        → ((a : A) → Preserves P (f a))
        → (out : Reply A × S) → P out.1
        → P (continue f out).1
    continue-Preserves f hf (ok a, s) h = (hf a).holds s h
    continue-Preserves f hf (error e, s) h = h

    pub >>=-Preserves :
        {m : Io S A} {f : A → Io S B}
        → Preserves P m
        → ((a : A) → Preserves P (f a))
        → Preserves P (m >>= f)
    unfolding ◌>>=◌
    >>=-Preserves {m} {f} hm hf = record {
      holds = λ s h. continue-Preserves f hf (m s) (hm.holds s h);
    }

    pub >>-Preserves :
        {m : Io S A} {n : Io S B} → Preserves P m → Preserves P n → Preserves P (m >> n)
    unfolding ◌>>◌
    >>-Preserves hm hn = >>=-Preserves hm (λ _. hn)

  module _ {A : Type 0} where
    pub view-Preserves : (f : S → Reply A) → Preserves P (view f)
    view-Preserves f = record { holds = λ s h. unfold view in h }

    pub return-Preserves : (a : A) → Preserves P {A = A} (return a)
    return-Preserves a = record { holds = λ s h. unfold return in h }

    pub throw-Preserves : (e : String) → Preserves P {A = A} (throw e)
    throw-Preserves e = record { holds = λ s h. unfold throw in h }

    pub labelled-Preserves : (e : String) {m : Io S A} → Preserves P m → Preserves P (labelled e m)
    labelled-Preserves e {m} hm = record {
      holds = λ s h. unfold labelled in wrapped-Preserves P e (m s) (hm.holds s h);
    }

    pub if-Preserves :
        (b : Bool) {m n : Io S A} → Preserves P m → Preserves P n → Preserves P (if b then m else n)
    if-Preserves true hm hn = hm
    if-Preserves false hm hn = hn

    choice-Preserves :
        (b : Bool) (m n : Io S A)
        → Preserves P m
        → Preserves P n
        → (s : S) → P s
        → P (if b then m s else n s).1
    choice-Preserves true m n hm hn = hm.holds
    choice-Preserves false m n hm hn = hn.holds

    -- A choice by what is outside.
    pub choose-Preserves :
        (b : S → Bool) (m n : Io S A)
        → Preserves P m
        → Preserves P n
        → Preserves P (λ s. if b s then m s else n s)
    choose-Preserves b m n hm hn = record { holds = λ s. choice-Preserves (b s) m n hm hn s }
