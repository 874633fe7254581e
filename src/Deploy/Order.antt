-- ===== src/Deploy/Order.antt =====
-- `RegisterDeployChecks` against the order in which Go goes through the map of addresses.
use mathlib.Core.Path.{fun_ext}
use mathlib.Core.List.{Perm}
use mathlib.Core.List.Perm
use quietfill.Prelude.{
  ℕ, String, Bool, true, false, ◌≡◌, ◌∙◌, ap, refl, Option, none, some, List, [], ◌∷◌, ◌++◌, any,
  collect, ◌==◌, if◌then◌else◌, arith, subst,
}
use quietfill.World.{World, Eth, Client}
use quietfill.Report.{Report, CheckResult}
use quietfill.Report.Checker.{Emits-emit, Emits-unless, ◌▸◌, added, added-then, emit, done, unless}
use quietfill.Report.Order.{any-Perm, collect-Perm, Agree, Perm-Agree}
use quietfill.Deploy.{
  zero_check, zero_checks, zero_addrs, code_check, code_checks, register_deploy_checks,
  address_not_zero, is_some,
}
use quietfill.Deploy.Emitted.{
  DeployEntry, zero_check-IsEntry, zero_checks-Emits, code_check-IsEntry, code_checks-Emits,
  after_loops, after_loops-Emits, register_deploy_checks-Emits,
}

-- What a loop's body leaves that a `continue` may skip.
skipped :
    (b : Bool) (x : CheckResult) {xs ys : List CheckResult}
    → xs ≡ ys
    → added (unless b (emit x)) ++ xs
      ≡ (elim (if b then none else some x) [ none ↦ ys | some y ↦ y ∷ ys ])
unfolding unless emit done
skipped true x h = h
skipped false x h = ap (λ l. x ∷ l) h

module _ (lib : Eth) where
  abbrev zero_result : String × ℕ → Option CheckResult
  zero_result e = some (zero_check lib e)

  added-zero_checks : (es : List (String × ℕ)) → added (zero_checks lib es) ≡ collect zero_result es
  unfolding zero_checks emit
  added-zero_checks [] = unfold done in refl
  added-zero_checks (e ∷ es) =
      added-then {P = DeployEntry} _ _ (Emits-emit _ (zero_check-IsEntry lib e))
        (zero_checks-Emits lib es)
      ∙ ap (λ xs. zero_check lib e ∷ xs) (added-zero_checks es)

  abbrev marked : String × ℕ → Option String
  marked (label, addr) = if is_some (address_not_zero lib addr label) then some label else none

  zero_addrs-collect : (es : List (String × ℕ)) → zero_addrs lib es ≡ collect marked es
  unfolding zero_addrs
  zero_addrs-collect [] = refl
  zero_addrs-collect ((label, addr) ∷ es) = ground (arith, zero_addrs-collect es)

  zero_addrs-Perm :
      {es es' : List (String × ℕ)} → Perm es es' → Perm (zero_addrs lib es) (zero_addrs lib es')
  zero_addrs-Perm {es} {es'} h =
      rw (zero_addrs-collect es, zero_addrs-collect es') (collect-Perm marked h)

  zero_checks-Perm :
      {es es' : List (String × ℕ)}
      → Perm es es'
      → Perm (added (zero_checks lib es)) (added (zero_checks lib es'))
  zero_checks-Perm {es} {es'} h =
      rw (added-zero_checks es, added-zero_checks es') (collect-Perm zero_result h)

  module _ (client : Option Client) where
    abbrev code_result : List String → String × ℕ → Option CheckResult
    code_result zeros (label, addr) =
        if any (λ l. l == label) zeros then none else some (code_check lib client (label, addr))

    added-code_checks :
        (zeros : List String) (es : List (String × ℕ))
        → added (code_checks lib client zeros es) ≡ collect (code_result zeros) es
    unfolding code_checks unless emit done
    added-code_checks zeros [] = unfold done in refl
    added-code_checks zeros ((label, addr) ∷ es) =
        added-then {P = DeployEntry} _ _
          (Emits-unless _ (Emits-emit _ (code_check-IsEntry lib client (label, addr))))
          (code_checks-Emits lib client zeros es)
        ∙ skipped (any (λ l. l == label) zeros) (code_check lib client (label, addr))
            (added-code_checks zeros es)

    code_result-Perm :
        {zeros zeros' : List String}
        → Perm zeros zeros'
        → (e : String × ℕ) → code_result zeros e ≡ code_result zeros' e
    code_result-Perm h (label, addr) = rw (any-Perm (λ l. l == label) h) refl

    code_checks-Perm :
        {zeros zeros' : List String} {es es' : List (String × ℕ)}
        → Perm zeros zeros'
        → Perm es es'
        → Perm (added (code_checks lib client zeros es)) (added (code_checks lib client zeros' es'))
    code_checks-Perm {zeros} {zeros'} {es} {es'} hz h =
        rw (added-code_checks zeros es, added-code_checks zeros' es')
          (subst (λ g. Perm (collect (code_result zeros) es) (collect g es'))
            (fun_ext (code_result-Perm hz)) (collect-Perm (code_result zeros) h))

added-register_deploy_checks :
    (w : World) (lib : Eth) (client : Option Client) (key : Option ℕ)
    (first second : List (String × ℕ)) (path : String)
    → added (register_deploy_checks w lib client key first second path)
      ≡ added (zero_checks lib first)
        ++ (added (code_checks lib client (zero_addrs lib first) second)
            ++ added (after_loops w lib client key path))
unfolding register_deploy_checks
added-register_deploy_checks w lib client key first second path =
    let codes = code_checks-Emits lib client (zero_addrs lib first) second in
    let rest = after_loops-Emits w lib client key path in
    added-then {P = DeployEntry} _ _ (zero_checks-Emits lib first) (codes ▸ rest)
    ∙ ap (λ l. added (zero_checks lib first) ++ l) (added-then _ _ codes rest)

-- Go goes through a map in an order of its own, in each loop: whatever the two orders are, the deploy
-- checks leave the same results up to their order, and with them the same failure test and the same
-- summary.
pub register_deploy_checks-Agree :
    (w : World) (lib : Eth) (client : Option Client) (key : Option ℕ)
    → {first first' second second' : List (String × ℕ)} → (path : String) (r : Report)
    → Perm first first'
    → Perm second second'
    → Agree
        (register_deploy_checks w lib client key first second path r)
        (register_deploy_checks w lib client key first' second' path r)
register_deploy_checks-Agree w lib client key {first} {first'} {second} {second'} path r h h' =
    Perm-Agree _ _ (
      rw
        (
          (register_deploy_checks-Emits w lib client key first second path).appends r,
          (register_deploy_checks-Emits w lib client key first' second' path).appends r,
        )
        (Perm.append_left r.results (
          rw
            (
              added-register_deploy_checks w lib client key first second path,
              added-register_deploy_checks w lib client key first' second' path,
            )
            (Perm.append (zero_checks-Perm lib h)
              (Perm.append_right _ (code_checks-Perm lib client (zero_addrs-Perm lib h) h'))))))
