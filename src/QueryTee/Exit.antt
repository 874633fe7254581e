-- ===== src/QueryTee/Exit.antt =====
-- How query-tee ends.
use quietfill.Prelude.{
  map, sprintf, eqb, if◌then◌else◌, append-nil, ℕ, ◌+◌, ◌≤◌, ◌<◌, ◌≡◌, ◌∙◌, ap, refl, String, none,
  some, List, [], ◌∷◌, ◌++◌, length, arith,
}
use quietfill.Decimal.{decimal}
use quietfill.World.{Reply, ok, fail as error}
use quietfill.QueryTee.{
  MachineManager, TeeMachine, ActiveMachines, answer_line, show_machine, unregistered,
  query_machine, machine_lines, list_extension, query_machines, active_lines, or_none, main,
}

module _ (mm : MachineManager) where
  -- The loop comes to an index without a URL exactly where there are fewer URLs than ids, and it is
  -- the number of URLs.
  machine_lines-missing :
      (i : ℕ) (ids : List ℕ) (urls : List String)
      → (length ids ≤ length urls → (machine_lines mm i ids urls).1 ≡ none)
        × (length urls < length ids → (machine_lines mm i ids urls).1 ≡ some (i + length urls))
  unfolding machine_lines
  machine_lines-missing i [] urls = (λ _. refl, λ few. absurd (omega (arith, few)))
  machine_lines-missing i (id ∷ ids) [] =
      (λ enough. absurd (omega (arith, enough)), λ _. ap some (omega arith))
  machine_lines-missing i (id ∷ ids) (url ∷ urls) =
      let (all, few) = machine_lines-missing (i + 1) ids urls in
      (
        λ enough. all (omega (arith, enough)),
        λ missing. few (omega (arith, missing)) ∙ ap some (omega arith),
      )

  -- The lines of the active machines: a number, an id and a URL each; or that there are none.
  abbrev pub numbered : ℕ → List ℕ → List String → List String
  numbered i [] urls = []
  numbered i (id ∷ ids) [] = []
  numbered i (id ∷ ids) (url ∷ urls) =
      sprintf ("  " ∷ decimal i ∷ ": " ∷ mm.hex id ∷ " url=" ∷ mm.quote url ∷ [])
      ∷ numbered (i + 1) ids urls

  abbrev pub active : List ℕ → List String → List String
  active [] urls = "  (none)" ∷ []
  active (id ∷ ids) urls = numbered 0 (id ∷ ids) urls

  -- An answer in its line.
  abbrev pub said : {A : Type 0} → String → (A → String) → Reply A → String
  said name show (ok a) = sprintf ("  " ∷ name ∷ ": " ∷ show a ∷ [])
  said name show (error e) = sprintf ("  " ∷ name ∷ " ERROR: " ∷ e ∷ [])

  -- The machine, and that it is none, where its id is zero.
  abbrev pub machine_said : Reply TeeMachine → List String
  machine_said (error e) = sprintf ("  " ∷ "getTeeMachine" ∷ " ERROR: " ∷ e ∷ []) ∷ []
  machine_said (ok m) =
      sprintf (
        "  "
        ∷ "getTeeMachine"
        ∷ ": "
        ∷ sprintf (
            "teeId="
            ∷ mm.hex m.tee_id
            ∷ " teeProxyId="
            ∷ mm.hex m.tee_proxy_id
            ∷ " url="
            ∷ mm.quote m.url
            ∷ [])
        ∷ [])
      ∷ (if eqb m.tee_id 0 then "  -> EMPTY/UNREGISTERED" ∷ [] else [])

  -- The five other answers.
  abbrev pub others_said : ℕ → List String
  others_said id =
      said "getTeeMachineStatus" decimal (mm.get_tee_machine_status id)
      ∷ said "getTeeMachineOwner" mm.hex (mm.get_tee_machine_owner id)
      ∷ said "getExtensionId" decimal (mm.get_extension_id id)
      ∷ said "getLastStatusChangeTs" decimal (mm.get_last_status_change_ts id)
      ∷ said "getInitialSigningPolicyId" decimal (mm.get_initial_signing_policy_id id)
      ∷ []

  -- The block of an argument: an empty line, its title, and the six answers.
  abbrev pub block : String → List String
  block raw =
      let id = mm.hex_to_address raw in
      "" ∷ sprintf ("=== TEE " ∷ mm.hex id ∷ " ===" ∷ []) ∷ machine_said (mm.get_tee_machine id)
      ++ others_said id

  abbrev pub blocks : List (List String) → List String
  blocks [] = []
  blocks (b ∷ bs) = b ++ blocks bs

  answer_line-said :
      {A : Type 0} (name : String) (show : A → String) (r : Reply A)
      → answer_line name show r ≡ said name show r
  unfolding answer_line
  answer_line-said name show (ok a) = refl
  answer_line-said name show (error e) = refl

  machine_lines-numbered :
      (i : ℕ) (ids : List ℕ) (urls : List String)
      → (machine_lines mm i ids urls).0 ≡ numbered i ids urls
  unfolding machine_lines
  machine_lines-numbered i [] urls = refl
  machine_lines-numbered i (id ∷ ids) [] = refl
  machine_lines-numbered i (id ∷ ids) (url ∷ urls) =
      ap (λ l. sprintf ("  " ∷ decimal i ∷ ": " ∷ mm.hex id ∷ " url=" ∷ mm.quote url ∷ []) ∷ l)
        (machine_lines-numbered (i + 1) ids urls)

  or_none-active :
      (ids : List ℕ) (urls : List String)
      → (or_none mm ids (machine_lines mm 0 ids urls)).0 ≡ active ids urls
  or_none-active [] urls = refl
  or_none-active (id ∷ ids) urls = machine_lines-numbered 0 (id ∷ ids) urls

  machine_said-eq :
      (r : Reply TeeMachine)
      → answer_line "getTeeMachine" (show_machine mm) r ∷ unregistered mm r ≡ machine_said r
  unfolding answer_line
  machine_said-eq (error e) = refl
  machine_said-eq (ok m) = refl

  query_machine-block : (raw : String) → query_machine mm raw ≡ block raw
  unfolding query_machine
  query_machine-block raw =
      let id = mm.hex_to_address raw in
      rw
        (
          answer_line-said "getTeeMachineStatus" decimal (mm.get_tee_machine_status id),
          answer_line-said "getTeeMachineOwner" mm.hex (mm.get_tee_machine_owner id),
          answer_line-said "getExtensionId" decimal (mm.get_extension_id id),
          answer_line-said "getLastStatusChangeTs" decimal (mm.get_last_status_change_ts id),
          answer_line-said "getInitialSigningPolicyId" decimal
              (mm.get_initial_signing_policy_id id),
        )
        (ap (λ l. "" ∷ sprintf ("=== TEE " ∷ mm.hex id ∷ " ===" ∷ []) ∷ l ++ others_said id)
          (machine_said-eq (mm.get_tee_machine id)))

  query_machines-blocks : (args : List String) → query_machines mm args ≡ blocks (map block args)
  unfolding query_machines
  query_machines-blocks [] = refl
  query_machines-blocks (raw ∷ raws) =
      ap (λ l. l ++ query_machines mm raws) (query_machine-block raw)
      ∙ ap (λ l. block raw ++ l) (query_machines-blocks raws)

  -- The lines of a run: the title with the extension's id, the active machines, and what follows.
  abbrev pub printed : ℕ → ActiveMachines → List String → List String
  printed ext out rest =
      ""
        ∷ sprintf ("=== Active TEEs for extensionId=" ∷ decimal ext ∷ " ===" ∷ [])
        ∷ active out.tee_ids out.urls
      ++ rest

  active_lines-missing :
      (out : ActiveMachines)
      → (length out.tee_ids ≤ length out.urls → (active_lines mm (ok out)).1 ≡ none)
        × (length out.urls < length out.tee_ids
            → (active_lines mm (ok out)).1 ≡ some (length out.urls))
  active_lines-missing out = by_ids out.tee_ids out.urls
    where
      by_ids :
          (ids : List ℕ) (urls : List String)
          → (length ids ≤ length urls → (or_none mm ids (machine_lines mm 0 ids urls)).1 ≡ none)
            × (length urls < length ids
                → (or_none mm ids (machine_lines mm 0 ids urls)).1 ≡ some (length urls))
      by_ids [] urls = (λ _. refl, λ few. absurd (omega (arith, few)))
      by_ids (id ∷ ids) urls =
          let (all, few) = machine_lines-missing 0 (id ∷ ids) urls in
          (all, λ missing. few missing ∙ ap some (omega arith))

  -- Where the chain answers with the active machines of the extension, query-tee prints a title with
  -- the extension's id, and a line for each machine with its number, id and URL, or that there are none.
  -- If there is a URL for each id, a block for each argument follows, in their order: a title and the
  -- answers of the chain to six queries, errors included; and it exits with 0. If there are fewer URLs
  -- than ids it panics, and prints no block.
  pub main-Ends :
      {Cc : Type 0} (dial : String → Reply Cc) (bind : Cc → Reply MachineManager) (rpc : String)
      (ext : ℕ) (args : List String) {cc : Cc} {out : ActiveMachines}
      → dial rpc ≡ ok cc
      → bind cc ≡ ok mm
      → mm.get_active_tee_machines ext ≡ ok out
      → (length out.tee_ids ≤ length out.urls
          → ((main dial bind rpc (some ext) args).status ≡ 0)
            × ((main dial bind rpc (some ext) args).out
                ≡ printed ext out (blocks (map block args))))
        × (length out.urls < length out.tee_ids
            → ((main dial bind rpc (some ext) args).status ≡ 2)
              × ((main dial bind rpc (some ext) args).out ≡ printed ext out []))
  unfolding main list_extension
  main-Ends dial bind rpc ext args {out = out} dialed bound answered =
      let (all, few) = active_lines-missing out in
      let lines = or_none-active out.tee_ids out.urls in
      (
        λ enough. (
          rw (dialed, bound, answered, all enough) refl,
          rw (dialed, bound, answered, all enough, query_machines-blocks args, lines) refl,
        ),
        λ missing. (
          rw (dialed, bound, answered, few missing) refl,
          rw (dialed, bound, answered, few missing, lines, append-nil (active out.tee_ids out.urls))
              refl,
        ),
      )
