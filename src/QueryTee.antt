-- ===== src/QueryTee.antt =====
-- tools/cmd/query-tee/main.go: what it prints, line by line, and how it exits. A line is without its
-- newline; the one that a title begins with is an empty line. Of a panic it is the first line.
pub mod Exit
use quietfill.Prelude.{
  ℕ, suc, ◌+◌, String, Option, none, some, List, [], ◌∷◌, ◌++◌, sprintf, eqb, if◌then◌else◌,
}
use quietfill.Decimal.{decimal}
use quietfill.World.{Reply, ok, fail as error, Printed}

-- What `GetTeeMachine` returns.
pub record TeeMachine : Type 0 where
  pub tee_id : ℕ
  pub tee_proxy_id : ℕ
  pub url : String

-- What `GetActiveTeeMachines` returns.
pub record ActiveMachines : Type 0 where
  pub tee_ids : List ℕ
  pub urls : List String

-- `*machinemanager.MachineManager`, and the texts of its numbers.
pub record MachineManager : Type 0 where
  pub get_active_tee_machines : ℕ → Reply ActiveMachines
  pub get_tee_machine : ℕ → Reply TeeMachine
  pub get_tee_machine_status : ℕ → Reply ℕ
  pub get_tee_machine_owner : ℕ → Reply ℕ
  pub get_extension_id : ℕ → Reply ℕ
  pub get_last_status_change_ts : ℕ → Reply ℕ
  pub get_initial_signing_policy_id : ℕ → Reply ℕ
  pub hex : ℕ → String
  pub quote : String → String
  pub hex_to_address : String → ℕ

-- A line for a query: its answer or its error, under the query's name.
unfoldable pub answer_line : {A : Type 0} → String → (A → String) → Reply A → String
answer_line name show (error e) = sprintf ("  " ∷ name ∷ " ERROR: " ∷ e ∷ [])
answer_line name show (ok a) = sprintf ("  " ∷ name ∷ ": " ∷ show a ∷ [])

module _ (mm : MachineManager) where
  -- The loop over `out.TeeIds`, from index `i` on: its lines, and the index that has no URL, if the
  -- loop comes to one.
  unfoldable pub machine_lines : ℕ → List ℕ → List String → List String × Option ℕ
  machine_lines i [] urls = ([], none)
  machine_lines i (id ∷ ids) [] = ([], some i)
  machine_lines i (id ∷ ids) (url ∷ urls) =
      let rest = machine_lines (i + 1) ids urls in
      (sprintf ("  " ∷ decimal i ∷ ": " ∷ mm.hex id ∷ " url=" ∷ mm.quote url ∷ []) ∷ rest.0, rest.1)

  abbrev pub or_none : List ℕ → List String × Option ℕ → List String × Option ℕ
  or_none [] lines = ("  (none)" ∷ [], none)
  or_none (_ ∷ _) lines = lines

  abbrev pub active_lines : Reply ActiveMachines → List String × Option ℕ
  active_lines (error e) = (sprintf ("getActiveTeeMachines ERROR: " ∷ e ∷ []) ∷ [], none)
  active_lines (ok out) = or_none out.tee_ids (machine_lines 0 out.tee_ids out.urls)

  -- `if *listExt >= 0`: a negative number is none.
  unfoldable pub list_extension : Option ℕ → List String × Option ℕ
  unfolding machine_lines
  list_extension none = ([], none)
  list_extension (some ext) =
      let listed = active_lines (mm.get_active_tee_machines ext) in
      (
        "" ∷ sprintf ("=== Active TEEs for extensionId=" ∷ decimal ext ∷ " ===" ∷ []) ∷ listed.0,
        listed.1,
      )

  abbrev pub show_machine : TeeMachine → String
  show_machine m = sprintf (
      "teeId="
      ∷ mm.hex m.tee_id
      ∷ " teeProxyId="
      ∷ mm.hex m.tee_proxy_id
      ∷ " url="
      ∷ mm.quote m.url
      ∷ [])

  abbrev pub unregistered : Reply TeeMachine → List String
  unregistered (error e) = []
  unregistered (ok m) = if eqb m.tee_id 0 then "  -> EMPTY/UNREGISTERED" ∷ [] else []

  -- The body of the loop over the arguments.
  unfoldable pub query_machine : String → List String
  unfolding answer_line
  query_machine raw =
      let id = mm.hex_to_address raw in
      ""
        ∷ sprintf ("=== TEE " ∷ mm.hex id ∷ " ===" ∷ [])
        ∷ answer_line "getTeeMachine" show_machine (mm.get_tee_machine id)
        ∷ unregistered (mm.get_tee_machine id)
      ++ (answer_line "getTeeMachineStatus" decimal (mm.get_tee_machine_status id)
          ∷ answer_line "getTeeMachineOwner" mm.hex (mm.get_tee_machine_owner id)
          ∷ answer_line "getExtensionId" decimal (mm.get_extension_id id)
          ∷ answer_line "getLastStatusChangeTs" decimal (mm.get_last_status_change_ts id)
          ∷ answer_line "getInitialSigningPolicyId" decimal (mm.get_initial_signing_policy_id id)
          ∷ [])

  unfoldable pub query_machines : List String → List String
  unfolding query_machine
  query_machines [] = []
  query_machines (raw ∷ raws) = query_machine raw ++ query_machines raws

-- `out.Urls[i]` out of range ends the process.
abbrev pub query_listed : MachineManager → List String → List String × Option ℕ → Printed
query_listed mm args (lines, none) = record {
  out = lines ++ query_machines mm args;
  err = [];
  status = 0;
}
query_listed mm args (lines, some i) = record {
  out = lines;
  err =
      sprintf (
        "panic: runtime error: index out of range ["
        ∷ decimal i
        ∷ "] with length "
        ∷ decimal i
        ∷ [])
      ∷ [];
  status = 2;
}

-- `main`, once the URL is dialed and the contract is bound.
abbrev pub query_bound : Option ℕ → List String → Reply MachineManager → Printed
query_bound list_ext args (error e) = record {
  out = [];
  err = sprintf ("bind: " ∷ e ∷ []) ∷ [];
  status = 1;
}
query_bound list_ext args (ok mm) = query_listed mm args (list_extension mm list_ext)

abbrev pub query_dialed :
    {Cc : Type 0} → (Cc → Reply MachineManager) → Option ℕ → List String → Reply Cc → Printed
query_dialed bind list_ext args (error e) = record {
  out = [];
  err = sprintf ("dial: " ∷ e ∷ []) ∷ [];
  status = 1;
}
query_dialed bind list_ext args (ok cc) = query_bound list_ext args (bind cc)

-- `main`, with the flags -rpc and -ext and the arguments; `bind` is at the address of -reg.
unfoldable pub main :
    {Cc : Type 0}
    → (String → Reply Cc)
    → (Cc → Reply MachineManager)
    → String
    → Option ℕ
    → List String
    → Printed
unfolding list_extension query_machines
main dial bind rpc list_ext args = query_dialed bind list_ext args (dial rpc)
