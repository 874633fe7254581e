-- ===== src/Tests/Launching.antt =====
-- Processes that start, and the commands that print what a chain answers.
use quietfill.Prelude.{
  ℕ, ◌^◌, ◌≤◌, ◌<◌, ◌≡◌, ◌⊎◌, refl, String, none, some, [], ◌∷◌, sprintf, ltb, ◌==◌, if◌then◌else◌,
}
use quietfill.Decimal.{decimal}
use quietfill.Decimal.Atoi.{ℤ, pos}
use quietfill.World.{ok, fail as error, Printed}
use quietfill.Launch.{Launcher}
use quietfill.Launch.Ports.{int_env, init, init-int_env}
use quietfill.Launch.Processes.{
  Env, signal, server_error, stopped, fatal, TeeHost, docker_main, start_tee_main,
}
use quietfill.Launch.Started.{EndsFirst, StartsBoth, start_tee_main-Starts}
use quietfill.QueryTee.{MachineManager, ActiveMachines, main as query_main}
use quietfill.QueryTee.Exit.{main-Ends, printed, block, blocks}

abbrev ports : Env
ports name = if name == "EXTENSION_PORT" then "7702" else if name == "SIGN_PORT" then "port" else ""

init-int_env_example :
    ((init ports).extension_port ≡ int_env ports "EXTENSION_PORT" (pos 8080))
    × ((init ports).sign_port ≡ int_env ports "SIGN_PORT" (pos 9090))
    × ((key : String) (fallback : ℤ) (n : ℕ)
        → ports key ≡ decimal n
        → int_env ports key fallback ≡ (if ltb n (2 ^ 63) then pos n else fallback))
init-int_env_example = init-int_env ports

ports_read : (init ports).extension_port ≡ pos 7702
unfolding init
ports_read = refl

abbrev launcher : Launcher
launcher = record {
  getenv = λ name. "";
  hex_to_ecdsa = λ t. ok 5;
  pubkey_to_address = λ key. key;
  hex = λ a. "0x5";
  hex_to_address = λ t. 0;
}

abbrev host : TeeHost
host = record {
  load = λ path env. ok env;
  root_env = "/.env";
  libraries = launcher;
  early_error = none;
  marshal_url = λ url. ok url;
  http_post = λ url body. ok 200;
}

start_tee_main-Starts_example :
    EndsFirst host "0x4" ports (server_error "closed" ∷ signal ∷ [])
    ⊎ StartsBoth host "0x4" ports (server_error "closed" ∷ signal ∷ [])
start_tee_main-Starts_example =
    start_tee_main-Starts host "0x4" ports (server_error "closed" ∷ signal ∷ []) (λ a. cc)

-- An error of the server after the start ends the Docker image's process, and start-tee waits on.
docker_ends :
    (docker_main ports none (server_error "closed" ∷ signal ∷ [])).outcome
    ≡ fatal "extension server error: closed"
unfolding docker_main sprintf
docker_ends = refl

start_tee_waits :
    (start_tee_main host "0x4" ports (server_error "closed" ∷ signal ∷ [])).outcome ≡ stopped
unfolding start_tee_main
start_tee_waits = refl

abbrev two_machines : ActiveMachines
two_machines = record { tee_ids = 1 ∷ 2 ∷ []; urls = "http://a" ∷ [] }

abbrev manager : MachineManager
manager = record {
  get_active_tee_machines = λ ext. ok two_machines;
  get_tee_machine = λ id. ok (record { tee_id = 0; tee_proxy_id = 0; url = "" });
  get_tee_machine_status = λ id. error "reverted";
  get_tee_machine_owner = λ id. ok 3;
  get_extension_id = λ id. ok 4;
  get_last_status_change_ts = λ id. ok 5;
  get_initial_signing_policy_id = λ id. ok 6;
  hex = λ a. "0x";
  quote = λ t. t;
  hex_to_address = λ t. 9;
}

abbrev query : Printed
query = query_main {Cc = ℕ} (λ rpc. ok 1) (λ cc. ok manager) "http://node" (some 4) ("0x9" ∷ [])

main-Ends_example :
    (2 ≤ 1
      → (query.status ≡ 0)
        × (query.out ≡ printed manager 4 two_machines (blocks manager (block manager "0x9" ∷ []))))
    × (1 < 2 → (query.status ≡ 2) × (query.out ≡ printed manager 4 two_machines []))
main-Ends_example =
    main-Ends manager {Cc = ℕ} (λ rpc. ok 1) (λ cc. ok manager) "http://node" 4 ("0x9" ∷ []) refl
      refl refl
