-- ===== src/Launch/Processes.antt =====
-- `main` of go/cmd/start-tee/main.go and of go/cmd/docker/main.go: a tee-node and the extension's
-- server in one process; and StartExtension of go/pkg/server/server.go. The pauses are left out.
use quietfill.Prelude.{
  ℕ, suc, String, Option, none, some, List, [], ◌∷◌, sprintf, eqb, ◌==◌, if◌then◌else◌,
}
use quietfill.Decimal.{decimal}
use quietfill.Decimal.Atoi.{ℤ, pos, negsuc}
use quietfill.World.{Reply, ok, fail as error}
use quietfill.Io.{NoError, nil}
use quietfill.Support.{and_then}
use quietfill.Launch.{Launcher, set_owner_address}
use quietfill.Launch.Ports.{int_env, init}

-- The verb `%d` of an int.
unfoldable pub show_int : ℤ → String
show_int (pos n) = decimal n
show_int (negsuc n) = sprintf ("-" ∷ decimal (suc n) ∷ [])

abbrev pub Env : Type 0
Env = String → String

-- `os.Setenv`.
abbrev pub setenv : String → String → Env → Env
setenv name value env n = if n == name then value else env n

-- What a process starts: the node, with the environment of that time and the ports of its
-- configuration, of its signer and of the extension; and a server that listens on an address.
pub data Started : Type 0 where
  node : Env → ℤ → ℤ → ℤ → Started
  server : String → Started

-- `StartExtension` with `New`: the address of its server.
unfoldable pub start_extension : ℤ → ℤ → Started
unfolding show_int
start_extension extension_port sign_port = server (sprintf (":" ∷ show_int extension_port ∷ []))

-- What a process sees once it is up, in the order in which it takes it.
pub data Event : Type 0 where
  signal : Event
  server_error : String → Event

pub data Outcome : Type 0 where
  waiting : Outcome
  stopped : Outcome
  fatal : String → Outcome

pub record Process : Type 0 where
  pub started : List Started
  pub outcome : Outcome

-- `sig := <-signalChan`: errors of the server are not looked at.
unfoldable pub await_signal : List Event → Outcome
await_signal [] = waiting
await_signal (signal ∷ events) = stopped
await_signal (server_error e ∷ events) = await_signal events

-- The last `select` of the Docker image's process.
unfoldable pub await_either : List Event → Outcome
await_either [] = waiting
await_either (signal ∷ events) = stopped
await_either (server_error e ∷ events) = fatal (sprintf ("extension server error: " ∷ e ∷ []))

-- The `select` that looks for an early error of the server.
abbrev pub unless_failed : Option String → Outcome → Outcome
unless_failed (some e) later = fatal (sprintf ("extension server failed to start: " ∷ e ∷ []))
unless_failed none later = later

-- `main` of the Docker image's process; `early_error` is what `extErrCh` has after the pause.
unfoldable pub docker_main : Env → Option String → List Event → Process
unfolding int_env init start_extension await_either
docker_main getenv early_error events =
    let config = init getenv in
    record {
      started =
          node getenv (int_env getenv "CONFIG_PORT" (pos 5501)) config.sign_port
            config.extension_port
          ∷ start_extension config.extension_port config.sign_port
          ∷ [];
      outcome = unless_failed early_error (await_either events);
    }

abbrev pub export_owner : Option String → Env → Env
export_owner none env = env
export_owner (some owner) env = setenv "INITIAL_OWNER" owner env

abbrev pub export_extension : String → Env → Env
export_extension extension_id env =
    if extension_id == "" then env else setenv "EXTENSION_ID" extension_id env

-- `main` of go/cmd/main.go: the address that it listens on, and how it ends. A signal stops it, be it
-- that its goroutine calls `os.Exit(0)`, or that `Shutdown` makes `ListenAndServe` return
-- `ErrServerClosed` before that.
unfoldable pub await_server : List Event → Outcome
await_server [] = waiting
await_server (signal ∷ events) = stopped
await_server (server_error e ∷ events) = fatal (sprintf ("server: " ∷ e ∷ []))

unfoldable pub server_main : Env → List Event → Process
unfolding init start_extension await_server
server_main getenv events =
    let config = init getenv in
    record {
      started = start_extension config.extension_port config.sign_port ∷ [];
      outcome = await_server events;
    }

-- What start-tee calls, for an environment.
pub record TeeHost : Type 0 where
  pub load : Option String → Env → Reply Env  -- `godotenv.Load`, of a file or of `.env`
  pub root_env : String  -- `rootEnv`: the path `go/.env`, two folders above the program's file
  pub libraries : Launcher
  pub early_error : Option String
  pub marshal_url : String → Reply String
  pub http_post : String → String → Reply ℕ  -- the status code

module _ (h : TeeHost) where
  abbrev pub or_env : Env → Reply Env → Env
  or_env env (ok loaded) = loaded
  or_env env (error e) = env

  abbrev pub or_load : Env → Reply Env → Env
  or_load env (ok loaded) = loaded
  or_load env (error e) = or_env env (h.load none env)

  -- `loadEnv`.
  unfoldable pub load_env : Env → Env
  load_env env = or_load env (h.load (some h.root_env) env)

  abbrev pub accepted_by : ℕ → Reply NoError
  accepted_by status =
      if eqb status 200
      then ok nil
      else error (sprintf ("unexpected status code: " ∷ decimal status ∷ []))

  -- `setProxyURL`.
  unfoldable pub launch_proxy_url : ℕ → ℕ → Reply NoError
  launch_proxy_url configuration_port proxy_port =
      and_then (h.marshal_url (sprintf ("http://localhost:" ∷ decimal proxy_port ∷ []))) λ body.
        and_then
          (h.http_post (sprintf ("http://localhost:" ∷ decimal configuration_port ∷ "/proxy" ∷ []))
            body)
          accepted_by

  abbrev pub unless_refused : Reply NoError → Outcome → Outcome
  unless_refused (error e) later = fatal (sprintf ("Error: " ∷ e ∷ []))
  unless_refused (ok _) later = later

  -- `runExtension`, and what the process does after it. The node starts in a goroutine; the starts are
  -- listed in the order of the statements that start them.
  unfoldable pub run_extension : Env → Outcome → Process
  unfolding start_extension launch_proxy_url
  run_extension env later = record {
    started =
        node env (pos 5501) (pos 7701) (pos 7702) ∷ start_extension (pos 7702) (pos 7701) ∷ [];
    outcome = unless_failed h.early_error (unless_refused (launch_proxy_url 5501 6663) later);
  }

  abbrev pub with_owner : String → Env → Outcome → Reply (ℕ × Option String) → Process
  with_owner extension_id env later (error e) = record { started = []; outcome = fatal e }
  with_owner extension_id env later (ok (returned, exports)) =
      run_extension (export_extension extension_id (export_owner exports env)) later

  -- `main` of start-tee, with its flag -extensionID.
  unfoldable pub start_tee_main : String → Env → List Event → Process
  unfolding load_env set_owner_address run_extension await_signal
  start_tee_main extension_id env events =
      let loaded = load_env env in
      with_owner extension_id loaded (await_signal events)
        (set_owner_address (record h.libraries { getenv = loaded }))
