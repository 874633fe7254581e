-- ===== src/Lib.antt =====
-- Quietfill's Go code: the extension that runs in a TEE and the tools that deploy, register and
-- verify it.
--
-- The program. The extension (go/internal/extension) is an HTTP server: POST /action takes an
-- instruction that a contract sent, routes it by its type and command, and changes two counters
-- and two texts; GET /state reports them. The tools (tools/pkg, tools/cmd) run around it.
-- verify-deploy looks at the environment, at the file config/extension.env, at the chain and at
-- the proxies, step by step, and adds a result for each check to a report; the report decides the
-- exit status. deploy-contract deploys the auction's contract with its two tokens, and
-- register-extension registers it with the chain. start-tee gives a node its owner, set-governance
-- sets the signers that the chain accepts, allow-tee-version a code hash. register-tee registers a
-- TEE node in steps, whose progress it keeps in a file so that a failed run can resume. run-test
-- drives an auction from the escrow to the settlement. audit-deploy looks at what is deployed, and
-- query-tee at what the chain knows of machines. start-tee, the Docker image and start-proxy are
-- the processes.
--
-- What is outside the repository is a parameter: the environment, files and HTTP (World.World),
-- the chain client and the contract bindings (World.Client, World.Registry, World.Allowlist,
-- Node.Governance.GovernanceChain), go-ethereum and tee-node (World.Eth), the codecs of the
-- extension (Wire.Codec), and the state that registration acts on (Node.Calls.Outside); and for
-- the other tools Support.TxClient, Support.Setup, Instructions.AuctionCode, RunTest.Stack.Stack
-- and a record in the module of each command. A routine that reaches out takes the state of
-- what is outside and returns it with its result (Io.Io); one that ends the process fails. A
-- call that returns a value and an error returns a World.Reply. Texts are valid UTF-8. An
-- address, a hash, a key and a transaction are numbers. A Go int or uint64 that the code adds to
-- is its residue mod 2 ^ 64; an int64 conversion keeps its test (Register.int64_rounds).
--
-- The files.
--   Prelude, with Tests, Lists and Text: the names that all share, conditionals, lists over
--     native numbers, Sprintf and TrimSpace. Decimal: how Go prints a number; Decimal/Atoi is
--     strconv.Atoi.
--   World: the parameters of the checks.
--   Io: the monad of routines on what is outside. Io/Preserves has a rule for each way to build a
--     routine that keeps a property, Io/Success what a success says of the parts, and Io/Loop the
--     loop with a counter and what its rounds make of it.
--   Hex: encoding/hex and the trimming of a prefix. Revert: tools/pkg/fccutils/revert.go and
--     ExtractRevertData; Revert/Sources is diagAvailabilityCheckRevert of diag.go; Revert/Match has
--     the proofs.
--   Report: the types of tools/pkg/validate/report.go, Add, HasFailures, Summary and the value
--     that FprintJSON encodes; Report/Print is Fprint. A check is a function of the report
--     (Report/Checker): `emit` is r.Add, and the steps of a do block run one after the other.
--     Report/Entry, Report/Counts, Report/Groups and Report/Order have
--     the proofs.
--   EnvFile: parseExtensionEnv of tools/pkg/validate/checks.go, with the scanner's limit on a
--     line's length, and the loop that reads the same file into a map. EnvFile/Format is
--     CheckExtensionEnvFormat. EnvFile/Agree has the proofs.
--   Deploy, Register, Startup and Machine: the checks D1 to D7, R1 to R7, those of the steps
--     services and tee-version, and those of tee-machine and test, each named as in the code:
--     `s2` is check S2. Their children Emitted say what is added, Deploy/Failure when that is a
--     failure, Register/Passed when it is none, Deploy/Order what the order of a map changes, Machine/Agree compares checks of different steps.
--   VerifyDeploy: main of tools/cmd/verify-deploy/main.go. Its filter overwrites the array that
--     it reads, so the model keeps the array and both positions. VerifyDeploy/Filter and
--     VerifyDeploy/Exit have the proofs.
--   Wire: the types of go/pkg/types and the constants of go/internal/config.
--   Extension: extension.go and utils.go of go/internal/extension. A handler takes the state and
--     returns it with the response, as if it ran alone; a history of requests is a list
--     (Extension/Serve). Extension/Effect says what a request asks for, Extension/Answer what it
--     is answered, Extension/Numbers which number it gets. Extension/Threads has the same handlers
--     as goroutines that interleave: a step relation with one step for each access to a shared
--     field and each operation of the mutex, whose labels are the requests that take effect.
--     Threads/Logged compares a handler's plan with the handler that runs alone, Threads/Invariant
--     and Threads/Kept have the invariant, Threads/Linear relates the interleavings to the
--     histories, Threads/Progress is about waiting, and Threads/Numbers about the numbers that
--     the greetings get.
--   Support: tools/pkg/support/support.go and ReadAddresses of tools/pkg/configs/configs.go;
--     Support/Fields is fieldMap with its proof, Support/Entries is about the addresses file,
--     Support/Wired about what DefaultSupport returns, Support/Mined about CheckTx. Instructions:
--     tools/pkg/utils/instructions.go.
--   SetupExtension: tools/pkg/fccutils/extension.go, with tools/cmd/register-extension in
--     SetupExtension/Command; SetupExtension/Owners and SetupExtension/Sender have what
--     it leaves on the chain, and SetupExtension/Verified puts verify-deploy behind it;
--     DeployContract/Verified sets verify-deploy against the preflight of deploy-contract.
--     DeployContract, SetGovernance, TeeVersion, AuditDeploy and Launch:
--     tools/cmd/deploy-contract, set-governance, allow-tee-version with AddTeeVersion,
--     audit-deploy, with its main in AuditDeploy/Main, and setOwnerAddress of go/cmd/start-tee.
--     AuditDeploy/Packed and AuditDeploy/Named have proofs. QueryTee: tools/cmd/query-tee, with a
--     proof in QueryTee/Exit. Launch/Ports: the ports of go/internal/config and intEnv of
--     go/cmd/docker; Launch/Processes: main of go/cmd/start-tee, of go/cmd/docker and of go/cmd,
--     and go/pkg/server; Launch/Started has the proofs. StartProxy: tools/cmd/start-proxy, with its
--     proofs.
--   TeeCalls: tools/pkg/fccutils/tee_calls.go without ActionResult, and GetTeeProxyID. Encoding:
--     tools/pkg/fccutils/encoding.go.
--   RunTest: the helpers of tools/cmd/run-test/main.go. RunTest/Stack has its parameters,
--     RunTest/Steps one definition for each numbered step of main, RunTest/Main the rest.
--     RunTest/Arguments has the ABI arguments and the reading of what they decode to, by indices and
--     type assertions, where a panic is `none`. RunTest/Typed, RunTest/Reading, RunTest/Polling, RunTest/Retry, RunTest/Cached, RunTest/Facts,
--     RunTest/Achieved and RunTest/Passed have the proofs.
--   Node: registration. Node/Policy is tools/pkg/fccutils/policy_consistency.go, Node/Governance
--     is governance.go, Node/Calls and Node/Register are registration.go. Node/Disk states what is expected of the disk;
--     Node/Poll is the polling of tee_calls.go, Node/Reverted the search of PreRegistration for
--     the reason of a revert. Node/Resume, Node/Recorded, Node/Skip, Node/Governed and Node/Named have the
--     proofs, by the rules of Io/Preserves. RegisterTee: main of tools/cmd/register-tee, and
--     GetCodeHashAndPlatform of tools/pkg/fccutils/common.go.
--   Tests: concrete surroundings, runs, and the theorems applied to them.
--
-- Bounds. Nothing runs on fuel but four loops. Decimal.digits has one unit more than the number,
-- and a number has no more digits than that. VerifyDeploy.filter_in_place has the length of the
-- slice, which is how often the range loop runs. Node.Poll.poll has the rounds of the constant
-- `repeats`. Io.Loop.loop has the bound of the code's loop, 20 for pollResult and the number of
-- attempts for sendTxRetry. All other loops go through a list or a text.
--
-- Not modelled. Flags, logging, colours of a terminal that is not one, sleeps but those of run-test,
-- and the text on standard error beside the report. What net/http does with a request before and
-- after its handler, and the deadline of a graceful shutdown. The mutex is the set of the handlers
-- that hold it: that Go lets a waiting writer go before later readers is left out, so the model has
-- more interleavings than a run; and the increment of a count is one access to it. Of start-proxy the proxy itself, which is a library. The encoding
-- of JSON and of the ABI, which are libraries. A write to the
-- state file that fails half-way is left to the parameter `write_file`. The values that run-test
-- and GetCodeHashAndPlatform put in some of their error texts. The contracts and the code in other
-- languages.
pub mod Prelude
pub mod Decimal
pub mod Hex
pub mod World
pub mod Io
pub mod Report
pub mod EnvFile
pub mod Deploy
pub mod Register
pub mod Startup
pub mod Machine
pub mod VerifyDeploy
pub mod Wire
pub mod Extension
pub mod Revert
pub mod Support
pub mod Instructions
pub mod SetupExtension
pub mod DeployContract
pub mod SetGovernance
pub mod TeeVersion
pub mod AuditDeploy
pub mod QueryTee
pub mod Launch
pub mod TeeCalls
pub mod Encoding
pub mod StartProxy
pub mod RunTest
pub mod Node
pub mod RegisterTee
mod Tests
