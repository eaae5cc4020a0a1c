-- ===== src/Lib.antt =====
-- A model of the control plane of Tidefly (tidefly-plane) and what holds of it.
--
-- The plane keeps a manifest of each service, resolves it into a container specification, and in a
-- loop compares what runs with what the manifest wants.
--
-- * Manifest is internal/manifest. Manifest/Schema has the types of schema.go; Manifest/Validate is
--   `validate` and Manifest/Resolve is `Resolve` of resolver.go, with the results of Manifest/Resolved;
--   Manifest/Adapter is adapter.go. The walk of Go's map of known ports, whose order the language
--   leaves open, is an argument, and so is `time.ParseDuration`.
-- * Converter is internal/converter: Compose is compose.go, Sources has image.go, dockerfile.go and git.go, and
--   Convert the switch over the sources of converter.go. The decoders of JSON and YAML and the clone of a
--   repository are arguments; Go's walk of the map of services is the order of a list.
-- * Models and Runtime hold the types of internal/models/services.go and internal/infra/runtime.
--   Runtime/Engine stands for the container engine, the ingress and the clock, which are not the
--   plane's code: a record of functions on a type of worlds, which the definitions take as a
--   parameter. A `State` has the world, the service's row and a trace of the calls made, latest first;
--   the theorems on the order of calls are about the trace. A write to the row is `save`,
--   which is taken to succeed; the write of a name, which can fail on the index, is the job's `update_row`.
-- * Reconciler is internal/reconciler: Diff is `diff`, Health is `waitHealthy`, BlueGreen, Rolling and
--   Digest are the files of these names, Actions has the actions and the loops `reconcileOne` and
--   `reconcileAll`. The stages of a long Go function are definitions of their own, each ending in the
--   next, as the early returns do. The other modules of Reconciler are proofs.
-- * Webhook is internal/webhook: Signature and Payload are parser.go and Receive is receive.go, with the
--   rows of internal/models/events.go that it writes. The HMAC, the JSON decoder, the decryption of
--   secrets and the job queue are parameters.
-- * Auth is internal/auth: Tokens is the `TokenStore` of jwt.go and Accounts is service.go, over a list of
--   users and a list of tokens. Passwords, signatures and random values come from the record `Crypto`,
--   which the definitions take as a parameter. The database is taken to answer every query.
-- * Notification is internal/notification: Table has the operations of service.go on a list of rows; the
--   hash that makes a fingerprint and the cut of long messages are parameters. Ledger is the account, kept per
--   fingerprint and without a table, that the operations implement.
-- * Ca is internal/platform/ca/token.go: the one-time tokens with which a worker registers.
-- * Agent is internal/agent. Messages and Commands are the messages of proto/agent.proto; Conn is the
--   `WorkerConn` and Registry the `Registry` of registry.go, Nodes is store.go and service.go over the rows of
--   internal/models/infra.go, Session has the handlers of server.go, and Client the calls of client.go. A
--   pointer to a connection is a number, and the registry keeps the connections under their numbers, those
--   that it no longer names included. A channel is the list of what it holds, with a flag for closed; what
--   would panic or wait for ever is an error. `Step` is one step of any handler or administrator, `Run` a
--   sequence of them and `Reachable` what they lead to. The ids of commands are taken to be new.
-- * Jobs is internal/jobs: Events and Stops are the watcher of container events of events_webhooks.go,
--   Recovery has the healing and the health-check job of service_workers.go, Stages, Deployment,
--   Redeployment and Changes the jobs that deploy, redeploy, update and delete a service, Autoscale its
--   autoscaling, and Slots is deploy_helpers.go, with a wait and a removal of its own. What the jobs ask for
--   beyond the engine are the records `JobEngine` and `DeployEngine`, where `name_taken` stands for the
--   unique index on the names of services. The autoscaling takes the four comparisons of the measured load
--   with the target as a record of Booleans.
-- * Access is internal/access/access.go with internal/container/access.go, and Version/Check is the comparison
--   of versions in internal/system/version_check.go.
--
-- `waitHealthy` runs on fuel: 32 rounds, of which each waits two seconds of the sixty that it has;
-- Reconciler/Termination shows that this is enough. The wait of the jobs, in Jobs/Slots, has the same
-- rounds, as Jobs/BlueGreen shows. `digits` in Manifest/Adapter runs on one more than the number that it
-- writes, which Manifest/Digits shows to be enough by reading the text back. The other loops are over
-- lists. Go's `int` is an unbounded integer here, as no operation of the code comes near its bound but for
-- the numbers in versions, where Version/Check has it. The errors that the code drops are dropped, and the
-- text of logs and notifications is left out.
--
-- Not modelled: the tickers and goroutines around the loops, the database behind the rows (a query is
-- a filter on a list), the HTTP handlers, TLS and the issuing of certificates, the measured loads and their
-- floating-point numbers, the clean-up of images and volumes, and the clients of Docker, Podman,
-- Caddy and the registries, which are calls of third-party code.
pub mod Prelude
pub mod Manifest
pub mod Runtime
pub mod Models
pub mod Reconciler
pub mod Access
pub mod Agent
pub mod Auth
pub mod Ca
pub mod Converter
pub mod Jobs
pub mod Notification
pub mod Version
pub mod Webhook
