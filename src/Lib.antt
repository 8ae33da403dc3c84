-- ===== src/Lib.antt =====
-- The rpc plugin substrate: a host process that launches plugins as child processes, speaks to each
-- over a Unix socket (net/rpc), watches their health and writes an event log; a control program
-- talks to it. A Manager supervises one plugin, a Host owns one Manager for each plugin and routes
-- requests to them, each Manager writes its own event log, and the declared metadata of a plugin is
-- shown through the states of its Manager.
--
-- Which file models which part of the program:
--   Prelude            Boolean tests, the conditional, and what is used of Go's strings, strconv and
--                      path/filepath; no code of the program
--   Bundle.Types, Bundle.Redact, Bundle.Project
--                      src/internal/providerbundle/metadata.go: the records, RedactSecretLike and
--                      RedactAdminString, CoreDTO and AdminDTO
--   Bundle.Validate    metadata.go: the three methods Validate
--   Bundle.Load, Bundle.Loader
--                      src/internal/providerbundle/loader.go: the paths within a bundle;
--                      parseManifestIdentity and LoadProviderBundleMetadata
--   EventLog.Types, EventLog.Rotate, EventLog.Write
--                      src/internal/eventlog/eventlog.go: NewWithOptions, Write, rotateIfNeeded
--   EventLog.Read, EventLog.Display
--                      src/internal/eventlog/read.go: ReadAll and Summarize; RedactForDisplay
--   EventLog.Provider, EventLog.Observation
--                      src/internal/eventlog/provider.go: the tests of a text and of details;
--                      ProviderEvent
--   Kernel.Types       src/internal/kernel/manager.go: Config, State, Manager, errors, and the
--                      constants of src/internal/eventlog/eventlog.go that the manager logs with
--   Kernel.Rpc         manager.go: rpcClient.close, poisonClient, call
--   Kernel.Artifacts   manager.go: cleanupRuntimeArtifacts, rollbackGeneration, cleanupFailedStart
--   Kernel.Start       manager.go: startLocked, dial, verifyPeerCred
--   Kernel.Stop        manager.go: stopCurrent
--   Kernel.Requests    manager.go: Heartbeat, Echo, Sleep, Crash
--   Kernel.Lifecycle   manager.go: New, Kill, Restart, Close; src/internal/kernel/monitor.go: one
--                      round of MonitorLoop
--   Kernel.Snapshot    manager.go: State, CoreState and the metadata bound to a generation
--   Plugin.Config, Plugin.Server
--                      src/pkg/plugin/plugin.go: LoadConfigFromEnv; the methods of server
--   Plugin.Logging     src/pkg/plugin/logging.go: Event and ProviderDiagnostic
--   Plugin.Environment manager.go, startLocked: the variables that a plugin is started with
--   Host.Types, Host.Build, Host.Operations, Host.Routing, Host.Direct
--                      src/internal/kernel/host.go and plugin_id.go: NewHost; Close, StartAll, MonitorLoop;
--                      State, CoreSnapshot and CallRequest; Plugin, Echo, Heartbeat, RestartPlugin
--   Admin.Service, Admin.Serving
--                      src/internal/adminrpc/adminrpc.go: the methods of Service; serve; ListenUnix of
--                      src/internal/runtime/runtime.go
--   Daemon.Plugins, Daemon.Config, Daemon.Run
--                      src/cmd/rpcplugind/main.go: resolvePlugins and parsePlugins;
--                      parseDaemonConfig; run
--   Ctl.Args, Ctl.Options, Ctl.Run
--                      src/cmd/rpcpluginctl/args.go and main.go: splitCommandArgs; validateOptions
--                      and resolveLogPath; run
-- The other modules hold proofs: the children of a module of code those about it, and beside them
-- in Bundle Safe, Loaded, Observed and Ending, in EventLog Shift, Written, Selected, Counted, Shown,
-- Accepted and Embedded, in Plugin Guarded, Diagnosed and Handshake, in Host Lists, Building,
-- Starting, Ready, Ticking, Routed, Agreeing and Capabilities, in Admin Checked and Ended, in Daemon Printed,
-- Accepted and Exited, in Kernel Frame, and in Ctl Split, Composed and Chosen.
-- Kernel.Invariant is the invariant of a manager, Kernel.Lifecycle.History and Final the
-- histories of operations, and each Tests holds concrete runs.
--
-- How the state corresponds: a Manager is a record with the fields of the struct. The pointers to
-- the client and to the command are an Option of a number that stands for the connection and of the
-- pid; the `world` field holds what the operating system keeps for this manager: the child processes
-- that run, the connections that are open, and the runtime files that exist. The `log` field is the
-- event log as the list of its entries, newest first. An operation takes a manager to a result and a
-- manager. A Host is the list of its managers under their ids, in ascending order of the ids. The
-- files of an event log are numbered, 0 being the log and i its i-th backup.
--
-- A plugin's server is the record of its struct, with the methods of the plugin's own code that were
-- called and the number of calls of its hook. The control program meets the daemon through the admin
-- service, the daemon makes the host from its configuration, and a manager starts a plugin whose
-- server is that of the SDK: where two parts interact, one's functions are the arguments of the
-- other's.
--
-- What lies outside is an argument: what a plugin answers to a request, what another goroutine
-- does to the manager while a request waits with the lock released (a function on managers), and
-- the outcome of each system call (records Launch, Halt, Setup, Outside, FileSystem, Disk, System,
-- SocketSystem, CtlEnv). Nothing is assumed of it unless a theorem says so. A generation or an
-- epoch is a uint64: its arithmetic is written mod 2^64. An int64, and so a duration, is kept as
-- its 64-bit pattern. Every function is total by
-- structure; a number is written with at most 20 digits, which is enough for a uint64.
--
-- Not modelled: the text of error messages and the details of log entries, time-outs as such (an
-- answer that does not come is an answer of its own), and marshalling. The manager's log is a
-- list: that the file behind it is rotated is modelled with the event log. The goroutines of
-- MonitorLoop (but for the panic of a ticker and for single rounds), the connections that a server
-- serves at the same time, the printing of tables and summaries (src/internal/cli, FormatText) and
-- the system calls of src/internal/runtime are left out.
pub mod Prelude
pub mod Bundle
pub mod EventLog
pub mod Kernel
pub mod Plugin
pub mod Host
pub mod Admin
pub mod Daemon
pub mod Ctl
