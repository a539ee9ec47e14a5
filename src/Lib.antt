-- ===== src/Lib.antt =====
-- A verification library for nunya-core, the core process of a VPN client and its mobile
-- binding.
--
-- The program. The desktop process (main.go) serves one connection with framed requests
-- (internal/rpc/dispatch.go), each in a goroutine, whose handlers start and stop a sing-box
-- instance with its helpers: an extra process, an Xray sidecar and the Xray instances of full
-- configs (internal/rpc/lifecycle.go, state.go, xray.go). An Xray instance may stand behind a
-- gate (internal/xray/gate.go) that owns its ports and brings it up when a connection comes.
--
-- The files.
-- Common: lists, options, Boolean tests and their lemmas over the native numbers.
-- Rpc/Frame: Serve's reads as a reader monad on bytes, and its loop; Frame/Parse and
--   Frame/Stream prove what a stream of bytes holds.
-- Rpc/Dispatch: the table `handlers`, dispatch and the goroutine of a request; proofs in
--   Answer.
-- Rpc/Writer: writeResponse under writeMu as a step relation of the goroutines that answer,
--   with a connection that may fail within a Write; Writer/Peer is a reader of the answers,
--   written apart.
-- Rpc/State and Rpc/Lifecycle: the package variables as the record Core, Start and Stop as
--   functions on it; proofs in Resources, Stages and Contract.
-- Probe/Session, Probe/Buffer: testSession and resultBuffer of internal/probe/probe.go.
--   Probe/Batch: runBatch as a step relation; Batch/Counted, Stored and Results prove what it
--   returns. Probe/Dialer: probeDialer as a step relation. Probe/Tunnels, Probe/Handshake:
--   tunnelEndpoints, awaitTunnels and firstRequestTimeout.
--   Probe/UrlTest, Probe/SpeedTest: the results of the tests, in urltest.go and speedtest.go.
-- Rpc/UrlTest, Rpc/SpeedTest: the handlers Test and SpeedTest. Rpc/Diagnostics:
--   CaptureDiagnostics; proofs in Names and Released.
-- Rpc/TestEnv: prepareTestEnv of internal/rpc/testenv.go. Xray/Startup: the eager instances
--   that it and mobile/xray.go start.
-- Rpc/AutoSelector, Rpc/Connections, Rpc/Egress, Rpc/Vpn: AutoSelectorAction, CloseConnections,
--   the mark of a config, and the status and challenges of VPN endpoints, in autoselector.go,
--   connections.go, egress.go and vpnstatus.go of internal/rpc.
-- Mobile/LogPump: logPump of mobile/log.go as a step relation. Mobile/Instance: mobile/xray.go
--   and mobile/instance.go; Instance/Once has Start and Close as a step relation.
-- Mobile/TestEnv: prepareTestEnv of mobile/test.go; TestEnv/Same compares it with that of
--   internal/rpc. Mobile/UrlTest: urlTestReporter and StartURLTest.
-- Xray/Gate: the state and methods of a gate; Gate/Steps: serve, handle, sweep and Close as a
--   step relation. Xray/Remap: remapInbounds and StartGate's listeners; Remap/Open counts those that
--   are open.
-- Process/Child, Process/Config: internal/process, process.go and process_unix.go: who the extra
--   process runs as, with which environment, and who can read its config.
-- Process/Lifecycle: Start, Stop and the waiting goroutine of process.go as a step relation.
-- Process/Windows: process_windows.go: Handles the system, Sessions and Tokens the tokens that a
--   child may get, Start the start of a child and its environment, Runner the wait for it.
-- SystemDns: internal/boxdns/dns_manager_windows.go; Undone and Left are about what it leaves.
-- Rpc/Dashboard: InstallDashboard of internal/rpc/dashboard.go, on Unix.
-- Mobile/Monitor: mobile/monitor.go. Mobile/Status, Mobile/Command: the status and the groups in
--   mobile/command.go.
-- Xray/Resolver: internal/xraydns/resolver.go.
-- Entry: Parent the check of the parent (internal/parentcheck, on Linux), Core RunCore of main.go
--   with ConnectIPC of internal/ipc, Watchdog watchMemory.
-- Warp: internal/warp; Client is the search for a host in api.go, Hosts normalizeHosts, Register
--   the steps of register.go.
--
-- The models. Bytes and code points are numbers, a string is a list of them. An object that the
-- program creates (a box, a process, an instance, a connection) is a handle, a number that is
-- used once, and the state tells which of them run; one whose closing has begun does not.
-- Foreign code answers by an argument: whether each call of Start succeeds is a field of Env,
-- what net.Listen yields, where some addresses are taken, are the functions `listen` and
-- `take_over`, what CreateXrayInstance and the like return is a Bringup, and what a server does
-- with a request is an Exchange. A mutex makes its critical section one step. The loop of Serve runs on fuel, one round more than there are
-- bytes: each round takes ten bytes. The search for tunnels runs on fuel too: two passes and
-- one for each dependency of an outbound are enough, where a finite list holds the outbounds'
-- tags.
--
-- Not modelled: logging, and what only calls the system or a library: internal/sysdns,
-- internal/boxmain, keygen.go of internal/warp and the conversions to protobuf messages;
-- internal/winipcfg and internal/boxbox, which are copies of other projects' code. Nor are the
-- config file on Windows, the parent check on Windows and macOS, iptest.go of internal/probe, the
-- sampling of a speed test, the content of a diagnostics archive, stats.go of internal/rpc, and
-- the other files of mobile, which the theorems do not depend on.
pub mod Common
pub mod Rpc
pub mod Xray
pub mod Probe
pub mod Mobile
pub mod Process
pub mod Warp
pub mod SystemDns
pub mod Entry
