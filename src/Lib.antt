-- ===== src/Lib.antt =====
-- RouteDeck: the controller of a desktop proxy client (src-tauri), which publishes a local proxy in the
-- Windows settings, restores them, checks what the user imports and looks for updates.
--
-- Parts, and the files that model them:
-- - src-tauri/src/system_proxy.rs, SystemProxyManager: SystemProxy. The settings and the journal are
--   SystemProxy/Snapshot and SystemProxy/Journal, the calls of the operating system are the record
--   Platform of SystemProxy/Platform with its laws, and publish_loopback, is_owned and
--   restore_if_owned are the actions of SystemProxy/Manager, call by call: what was done before an
--   error stays done. SystemProxy/Cleanup classifies what is observed, and SystemProxy/Cleanup/Desk
--   has diagnostics and clear_stale; its state, Desk, is the world and the field cleanup_preview.
--   SystemProxy/FetchProxy reads the manual proxy of the registry and checks that it agrees with
--   WinINet.
-- - src-tauri/src/app_rule_matching.rs: AppRules, names of executables and their patterns.
-- - src-tauri/src/domain.rs: Domain, the protocols of a node and their validation, ports and ranges.
-- - src-tauri/src/app_updates.rs: AppUpdates, versions, their order and release answers.
-- - src-tauri/src/engine_runtime.rs: Diagnostics, the buffer of redacted lines, and random_hex in
--   SystemProxy/Manager.
-- - src-tauri/src/portable_update/manifest.rs: PortableUpdate, the signed list of an update's files;
--   hex and unhex are in Text/Hex.
-- - src-tauri/src/application.rs, ApplicationController: Controller. The published status and its
--   errors are Controller/Status, the state of the controller Controller/Session (its locks are not
--   fields: an operation runs under them), and what it calls is the record Services of
--   Controller/Services; RealityProcessPair is Controller/Children. start_locked is
--   Controller/Starting and Controller/Proving, the starts around it with their rollbacks are
--   Controller/Requests, Controller/Connect, Controller/ConnectTun and Controller/Rollback; stop,
--   retry_session_recovery, shutdown and begin_portable_update are Controller/Teardown;
--   monitor_tick is Controller/Monitor and Controller/MonitorProof, and reconnect_tick
--   Controller/Reconnect. Controller/Steps has the threads as steps of one state, an operation or a
--   section of it under the lock at a time; a renewed proof ends in whatever state the other
--   threads left. In the other files the sections of start_system_proxy and start_tun follow each
--   other at once. RoutePolicy is the data of Domain/Routes.
--   Controller/Wiring puts SystemProxyManager behind the Services, as
--   ApplicationController::production does.
--
-- How they interact: the controller publishes, checks and restores the proxy through the calls of
-- the manager that Services lists, and the phase and the proof rows of its status follow each step;
-- a tick of the monitor or of the reconnection may tear a session down as the user's stop does. The
-- manager loads the journal before every operation, and only a valid one leads to a restoration;
-- Domain and AppRules share DomainError, and the helper checks the patterns that the controller
-- generated.
--
-- Conventions. A text is the list of its Unicode scalar values, and byte_len is its length in UTF-8
-- (Text). Machine integers are natural numbers: a parser takes the bound of its type (Text/Decimal),
-- flags are tested bit by bit. to_decimal has fuel for twenty digits, which every number below
-- 10 ^ 20 has, so every u64; all other recursion is structural. A Result with effects is an Action
-- (Action), one without is a Result (Results).
--
-- Instants are nanoseconds from some start, delays are in seconds.
--
-- Parameters: the platform of the System Proxy, whose laws state what the files and settings are
-- after each call: an application of settings that fails has changed nothing or all of them, and no
-- other program writes them while an operation of the manager runs; the JSON codecs;
-- SocketAddr::from_str, IpAddr and url::Host; the Unicode tables of to_lowercase; the check of an
-- ed25519 signature. The machine of Examples/Machine satisfies the laws of the platform. For the
-- controller the record Services: the clock, the randomness, the processes and their launchers, the
-- listeners, the prober, the System Proxy as it is called, the recovery of sessions, the
-- preparation of the configurations and files of a start, the redactors and the validation of
-- policies and TUN options. No law is assumed of them, except in Controller/Wiring: its record
-- Wiring states that the three calls of the System Proxy are those of the manager on a view of the
-- world, that no other call touches the settings and the journal there, and that ports are u16. The
-- machine of Examples/Machine satisfies it in Controller/Wiring/Examples.
--
-- Not modelled: the windows and commands, the processes and sockets, WinINet and RAS themselves,
-- the HTTP requests, subscriptions, the engine's configuration, health probes, session recovery,
-- the TUN helper and the installation of updates. Of the controller: start_local_proxy, imports and
-- their previews, the switch of servers, clear_stale_system_proxy and the release of reserved
-- ports.
pub mod Prelude
pub mod Action
pub mod Text
pub mod SystemProxy
pub mod Diagnostics
pub mod AppRules
pub mod AppUpdates
pub mod Results
pub mod Domain
pub mod PortableUpdate
pub mod Controller
pub mod Examples
