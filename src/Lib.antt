-- ===== src/Lib.antt =====
-- Verification library of the campus-network client (a DrCOM login with heartbeats over UDP).
--
-- The program's parts, and where they stand here. Paths are from the repository's root.
--
--   internal/protocol/types.go      Protocol/Types: the records Config and Session, sizes, errors
--   internal/protocol/crypto.go     Protocol/Crypto: XOR, ROR, Checksum, CRC; laws in Crypto/Laws
--   internal/protocol/challenge.go  Protocol/Challenge: BuildLoginChallenge, BuildLogoutChallenge,
--                                   the parsers of their replies
--   internal/protocol/login.go      Protocol/Login: BuildLoginPacket, ParseLoginResponse
--   internal/protocol/heartbeat.go  Protocol/Heartbeat: the keepalive, the heartbeats, their parsers
--   internal/protocol/logout.go     Protocol/Logout: BuildLogoutPacket, ParseLogoutResponse
--   internal/protocol/response.go   Protocol/Response: ResponseMatcher (validHeartbeat stands with
--                                   the heartbeats)
--   internal/transport/retry.go     Transport/Retry: RetryExchange; the errors in Transport/Failure
--   internal/transport/udp.go       Transport/Udp: NewTransport and Transport.Exchange; what
--                                   datagrams and errors make of it in Udp/Verdicts, its loop in
--                                   Udp/Answers, its end in Udp/Ends, its panics in Udp/Panics
--   internal/transport/interface_windows.go
--                                   Transport/Pin: pinInterface; the interface it finds in Pin/Owner,
--                                   with NewTransport in Pin/Opening
--   internal/config/config.go       Config/Types: the settings and ProtocolConfig; Config/Values: the
--                                   readers of single values; Config/Validate: Validate;
--                                   Config/Parse: ParseWithDetector; Config/Detect:
--                                   AutoDetectNetwork; Config/Select: selectAutoNetwork;
--                                   Config/Load: Load, Parse and the UDP addresses
--   internal/runner/runner.go       Runner/Steps: exchange, Login, HeartbeatOnce, Logout, Run, over
--                                   the surroundings and the monad of Runner/World; New and Close
--                                   in Runner/Service
--   internal/runner/supervisor.go   Runner/Supervisor: the loop of Supervisor.Run; Runner/Service:
--                                   what it calls, with real runners and waitForRetry; the default
--                                   of Open in Service/Opens
--   internal/runner/state.go        Runner/World: the states
--   internal/logging/logging.go     Logging: Open, Write and Close of the rotating writer
--   internal/trayapp/app_windows.go Tray/System: the state of the application, its goroutines and
--                                   the window's queue; Tray/Client: startClient, stopClient,
--                                   requestExit, runnerDone; Tray/Window: the menu and windowProc;
--                                   Tray/Steps: Run and the steps from then on; Tray/Life: the
--                                   client's life as a small machine; Tray/Exit and Tray/Asleep: what
--                                   no step does during an exit and a suspension
--   internal/trayapp/lifecycle_windows.go
--                                   Tray/Client: powerEvent
--   internal/trayapp/startup_windows.go
--                                   Tray/Startup: ConfigureStartup and what it calls, and
--                                   refreshStartup of app_windows.go
--   cmd/drcom-tray/main.go          Command: main and run, with AcquireInstance
--
-- Protocol/Packets and Protocol/Parsers put the builders and the parsers side by side, and
-- Protocol/Sent looks at the bytes of what the builders return.
--
-- A runner sends a packet that a builder of the protocol wrote, through RetryExchange; a reply
-- counts if ResponseMatcher accepts it for that packet, and a parser of the protocol then takes from
-- it what the session needs.
--
-- Byte slices and strings are lists of numbers. What Go checks at run time is written out: an index
-- or a slice out of range, and a random reader that fails in mustReadRandom, give `none` in the
-- protocol and `panicked` in the runner. An integer that is cut to a width has its modulus:
-- `byte(x)` is `x % 256`, the sums are modulo 2^32, the count of heartbeats modulo 2^64. A builder
-- is a sequence of writes into a slice, as in the source. Beside it stands a table in the form of
-- docs/PROTOCOL_FIELDS.md: rows of two bounds and a content, which Protocol/Layout renders with
-- zeros between the fields.
--
-- Runner/Rules has the rules for postconditions of a runner's actions, and Transport/Retry/Rule the
-- one for RetryExchange. Runner/Exchange, Runner/Login, Runner/Beat, Runner/Rounds and Runner/Logout
-- apply them to an exchange, to the login, a heartbeat, the loop and the logout; Runner/Trace puts
-- these together for Run (Trace/States: the list that is reported), Runner/Service/Told for the
-- supervisor of such runs, and Runner/Wire for a
-- runner whose exchanger is Transport.Exchange.
--
-- Parameters stand for what is not in the repository: MD5, the TOML decoder and the string functions
-- of the standard library (the record Library of Config/Values), the calls of the net and syscall
-- packages that Transport/Pin makes (its record Host), the detector that ParseWithDetector gets, the
-- random reader, the clock, the context, the timer, and the exchanger under the runner. The last
-- five, what the supervisor calls, the socket with its context, the file system, the registry and
-- the script for the task scheduler act on a state of the surroundings that may change as it
-- likes at each call. RetryExchange recurses on the attempts that are left, and needs no fuel. The
-- endless loops of the runner and of the supervisor are looked at for a number of rounds, which may
-- be any number (`running`, and no ending, stand for a loop that has not ended by then).
--
-- The exchange of datagrams is looked at for a number of reads. Once the
-- deadline is set, each datagram that is read leaves fewer that may still come before it; more reads
-- than may come are enough. (Udp/Ends has this as hypotheses on a predicate of the states in which
-- the socket has a deadline; setting one is what gives it.) The tray application is a relation of steps: the handling of a message by the window's
-- thread, which is one step, since the goroutines touch the fields `status`, `workerErr`, `startup`
-- and `startupBusy` alone; a report, the return and the end of the worker; and the goroutines for
-- the startup entry. While the menu is open, TrackPopupMenu handles messages, so the choice from it
-- is a step of its own. The end of a session waits for the worker for two seconds at most, which
-- changes nothing in this state. Windows may send any message but the application's own private
-- ones, and Explorer may go and come back; the making of the window and of the menu succeed, and a
-- post of a message does not fail.
--
-- The command calls each of its parts once at most, so these stand as what they return; its effects
-- are a list of events in the order of time.
--
-- Not modelled: UserLogger, the Win32 structures and the texts of the menu, openPath and ShowError,
-- which only call the system; and the build of the tray application for other systems, which has
-- stubs.
pub mod Base
pub mod Protocol
pub mod Config
pub mod Transport
pub mod Runner
pub mod Logging
pub mod Tray
pub mod Command
pub mod Tests
