-- ===== src/Lib.antt =====
-- A model of svcmgr, the Go package that controls services supervised by runit, daemontools, s6
-- and systemd.
--
-- A client names one service directory. Its control methods write one byte to `supervise/control`,
-- with retries, and its `Status` decodes the binary file `supervise/status`. A manager runs a method
-- for many services at once, a watch turns changes of the status file into events, and a wait
-- follows a watch until a state is reached.
--
-- Files and the code they model:
--   Operation            runit.go: `Operation` with `String` and `Byte`
--   Service              factory.go, factory_*.go: `ServiceType`, `ServiceConfig`, `Config*`
--   Errors               errors.go: the sentinels, `OpError`, `MultiError`; `Result` is a call that
--                        returns a value or an error, or panics (an index out of range)
--   Wire                 byte slices and encoding/binary
--   Status               status_decode.go: the types; Status.Format is status_format_constants.go,
--                        Status.Stamp the time stamps, Status.Decode the three decoders
--   Parser               state_parser.go: the four parsers and `GetStateParser`
--   Mock                 test_mock_supervisor.go: the bytes that `UpdateStatus` writes; Mock.Make is
--                        `NewMockSupervisorWithType`, Mock.Create `Cleanup` and
--                        `CreateMockService`
--   Client               client_runit.go, client_daemontools.go, client_s6.go: `send`; Client.Methods
--                        are the methods of client_interface.go, Client.Read is `Status`,
--                        and Client.Make has the constructors, and `NewClient` of factory.go
--   Manager              manager.go: `NewManager`, and the goroutines of `execute` and `Status`;
--                        Manager.Calls is what each of them comes to by its client, for `Up`, `Down`,
--                        `Term`, `Kill` and `Status`
--   Watch                watch_impl.go: `readAndSend` and the loop over what the watcher tells;
--                        Watch.Methods is `watchImpl` as a whole, and watch_unified.go
--   Wait                 watch_wait_impl.go: `waitImpl`; Wait.Methods is watch_wait.go
--   Builder              service_builder.go: `shellQuote` and `buildFinishScript`; their words are read
--                        back by the quoting rules of the POSIX shell, a reference definition of
--                        Builder.Quoting and Builder.Line. Builder.Config is the configuration as a
--                        value; Builder.Store is service_builder.go and service_builder_config.go
--                        with pointers: the `With` methods, `Config` and `Clone`;
--                        Builder.Scripts has `buildArgs`, `buildRunScript` and
--                        `buildLogRunScript`, Builder.Build is `Build`, and Builder.Make the
--                        builders of the factory files
--   Systemd              systemd_client.go: the commands of the client; Systemd.Methods are its
--                        methods, Systemd.Once is `runOnce`, Systemd.Show is `StatusSystemd` and
--                        `MapToStatus`, Systemd.Watching `Watch` and `WaitForState`; Systemd.Unit
--                        is the unit text of systemd_builder.go, read back by a reader of unit
--                        files of its own (Systemd.Unit.Reader, Words and Fields), and
--                        Systemd.Unit.Install is its installation
--   DevTree              devtree.go: the methods of `DevTree` as programs of system calls
--   Helpers              test_helpers_common.go: the waits of the tests, and the cache of the tool checks
--   Stubs                systemd_client_stub.go, watch_stub.go, wait_stub.go, devtree_stub.go
--   Defaults             runit.go: the names of files, the default durations, paths and modes
--   Common               names, tests, lists and integers that the others share; Common.Text is what
--                        they use of strings, strconv, fmt and path/filepath
-- Child modules are about what their first lines say; Tests holds the runs and concrete instances.
--
-- State and environment. A call of `send` is the recursion of its loop on the attempts left, which
-- are `MaxAttempts`: no other bound is chosen. What the system answers in an attempt (the dial, the
-- writes, the opening of the file, the cancellation of the wait) is a `Round`, and the call returns
-- its error and its `Event`s in order, deferred closes last. `Status` reads a `StatusFile`, which
-- gives the error of opening it, its bytes, and the error behind them. Time is an argument `now` in
-- nanoseconds. The goroutines of a manager are a list of tasks over `Shared`; `Step` lets any one of
-- them act, or the context end, and `Reach` is any sequence of steps. A watch maps a sequence of
-- inputs to its state and the events sent, and a wait maps a sequence of selections to its return.
-- The components meet in Manager.Delivery and Manager.Readings, where a goroutine's outcome is that
-- of the client's call on its `Site`, and in Wait.Following, where the selections of a wait are the
-- events of the client's own watch, whose readings are statuses of the client. DevTree.Stopping joins
-- two methods of a development tree through the PID file.
--
-- Pointers. The configuration of a builder refers to slices, maps and structs that its caller and
-- its clones may share: they stand in a `Heap`, from addresses to objects. What `WithChpst` and
-- `WithSvlogd` are given is a function on the object. A map is a list with one entry for each key,
-- in the order in which `range` visits it.
--
-- Commands. A method of the systemd client is a `Program` of commands, and `execute` runs it with
-- the replies of the system. A unit is installed by a `Procedure`, which also writes files. `Build`
-- is a list of actions on a `FileSystem`, up to the first error. A method of a development tree is a
-- `SystemProgram`, and `answered` runs it with the answers of the system.
--
-- Integers. PIDs and durations are int64 values with Go's conversions written out (`int64`,
-- `word64`); doubling a backoff wraps around. Bytes are natural numbers. The message text of errors
-- is not modelled: an error keeps the values that its text shows. Third-party code and the operating
-- system (fsnotify, stopper, net, os) appear only by what they answer.
--
-- White space is that of ASCII, and the verb %q is modelled on ASCII text.
--
-- Not modelled: the display text of a systemd status, which rounds a duration; the test helpers that
-- start supervisors, collect diagnostics or log, which only call the operating system and the parts
-- above; the platform constants and the examples.
mod Common
pub mod Operation
pub mod Service
pub mod Defaults
pub mod Errors
pub mod Stubs
pub mod Helpers
pub mod Wire
pub mod Status
pub mod Parser
pub mod Mock
pub mod Client
pub mod Manager
pub mod Watch
pub mod Wait
pub mod Builder
pub mod Systemd
pub mod DevTree
mod Tests
