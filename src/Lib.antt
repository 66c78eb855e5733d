-- ===== src/Lib.antt =====
-- A model of btwattch2-rs, a tool and an agent for the RS-BTWATTCH2 Bluetooth power meter, and
-- its correctness.
--
-- The parts, and the files that model them:
--   Payload (src/payload.rs): the frames sent to the device and their checksum, `generate` and
--     `crc8`; Payload/Checksum has the algebra of the checksum.
--   Connection/Assembler (src/connection.rs, FrameAssembler): `feed` appends the bytes of a
--     notification to the buffer and yields the frames that are complete. One turn of the source's
--     loop is `round`; the children prove what the frames are.
--   Connection/Measure (src/connection.rs, read_measure, u48_le, command_status; src/cli.rs,
--     local_datetime): what a reply frame says.
--   Connection/Replies (src/connection.rs, next_matching_frame): the wait for a reply.
--   Connection/Link (src/connection.rs, Connection): establish, connect, write, listen,
--     reconnect_stream and disconnect over the interface Connection/Ble of the Bluetooth library.
--   Connection/Direct (src/connection.rs, Connection::oneshot and the commands on it): one-shot
--     commands without an agent.
--   Connection/Subscribe (src/connection.rs, subscribe and subscribe_measure): a stream of
--     measurements without an agent.
--   Connection/Scan (src/connection.rs, find_adapter, find_device, scan, poll_devices): finding
--     devices, over the interface Connection/Radio of the adapters.
--   Agent/Protocol (src/agent/protocol.rs), Agent/Status (src/agent/status.rs): the messages and
--     the counters.
--   Agent/Clients (src/agent/server.rs, Clients): the subscribers, each behind a bounded channel.
--   Agent/Actor (src/agent/server.rs, Actor): the one owner of the link, over the interface
--     Agent/Link, which the connection of Connection/Link fills; Requests is what it does for a
--     client.
--   Agent/Loop (src/agent/server.rs, actor_loop): the actor under a schedule of events.
--   Agent/Process (src/agent/server.rs, run, accept_loop, handle_client, until_shutdown): the tasks
--     of a serving agent side by side, as a step relation; Agent/Actor/PartWay is a handler that the
--     shutdown abandons half way, Agent/Signals the signals that are waited for.
--   Agent/Handler (src/agent/server.rs, handle_client), Agent/Client (src/agent/client.rs): the two
--     ends of a connection to the agent; Agent/Wire (src/agent/protocol.rs, write_message) the
--     bytes between them, one message to a line.
--   Agent/Metrics (src/agent/metrics.rs): the answer to a request of the metrics endpoint, from
--     the bytes of the connection on (Limit).
--   Agent/Paths, Agent/Startup (src/agent/mod.rs; src/agent/server.rs, PidFile, AgentFiles,
--     take_over, bind_socket): the agent's files, over an interface of the operating system;
--     Agent/Serve (src/agent/server.rs, run): an agent from its start to its end.
--   Cli (src/cli.rs): intervals, socket modes and metric names (Values, Names), settings and the
--     config file (Settings, Config), and what an invocation asks for (Options), its files
--     included (Options/Places).
--   Output (src/output.rs): the channels and the exposition; the formats (Printer), the running
--     statistics (Stats), and what drives both (Stream).
--   Main (src/main.rs): which way an invocation takes, a session through the agent or without it
--     (Session), the agent's commands (Command), the reports (Report), what a closed pipe does
--     (Sigpipe; src/signal.rs), and all of it put together (Program).
--
-- How they interact: the actor writes the frames of Payload on the link, feeds what the link
-- delivers to the assembler, and sends what it reads off the frames to its clients and counters. A
-- connection's handler passes a request to the actor and relays what the actor's channel delivers;
-- the client reads it. The settings that the command line and the config file give choose the
-- device and the polling interval. An invocation goes to an agent that answers its socket, or opens
-- the device itself; either way its measurements run through the renderer of Output. The metrics
-- endpoint renders the reading of Agent/Status.
--
-- Conventions. An operation on a mutable value is a function of its state. A call of the link
-- takes the state of the connection and gives its result with the next state, so that a theorem
-- holds for every behaviour of the link. What a subscription will deliver is a value, in which a
-- mark says where the timeout of a wait fires. A channel is a queue in a store that all senders
-- share. A call that reads the clock takes the instant. Pauses do not show, nor log lines but for
-- the one of a command that an agent carried out, and an error text is a value that keeps what the
-- text is made from.
--
-- Bounds and fuel. Bytes are native numbers below 256, the size field and the counters wrap at
-- their widths. `next_frame` and `feed` run on fuel, the buffer's length and one more: each round
-- that goes on drops a byte, so the fuel lasts. The retries count down from the source's limits. The
-- wait of a direct command ends after a given number of reconnects, where its timeout fires.
--
-- Parameters: chrono (Chrono), floating-point numbers and their text (Float), btleplug
-- (Connection/Ble, Connection/Radio), the operating system (Agent/Paths), addresses and the parser
-- of floats (Cli/Foreign), the JSON parser and encoder and the config file (arguments). A scan, a
-- device's opening and a subscription run for a given number of rounds or turns, which stand for the
-- time until the deadline. A scan's map is a list of entries, whose order nothing rests on.
--
-- Not modelled: argument parsing, the tests, the runtime, the JSON of the messages, the accept loop
-- and the time limit of the metrics endpoint, and log lines, but for the one of a command that an
-- agent carried out. A signal that kills the process is modelled where it may leave a link up, in a
-- session without an agent. The lines that `read_line` and
-- `next_line` give, the check of UTF-8 and the functions on paths are the standard library's, written
-- out in Prelude/Reading and Prelude/FilePath.
pub mod Prelude
pub mod Chrono
pub mod Float
pub mod Payload
pub mod Connection
pub mod Agent
pub mod Cli
pub mod Output
pub mod Main
pub mod Tests
