-- ===== src/Lib.antt =====
-- redlike (src/): a server that speaks a subset of the Redis protocol. A connection (src/connection.rs)
-- feeds the bytes that its socket delivers to an incremental parser (src/parser.rs), reads each frame
-- (src/frame.rs) as a command (src/command.rs, errors in src/error.rs), executes it on the store that all
-- connections share (src/store.rs), and writes the reply. A task of the store sweeps entries that have
-- expired. src/archive.rs keeps the store on disk, src/server.rs accepts connections and archives the
-- store when it shuts down, src/config.rs and src/main.rs start the program.
--
-- Prelude: shared names, tests on numbers, lists with native lengths, integers. Text: the standard
-- library's decimal numbers (`to_string`, `parse::<i64>`, `parse::<u64>`), `str::from_utf8` and
-- `split_whitespace` on bytes; a `String` is its bytes.
-- Frame: `Frame`, `write_to` and `to_bytes`. Frame/Sendable says which frames survive the wire.
-- Parser: the state, and `read_length`; Parser/Turn: one turn of the loop of `try_parse_one_frame`, an arm
-- at a time; Parser/Run: the loops, with `deliver` for the stack of open arrays. The fuel of the inner
-- loop is `measure`, which each turn that goes on lowers; the outer loop has one unit for each byte and
-- more. The proofs go over Parser/Trace, a step relation without fuel that the loops are proved to follow.
-- Parser/Stack: the open arrays; Parser/Panics: where it panics; Parser/Inline: lines that one types.
-- Error: `Error`, and the conversions. Command: `Command::try_from` and its helpers; Command/Syntax is the
-- independent grammar.
-- Store: one function per method, each one critical section with the instant it reads as an argument,
-- instants in nanoseconds. Store/Map and Store/Expirations model `HashMap` and `BinaryHeap`. Store/Spec is
-- the abstract map. Store/Sweeper: `sweep_loop` as a step relation beside the connections' operations,
-- with the permit of `Notify` as `wakeup`; Store/Sweep, Store/Settled, Store/Wakeup: its invariant;
-- Store/Promptness: how soon it acts.
-- Store/Observation: what answers show of a store; Store/Timeouts: the ends of the clock and of `i64`.
-- Store/Snapshot: `dump` and `restore` with a reading of both clocks for each entry, the JSON library as a
-- parameter; Store/Snapshot/Restored: what of a store survives them.
-- Connection: `process_command`, authentication; Connection/Session: `run` over a sequence of events,
-- where other connections may change the store before each command, and writing may fail. Connection/Ends
-- and Connection/Pieces: how the bytes are cut does not matter; Connection/Stops: where a session ends;
-- Connection/Unlocked: a client with the password; Connection/Malformed: one that breaks the protocol;
-- Connection/Output: what a client reads; Connection/Shared: many connections on one store, with what
-- the others do in Connection/Shared/Others;
-- Connection/Auth and Connection/Locked: clients without the password; Connection/Requests and
-- Connection/Replies: a pipeline, from bytes to bytes.
-- Archive: `load`, `save` and `save_bytes` over a file system whose calls may fail; Archive/Disk states
-- what its documentation promises, Archive/Files is a small one that keeps these promises, for the
-- examples; Archive/Saved, Archive/Loaded: what is on the disk behind a save, and what is loaded from it.
-- Server: `server_from_listener` as a step relation beside its tasks and the sweeper, `run_server`;
-- Server/Shutdown, Server/Restart: what is archived, and what a server started again has;
-- Server/Continued: what a client sees of it; Server/Ending: what it may wait for.
-- Config: `from_raw`, `get_config`, and what `Debug` shows. Main: the order of `main`, given what its calls return.
--
-- The children named Suite, of Frame, Parser, Command, Store, Connection and Archive: the unit tests that
-- stand in the same source file, each as the proposition that it asserts, and the proof that all hold of
-- the model. Where a test sleeps or moves the clock, the model is given the later instant; where two tasks
-- race, both orders are stated. Tests of the JSON text, of the command line and of the runtime are left
-- out. Archive/Code is the encoding that the tests of archives are run with.
--
-- Parameters: the file system, the JSON library, `memchr`, `constant_time_eq`, the largest capacity that
-- an allocation grants, the clock, what other tasks do. Where a theorem needs it, `memchr` returns the
-- first occurrence, as documented, and the JSON library reads back what it writes.
--
-- An `Instant + Duration` past the last instant panics, and so does a `with_capacity` beyond the
-- platform's largest; a panic ends the task. `with_capacity` is taken to allot just what it is asked for,
-- and the system's clock not to be before the Unix epoch, at which `dump` and `restore` panic. Not modelled: sockets and their buffers, logging, the command
-- line, the delivery of signals, the format of JSON.
pub mod Prelude
pub mod Text
pub mod Frame
pub mod Parser
pub mod Error
pub mod Command
pub mod Store
pub mod Connection
pub mod Archive
pub mod Server
pub mod Config
pub mod Main
