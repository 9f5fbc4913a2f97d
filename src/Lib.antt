-- ===== src/Lib.antt =====
-- redis_cpp: a key-value server that speaks RESP (src/), and what it must keep.
--
-- Bytes arrive at a connection of src/net, src/protocol cuts them into requests, a pool of threads
-- runs them one at a time for each connection, src/commands checks and executes a request,
-- src/store/KvStore.cpp holds the entries in shards by hash, src/store/TtlManager.cpp removes
-- entries whose time has come, src/store/AofWriter.cpp logs each change to a file, and src/main.cpp
-- replays that file when the server starts. The store calls the writer and the heap of the
-- TtlManager, which are fields of its state; the dispatcher calls the store; the replay calls the
-- store through four callbacks.
--
-- Base       Booleans and tests on the native numbers, lists, ℤ with the wrap-around of int64_t, and
--            texts as lists of bytes.
-- Decimal    std::to_string, std::from_chars, std::stoll and std::stoi on decimal texts.
-- Resp       src/protocol/RespParser.cpp: Encode holds the encoders; Scan find_crlf and parse_integer;
--            Inline the tokens of parse_inline; Parser parse, parse_multibulk and parse_inline. Lines,
--            Rounds and Steps hold lemmas, and Progress, RoundTrip, Prefix and Tokens the theorems;
--            Quoting says how a client may write an inline line, and InlineLine that it is read back.
-- Aof        src/store/AofWriter.cpp: Writer holds the constructor, the log_ functions, write_resp and
--            the fsync modes; Replay holds replay with its local functions read_line, strip_cr and
--            read_bulk; Records and RoundTrip say what one makes of the other, and Torn
--            what is lost behind a record that was not written to its end.
-- Ttl        src/store/TtlManager.cpp: Heap and Sorted hold the heap of deadlines, Thread the thread with its
--            waits, and Overslept what it sleeps past.
-- Store      src/store/KvStore.cpp: Shard is one unordered_map, State the class with shard_index, Ops
--            the operations, Background on_ttl_expired and the loop of TtlManager::run over it. Spec is
--            the store as one map; Sharding, Effects, Refine, Expiry and After hold the theorems on
--            it, Scheduled and Covers what the heap holds of it, Sweep and Swept what the background
--            thread leaves of it, and Run the life of a store.
-- Commands   src/commands: Command holds the classes, Dispatch the registry, the arity checks and the
--            message handler of src/main.cpp, Replies what a client sees.
-- Pool       src/ThreadPool.hpp: Queue holds the state behind its mutex, enqueue, the destructor and a
--            worker's round, Order the order in which tasks are taken.
-- Net        src/net: Frames holds extract_frames of EpollReactor.cpp, Connection the class of
--            Connection.hpp with handle_read, dispatch_next_command, process_completed_commands
--            and flush for one connection. Events is the life of a connection; Drained, Stream,
--            Orderly, Reading, Order and Sending hold the theorems on it. Reactor holds the state
--            of EpollReactor.hpp, a map of connections (Table) and an interest list, with every
--            handler, and Loop the body of run. Flight, Follows, Counts, Completions, Outgoing and
--            Generations count the commands on their way through the handlers, and Unsent, Armed
--            and Arming follow EPOLLOUT; Delivered and InOrder are about the replies, Idle about
--            the idle scan. Run is run with its loop, and Wake the pipe that wakes it, with stop();
--            Frame says what the handlers leave alone, Heard that no wake-up is lost, and Stops that
--            stop() ends the loop. Socket is Socket.hpp with the descriptors that are open, and Owners
--            who owns them; Handles is the reactor's constructor and destructor with theirs, and
--            HandlesOwned what they leave open.
-- Server     src/main.cpp: System is the reactor, the pool's workers and the store, with their steps;
--            Working is about the workers. Events and Steps lift a statement that the handlers keep
--            (`HandlerLaws`, `StepLaws`) to every state that is reached; OneAtATime and Writable are
--            two of them.
-- Options    src/main.cpp: the command line and the settings; LastWins says which option counts, Bounds
--            what becomes of a port that is none.
-- Recovery   src/main.cpp: Startup is the replay into an empty store with the four callbacks, and Lost
--            what they lose. Logged says what each operation adds to the log, Restored and
--            Follows what the callbacks make of it, Replayed puts a run beside the replay of its log,
--            Durable is about what a restart brings back, and Boot is main up to the dispatcher.
--
-- The state of a component is a record, and an operation takes it and gives the new one beside its
-- result. A call of epoch_ms is an argument of the operation that makes it, one for each call. An
-- operation of the store that holds mutation_mutex_ is one step; get is two, and `evict` is the
-- second. The order of an unordered_map is not used by the code, and a shard is
-- an association list without duplicates. Sizes and times are the native numbers with the
-- wrap-around of the source written out; signed overflow, which C++ leaves undefined, wraps as gcc
-- and clang emit it. Whether the memory for a vector or a string is there is a parameter
-- (can_reserve, can_resize), since the sizes come from the input: where it is not, the exception
-- leaves the function (`throws`). A write to the log fails where the device has no room for it
-- (`room`), and leaves the stream in a state in which it drops all that follows (`good`).
--
-- Loops over lists are structural. `tokens` runs on the length of its line, of which each round
-- takes a byte, `replay_loop` on the length of the file, of which each round takes a line,
-- `frames_loop` on the length of the buffer, of which each complete request takes a byte, and
-- `flush_loop` on the number of unsent bytes. `expire_loop` runs on fuel that the caller gives.
--
-- In Server, an event of the reactor's loop, a call of process_pending_writes or of
-- process_completed_commands between two events, and a step of a worker are one step each: what they
-- share is behind a mutex, and each list and the queue is only appended to by one side and taken from by
-- the other. Where a worker's step falls between the two calls that an event of the pipe makes, they are
-- two steps of their own.
--
-- Not modelled: the kqueue branches of src/net/EpollReactor.cpp; the system calls, whose results are
-- arguments; the start and the end of the threads; the signals; and what is printed on the console.
pub mod Base
pub mod Decimal
pub mod Resp
pub mod Aof
pub mod Ttl
pub mod Store
pub mod Commands
pub mod Net
pub mod Options
pub mod Pool
pub mod Server
pub mod Recovery
