-- ===== src/Lib.antt =====
-- The Redis latency tracer: a model of its kernel probes and its collector, and the theorems that make
-- them correct.
--
-- The program has two halves. The probes (aya-test-ebpf/src/main.rs) run in the kernel, on the calls
-- that Redis makes to receive, send and connect, and on a CPU timer. They keep one context for each
-- process between a receive and the send that answers it, and write one event for each answer to a ring
-- buffer, and one event for each stack sample to another. The collector (aya-test/src) drains the
-- buffers, classifies the request bytes of each event, and keeps the statistics that it reports. The
-- events are the types of aya-test-common/src/lib.rs, which cross between the halves as memory images.
--
-- Files:
--   Common/Event     LatencyEvent, StackEvent                  aya-test-common/src/lib.rs
--   Common/Layout    the memory image of a LatencyEvent        aya-test-common/src/lib.rs
--   Common/StackLayout  the memory image of a StackEvent     aya-test-common/src/lib.rs
--   Common/Command   RedisCommand: name, detect                aya-test-common/src/lib.rs
--   Ebpf/Kernel      maps, ring buffers and helpers that the probes call; ReqCtx and the maps (State)
--   Ebpf/Word        the packed client address of a context    aya-test-ebpf/src/main.rs
--   Ebpf/Probe       try_on_recvmsg, try_on_recvmsg_ret, try_on_sendmsg, try_on_connect
--   Ebpf/Sample      try_cpu_sample
--   Ebpf/Step        the entry points, and sequences of calls
--   Ebpf/Access      the handlers cut into their accesses to the maps
--   Ebpf/Alone       such a call that nothing interrupts, against its handler
--   Ebpf/Overlap     calls that overlap, an access at a time: Knows and Sound say what a call under way
--                    relies on, Serial puts the calls in an order, Reports holds for all calls;
--                    Flight and Delivered follow an answer into the buffer
--   Ebpf/Overlap/Twice  two threads of one process, whose sends overlap
--   Ebpf/Phase       the phases of a process: what the probes promise for one process
--   Ebpf/Replies     what each call writes, on every branch
--   Ebpf/Served      requests that one CPU serves, and the wake-ups of the collector
--   Resp             classify_command, scan_resp_command, try_static       aya-test/src/resp.rs
--   Resp/Request     the wire format of a request, the specification of the classifier
--   Stats            LatencyStats, CommandStats, ClientStats, their reports  aya-test/src/stats.rs
--   Reader           spawn_ringbuf_reader: one round of its loop           aya-test/src/reader.rs
--   Reader/Stacks    spawn_stack_reader: one round of its loop             aya-test/src/reader.rs
--   Symbolizer       Symbolizer::resolve_kernel                     aya-test/src/symbolizer.rs
--   Symbolizer/Kallsyms, Maps, User    load_kallsyms; parse_maps; load_syms and resolve
--   Symbolizer/Printed  the text of /proc as the kernel prints it, whose numbers are in Hex and whose
--                    lines are in Lines and MapLine
--   Symbolizer/Search   slice::binary_search_by_key as documented: any match may be returned
--   Flamegraph       the folding in generate_flamegraph_svg         aya-test/src/flamegraph.rs
--   Flamegraph/Svg   generate_flamegraph_svg                        aya-test/src/flamegraph.rs
--   Monitor          ProcessMonitor: read_stat, report             aya-test/src/monitor.rs
--   Reporter         spawn_reporter: one turn of its loop          aya-test/src/reporter.rs
--   Pipeline         the probes, the buffer, the reader and the reporter together
--   Pipeline/Tasks   any interleaving of their steps
--   Pipeline/Locks   the tasks of the reader and the reporter, a lock, an event or a panel at a time:
--                    Owners and Held say who holds a lock, Blocked and Drops that a task that waits gets
--                    it, Batches and Printed what the panels show; Round and Turn are the tasks alone
--   Startup          the effects of the start, and what they need of the world
--   Startup/Bootstrap  raise_memlock, spawn_log_drain, pin_target_pid   aya-test/src/bootstrap.rs
--   Startup/Probes   attach_probes, attach_perf_event, enable_flamegraph  aya-test/src/probes.rs
--   Startup/Resolve  resolve_redis_pid                              aya-test/src/main.rs
--   Startup/Main     main, and the panics of the tasks beside it    aya-test/src/main.rs
--   Startup/Agreed, Filter   the process that the filter and the sampler get
--   Config           ConfigFile, Cli, Config::load                         aya-test/src/config.rs
--   Prelude          what Rust's core library gives the program: bytes, decimal text, machine words,
--                    hash maps as association lists
--   Tests            runs on concrete inputs
-- The other files below these hold the theorems about their parent.
--
-- How the code is modelled:
--   - An unsigned integer is the number that it holds, and its arithmetic wraps (`% 2 ^ w`), as in a
--     release build. A signed one is an integer of Prelude/Int.
--   - A probe takes the maps and gives them back with its result; a call of a probe is one step, and a
--     run is any sequence of calls, on any tasks and CPUs. Ebpf/Access has the same handlers with one
--     access to a map as a step, and Ebpf/Overlap interleaves the steps of calls that overlap. The last
--     lookup of try_on_recvmsg_ret and the two stores through its pointer are one access there. The
--     ring buffers hold the records that were written, oldest first; what the collector takes out is
--     the argument of its round.
--   - In Pipeline/Tasks a round of the reader and a turn of the reporter are one step each. In
--     Pipeline/Locks each call of lock, each event, each drop of a guard and each panel is a step.
--   - The kernel, hdrhistogram with f64, the decoder of the crate resp, the file system and the crates
--     toml and goblin are records of operations, with the laws that the code relies on. A map may
--     refuse an insertion, and a buffer a record.
--   - A report is the rows of values that it prints. The frames round them are left out.
--   - Loops are structural recursion. The ones with fuel, the digits of a number, have one more step
--     than the number; Prelude/Decimal proves that decimal text is read back.
--   - The text of /proc and of paths is taken to be ASCII. The name of a command may be any UTF-8, and
--     cutting it inside a character ends the reporter's turn, and the process, like a panic of the monitor. The parsers of the symbolizer take the lines of a
--     file; Prelude/Text cuts a text into its lines.
--   - The start is a list of effects with a result: which calls succeed, and what the files hold, is a
--     record. A panic of `main` counts as an error there. A panic of a task ends the process
--     (panic = "abort" in Cargo.toml): Startup/Main cuts the effects of `main` off where it strikes, and in
--     Pipeline/Locks nothing runs after it.
--   - Little-endian machines and 64-bit usize are assumed.
--
-- Not modelled: the drawing of the flame graph by inferno, the timer of the reporter and the loop of the
-- log task, which are the library tokio, log messages, and the build scripts.
pub mod Prelude
pub mod Common
pub mod Ebpf
pub mod Resp
pub mod Stats
pub mod Reader
pub mod Config
pub mod Pipeline
pub mod Monitor
pub mod Reporter
pub mod Startup
pub mod Symbolizer
pub mod Flamegraph
pub mod Tests
