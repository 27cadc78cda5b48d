-- ===== src/Lib.antt =====
-- opengrab: an assistant that lets a language model run commands. This library models the Go
-- package tools/cmdrunner, which decides how a command is run, runs it, supervises a long
-- running process and keeps its output, and parts of the program around it: how it reads its
-- environment, keeps its memory, and talks to the model. It proves what makes these parts correct.
--
-- The parts and the files that model them:
--
--   CmdLine       tools/cmdrunner/cmdrunner.go: SplitCommandLine, NeedsShell,
--                 hasUnquotedShellMeta, firstToken, JoinCommand, joinCommand. The loops over the
--                 runes of a command line are split_step and quotes_step on the loops'
--                 variables.
--   Mode, Error   the modes and the errors of a request.
--   Request       cmdrunner.go: Request, NormalizeRequest. It asks CmdLine whether a command
--                 needs a shell and splits it if not.
--   Run           cmdrunner.go: Run, runArgs, runShell, ExitCode, platformShell. Run normalises
--                 a request and executes it.
--   Command       cmdrunner.go: Options, buildCommand; supervisor.go: validateOptions.
--   Process       cmdrunner.go: Start, Wait, Kill, GracefulStop, and process_group_unix.go. It
--                 runs the process that the supervisor watches.
--   Groups        process_group_unix.go and process_group_windows.go: the signals to process
--                 groups.
--   RingBuffer    tools/cmdrunner/ring_buffer.go: the tail of a process's output in memory.
--   RotateWriter  tools/cmdrunner/rotate_writer.go: the log file of a process and its backups.
--   Output        supervisor.go: combineWriters, and how loop sends a process's output through
--                 it to the caller, a RingBuffer and a RotateWriter.
--   Backoff       tools/cmdrunner/supervisor.go: FixedBackoff, ExponentialBackoff.
--   Prometheus    tools/cmdrunner/prometheus.go: names, labels, help lines, and (Exposition)
--                 WritePrometheus, which reads a snapshot of the supervisor.
--   Memory        memory.go: insertIndexEntry, slugify.
--   Excerpt       memory.go: firstLine, oneLine, markdownTitle, tailLog, the limit of
--                 readTextOrEmpty.
--   Wiki          memory.go: MemoryStore with Init, Context and Remember on the files. It uses
--                 Memory and Excerpt.
--   Tool          cmdrunner.go: GetToolDefinition with its texts, ToolSchemaJSON as a test on the
--                 arguments of a tool call, and their decoding into a Request.
--   Session       main.go, command.go: the two loops of main on the messages, and runCommand,
--                 which asks Run.
--   Chat          chat.go: createChatCompletion, over an API that marshals, sends and decodes.
--   Main          main.go: what main does before its loops, and how it calls Remember. It joins
--                 EnvFile, Wiki, Chat and Session.
--   EnvFile       env.go, config.go: loadEnvFiles, getConfig, getToken.
--   Supervisor    supervisor.go: Create is NewSupervisor, Snapshot is SnapshotMetrics; State has
--                 the options, the metrics and the supervisor; Policy the decisions; Metrics the
--                 record functions; Control is Stop, Wait and the getters; Machine and Loop
--                 the goroutines of loop and healthLoop as one step machine, whose steps are
--                 the answers of the environment.
--
-- Text has the functions of Go's package strings that these parts call. A text is the list of
-- its code points (a byte that a cut inside a code point leaves is 0x110000 and itself); a
-- duration or an int64 is an integer whose operations wrap around at 64 bits.
-- Methods that lock a mutex for their whole body are single steps. What the operating system and
-- os/exec do is a parameter of the definitions: a function that says what an execution returns
-- (Run), which calls fail (Process, RotateWriter, Wiki), and the sequence of events that the
-- supervisor meets (Supervisor.Loop). No fuel is used: every loop is a structural recursion on
-- the text, on the number of the backups or rounds, or on the events.
--
-- Not modelled: JitterBackoff, which multiplies by a random float64; time as such (a wait is an
-- event that ends in the timer or in a cancellation); how a float64 is printed, which is a
-- parameter of Prometheus.Exposition; directories, and links between files (Wiki's files are
-- found by their paths only); what main prints; HTTP and JSON, so that what the API answers is a
-- parameter of Chat.

pub mod Prelude
pub mod Text
pub mod Error
pub mod CmdLine
pub mod Mode
pub mod Request
pub mod Run
pub mod Process
pub mod RotateWriter
pub mod Backoff
pub mod Supervisor
pub mod RingBuffer
pub mod Prometheus
pub mod Memory
pub mod EnvFile
pub mod Command
pub mod Output
pub mod Session
pub mod Tool
pub mod Excerpt
pub mod Wiki
pub mod Chat
pub mod Main
pub mod Groups
