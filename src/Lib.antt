-- ===== src/Lib.antt =====
-- A verification library for swarmd, a server that runs agents.
--
-- Agents communicate through a durable mailbox in a SQL database. A worker claims the next message of
-- its agent under a lease, runs the agent on it with the tools that the agent may call, notes its
-- steps, and ends the run: the message is then completed, queued again for a retry, or given up, and
-- the messages of the outbox are sent in the same transaction. One of the tools applies patches to
-- the agent's files.
--
-- The parts and their files:
-- - Store/Types, Store/Tables: the records of pkg/server/store/types.go and the tables of
--   pkg/server/store/migrations.go. The database is a record of lists of rows in the order of
--   insertion; the inserts check the primary and foreign keys; a transaction keeps the changes of its
--   body if that succeeds, and nothing if it fails.
-- - Store/Envelope: pkg/server/store/json.go and the conversions at the end of
--   pkg/server/store/store.go.
-- - Store/Mailbox: pkg/server/store/mailbox.go. Enqueue is EnqueueMessage and enqueueMessageTx, Claim
--   is ClaimNextMessage and claimCandidate, Scan the conversions of rows, Complete is RecordStep,
--   CompleteRun, GetRun and ListThreadMessages. Claim/Pick, Claim/Round, Claim/Next and Claim/Empty
--   are about claims, Valid is the invariant and its preservation by sequences of calls, Runs and
--   Turns about the end of a run and its message, Lease about two workers.
-- - Store/Schedule: pkg/server/store/schedule.go. Cron expressions and time zones are the parameter
--   Calendar. Schedule/Loop is about the loop that looks for the next time, Schedule/Fires
--   about what a fire does, Schedule/Due about what is due. Schedule/Once is about sequences of calls:
--   Schedule/Past, Schedule/Kept and Schedule/Edits have the invariant that they keep, and
--   Schedule/Come is about the schedules that FireDueSchedules finds.
-- - Store/Agents: the rows that CreateAgent of pkg/server/store/store.go and PutAgent of
--   pkg/server/store/reconcile.go write, and how they are read and compared; the mailbox and the
--   schedules only need the keys of that table. Agents/Settled is about a second PutAgent.
-- - Tools/Lines: the texts and lines of pkg/tools/common/common.go.
-- - Tools/ApplyPatch: pkg/tools/applypatch/applypatch.go. Parse is parseApplyPatch, Hunks is
--   applyPatchHunks, Files is handle and the operations on files. Hunks/Match and Hunks/Edits are about
--   places of hunks, Files/Contents about the text that is written, Files/Updates and Files/Reports
--   about the file system, Parse/Fuel about the ends of the loops, Parse/Print and Parse/Back about the
--   lines of a patch and how they are read back.
-- - Tools/Pages: pkg/tools/common/pagination.go, with ClampInt and MinInt of common.go, and the page
--   collector of pkg/tools/listdir/listdir.go; offsets and sizes below 0 are left out, as they act like 0.
-- - Agent/Capture: the capturing writer of pkg/agent/capture.go; Capture/Preview is about what it keeps.
-- - Agent/Types: the triggers, decisions, steps and results of pkg/agent/types.go and
--   pkg/tools/core/core.go.
-- - Agent/Requests: the requests of pkg/agent/prompt.go; the wording of the prompts is a parameter.
-- - Agent/Host: what an agent works with, the driver, the tools, the shell and the file system, as
--   operations on a state of any type.
-- - Agent/Decisions: nextDecision and validateDecision of pkg/agent/agent.go. Decisions/Retries is about
--   how often a driver is asked.
-- - Agent/Spill: the directories of pkg/agent/output_spill.go. Spill/Names and
--   Spill/Segments are about their names.
-- - Agent/Loop: runTurn of pkg/agent/agent.go and runToolStep of pkg/agent/tool_runtime.go. Loop/Rule is
--   the rule for what every round keeps, Loop/Numbers about the steps of a turn, Loop/Times about their
--   times, Loop/Triggers about the trigger in the result.
-- - Server/Context: pkg/server/context.go and the trigger that MessageQueue.Next of pkg/server/queue.go
--   makes of a claimed message; metadata maps are functions.
-- - Server/Steps: StepPersister of pkg/server/persistence.go.
-- - Server/Results: ResultPersister and extractOutbox of pkg/server/persistence.go over the mailbox;
--   Results/Retries is about what comes back.
-- - Server/Turns: the agent that startWorker of pkg/server/runtime_manager.go makes: its steps go to
--   the database, which stands beside the state of its host. Turns/Stored is about what a turn
--   leaves there, Stored/Kept about the messages.
-- - Server/Queue, Server/Serve: the loop of MessageQueue.Next of pkg/server/queue.go, and Serve of
--   pkg/agent/agent.go over it and the persisters. What happens to the database between two polls is a
--   parameter. Serve/Taken is about the message that a trigger was made of, Serve/Again about the message
--   when its run is over, Serve/Spoofed about messages that name a run.
-- - Server/Workers: RuntimeManager of pkg/server/runtime_manager.go: Run, SyncOnce, startWorker, stopAll.
--   Goroutines are numbered as they start; the state keeps which were started, cancelled and ended. Maps
--   are visited in any order (Range of Prelude/Maps). What a worker is made of is the record Parts.
--   Workers/Keys is about the keys of the map, Workers/Retired and Workers/Started about the two loops
--   of a sync, Workers/Synced about the whole of it, Workers/Settled about what is left running.
-- - Server/AgentIds: validateAgentID of pkg/server/specs.go and IsSafeIdentifier of
--   pkg/tools/common/identifiers.go, the identifiers that a configuration may give to agents.
-- - Sandbox/Paths, Sandbox/Fs: the file system of pkg/sh/sandbox/sandbox.go, where the separator is the
--   slash. A path is given by the names between its slashes; the package os is the parameter Os.
--   Paths/Within is about paths below the root, Fs/Safe about the calls that the methods make.
-- - Prelude: Booleans, lists, texts and results that the parts share.
--
-- What stands for what: texts are strings of code points; times and durations are nanoseconds, from
-- the epoch on and not negative; a decoded JSON value is of a type V that the development leaves open,
-- and the coders of encoding/json are the fields of Codec. Env holds what a call sees beside the
-- database: the clock, the fresh identifiers, and which statements fail. Of messages that tie in the
-- order of a claim, the oldest row is taken. The file system of a tool is a record of operations on a
-- state of any type, as is the interface in the code; ToolContext also holds the path functions of the
-- library.
--
-- Bounds: a turn has as many rounds as the agent's limit of steps; the claim loop has the eight
-- rounds of the code. The parser's loops run on as much fuel as there are lines, which is enough,
-- since each round takes a line; the loop of fireSchedule has a fuel that the caller gives, and
-- one round more than the time is enough for every schedule whose times move on; Run of the
-- manager, Next and Serve are functions of the list of what happens to them, of any length;
-- decimal numerals have at most as many digits as the number has units.
--
-- Not modelled: the shell interpreter, which is a fork of a library; the drivers of model services
-- and the tools that call web services; command lines; the shell tool, the rest of the server's
-- configuration, mounts and network rules, the table of namespaces and the statements on that of
-- agents, and the memory file system.
pub mod Agent
pub mod Prelude
pub mod Sandbox
pub mod Server
pub mod Store
pub mod Tools
