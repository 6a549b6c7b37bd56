-- ===== src/Lib.antt =====
-- Cyntr, a multi-tenant runtime for agents: the parts that decide who may do what, and how much.
--
-- The program is a kernel (kernel/) that starts modules (modules/) and passes messages between them
-- over a bus. The parts modelled here hold the state that protects tenants from each other:
--
--   Kernel     kernel/kernel.go: the registration of modules, the boot order of topoSort, Start and Stop.
--   Policy     modules/policy: rules.go, rego.go, engine.go, approval.go. A request is checked against
--              the YAML rules and Rego, and a call that needs a human waits in the approval queue.
--              `evaluate` is Engine.evaluate, `approve` is ApprovalQueue.Approve, and `handle` stands
--              for the five approval handlers that Engine.Start registers on the bus.
--   Jobs       kernel/jobs/queue.go: the durable job queue. `lease`, `claim` and `settle` are
--              Queue.lease, one round of its loop and the end of Queue.run, each where nothing else
--              happens meanwhile. System takes one lease at a time apart into its snapshot, its query and,
--              for each candidate, the reservation, the UPDATE and the roll-back, and interleaves these
--              steps with everything else.
--   RateLimit  modules/proxy/ratelimit.go: the fixed-window limiter and the key that it counts under.
--   Resource   kernel/resource/manager.go: usage and limits per tenant.
--   Channel    modules/channel/pairing.go: codes, approved senders and the gate for direct messages.
--   Node       modules/node/protocol.go and pairing.go: the pairing of a companion device, the
--              negotiation of its capabilities and its connection, from the first frame to the last.
--   Quota      modules/quota: the token bucket, the daily counters, the semaphores of agents with the
--              callbacks that give slots back, and the handlers of the bus.
--   Slack      modules/channel/slack/chunker.go: cutting a long message into chunks.
--   Audit      modules/audit: the hash chain of writer.go, the queries, the handlers and the files by day.
--   Auth       auth/: roles, tokens and API keys, the resolution of credentials and the bindings of
--              channel identities.
--   Workflow   modules/workflow: steps, runs and the handlers of the engine. `round` is one turn of the
--              loop of executeWorkflow, `execute_step` is executeStep and `handle` stands for the
--              handlers that Engine.Start registers.
--   Bus        kernel/ipc: Handle is `register`; Request is `send` and `receive`, between which the
--              goroutines' moves `take_request` and `end_handler` stand.
--   Scheduler  modules/scheduler: cron expressions, the tick of checkAndRun, the execution of a job and the
--              handlers.
--   Common     what they share: tests, maps as association lists, sorting, signed integers and the
--              trimming of texts. Each component has a module Examples with concrete runs.
--
-- A component's state is a record and each operation a function from the state before to the state
-- after and a result. A lock that is held through an operation makes it one step. Readings of the
-- clock, drawn identifiers, random bytes and whether the database or the network works are
-- arguments. SQLite tables are lists of rows; Go maps are association lists, whose order no theorem
-- uses. Times are natural numbers of nanoseconds. sort.Slice is an insertion sort: a theorem says
-- only that the result is in order, which any sort gives.
--
-- Loops are over lists; where the source waits for input (the bytes of a code, the frames of a
-- connection) the list is the input and its end the failed read. Three loops run on
-- fuel: that of topoSort on the number of modules, that of the chunker on the length of the text, and that
-- over the values of a cron step on the number of values up to the end; Kernel.Order.Fuel, Slack.Chunks
-- and Scheduler.Cron.Rounds show that this is enough. Runs of a workflow, steps inside steps and
-- substituteVar have fuel too, and an outcome of its own where it runs out, since the code need not
-- end. The digits of a number are printed on one more than the number.
--
-- Texts are of valid UTF-8, except in the chunker, which works on bytes.
--
-- Not modelled: two leases of the job queue side by side, HTTP, WebSocket and SQL themselves, OPA, YAML and HMAC (arguments where a part uses
-- them), logging and metrics, and the parts of the program not named above.
pub mod Common
pub mod Policy
pub mod Jobs
pub mod RateLimit
pub mod Resource
pub mod Channel
pub mod Node
pub mod Quota
pub mod Slack
pub mod Kernel
pub mod Audit
pub mod Auth
pub mod Workflow
pub mod Scheduler
pub mod Bus
