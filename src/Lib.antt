-- ===== src/Lib.antt =====
-- A verification library for mechagnome: the kernel that stores a shared toolbox of editable tools and
-- the sessions that use it, the runners that execute tools, and the harness around them.
--
-- The program. src/mechagnome/kernel.py keeps one SQLite database: toolboxes, the lineages of their
-- tools with immutable versions, the bindings of names to versions, sessions in a forest, the ordered
-- selection of toolboxes of each session, and each session's log of events. Every operation of
-- `Kernel` is one transaction on it. src/mechagnome/isolation.py runs tools in worker processes and
-- keeps the state of detached runs; src/mechagnome/harness.py runs conversations, relays records of
-- parallel runners in order, and stops rollouts; src/mechagnome/model_provider.py speaks to a tool's
-- process in frames over a socket; src/mechagnome/openrouter.py asks a model over HTTP, and tries
-- requests again that failed for a while.
--
-- The model. `Schema` has the tables as lists of records (`Schema.Tables`), the inserts and deletes
-- with their constraints and foreign keys (`Schema.Insert`), and what is outside the repository
-- (`Schema.Host`): JSON texts, the parse of a tool's source, paths and digests are fields of `Host`,
-- and the texts that `uuid` makes are arguments. A violated constraint is the exception
-- `integrity_error`. `Outcome` has the error codes of `ToolboxError`, results, and transactions: one
-- that raises leaves the database as it was. Times of creation are left out. Texts are compared by
-- code points, as SQLite and Python do.
--
--   Base, Base/Tests, Base/Rows    tests, tables as lists, and their lemmas
--   Outcome                        `ToolboxError`, exceptions, transactions
--   Schema/Tables, Insert, Host    `_create_schema` and the statements that change the tables
--   Names, Names/Defaults, Paths   `_TOOL_NAME`, `_TOOLBOX_NAME`, namespace paths, default names
--   Toolboxes                      `create_toolbox`, `rename_toolbox`, `set_cwd_default`, seeding
--   Events, Events/...             `append_event`, `read_session`, the latest sequence numbers
--   Sessions/Lineage, Create       `_root_session_id` and the other walks, `create_session`,
--                                  `create_child_session`
--   Sessions/Annotations           `_normalize_session_metadata`, `_update_session_metadata`
--   Sessions/Selection             `select_toolboxes`, `reset_toolboxes`, `snapshot_scope`, `_scope`
--   Tools/Resolve                  `_resolve`, `_lineage_for_history`
--   Tools/Validate, Write          `_validate_tool`, `write_tool`
--   Tools/Delete                   `delete_tool`, `rollback`
--   Tools/Ownership, Activation, Extension, Written, FullWrite, Leads, Reads
--                                  the invariant of bindings, and the lemmas and theorems on writes
--   Tools/RolledBack, Removed      theorems on rollbacks and on deletions
--   Tools/Catalog                  `_effective_rows`, `catalog`, `list_tool_namespaces`, `view_tool`,
--                                  `tool_definitions`
--   Tools/Catalog/Lookup, Effective
--                                  the row of a name, and what the name resolves to
--   Invoke/Program, Capability     tools as programs of requests, `ToolContext.call_tool`,
--                                  `_KernelCapability`, `SessionAccess.set_title`
--   Invoke/Call                    `_invoke_async`, `call_async`
--   Invoke/Marks, Quiet, Kept      the events of calls, and the operations that add none
--   Invoke/Trail, Nested, Calls, Bounds, Success, Fuel
--                                  the forest of calls, and the theorems on invocations
--   Runner/Sanitizer, ToolRun      `_ControlSanitizer`, the life of a `_ToolRun`
--   Runner/RunTable                `start_detached`, `cancel_tool_run`, `close`, `_finish_run`
--   Runner/RunTable/Limits, Tame, Sound, Retained
--                                  the limits of the table, and that no active run is dropped
--   Harness/Sink, Stops            `_OrderedEventSink`, `_RolloutReservation`, the two budgets
--   Harness/Sink/Order, Delivery    what an ordered sink passes on, and what becomes of its records
--   Harness/Replay                 `_session_replay`
--   Provider/Frames                `_encode_frame`, `_receive_exact`, `_receive_frame`
--   OpenRouter/Failures, Retries   `_retryable`, `_retry_delay`, `_wait_to_retry`, `_complete`, `_stream`
--   OpenRouter/Items               `_tool_call`, `_to_wire_args`, `_from_wire_args`, `_http_error`
--   OpenRouter/Stream, Turn        `_stream_response`, `_completion_response`
--   OpenRouter/Attempts, Visible, Annotated, Lines, Assembled, Ended, WireArgs
--                                  the theorems on requests and responses
--   Examples/...                   runs at small inputs, and the theorems applied to them
--
-- Bounds and fuel. The walks along the parents of a session (`Sessions/Lineage`) take one unit of
-- fuel more than there are sessions; running out is the error `diverges`, and where every session
-- leads to a root that is enough for the walk to the root. Receiving bytes takes one unit more than
-- the bytes that are wanted, since each round takes at least one byte. The loop of the ordered sink
-- takes one unit more than there are waiting records, since each round takes one. The replay of a
-- session takes its fuel as an argument, one unit for each session of the chain of fork contexts. An
-- invocation takes one unit for each level of calls and one for the refusal below them; with the
-- `max_depth + 2` units of `call_async`, more change nothing. The lines of a response's bytes take one
-- unit more than there are bytes, since each line takes one. The retry loops count their passes, as
-- `range` does.
--
-- A tool's source is a program of requests to its context (`Invoke/Program`): what `exec` makes of a
-- source, and the model provider, are fields of `Runtime`. Calls that one tool makes at the same time
-- are not in the model; of `ctx.sessions`, `ctx.model_provider` and `wait_tool_run`, only the titles
-- and descriptions that a tool sets are. Attempts of a request, the clock and the cancellation event
-- around them are the argument `world` of the retry loops, in whole milliseconds; whether the deadline
-- had passed when a chunk came is a field of `Chunk`; Python's `json` is a field of `Codec`.
--
-- Not modelled: the inventory and the history of tools, waiting for detached runs, the migrations of
-- old databases, worker processes and sockets as such, running conversations, the coordinator of
-- agents, model sessions and their broker, HTTP itself with its clients, the model catalog and the
-- texts of public errors, the sources of the shipped tools, and the terminal interface. Threads appear as sequences of the steps that their locks make atomic.
pub mod Base
pub mod Outcome
pub mod Schema
pub mod Names
pub mod Toolboxes
pub mod Events
pub mod Sessions
pub mod Tools
pub mod Examples
pub mod Runner
pub mod Invoke
pub mod Harness
pub mod Provider
pub mod OpenRouter
