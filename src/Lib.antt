-- ===== src/Lib.antt =====
-- AgentUE is a protocol for streaming a user interface from an agent to its readers. A producer holds
-- an emitter, which numbers events and writes them as JSON texts; a transport carries them, as
-- Server-Sent Events for one; a reader applies them in turn to a snapshot of the model. This library
-- models the Python SDK, sdks/python/src/agentue, part by part, and the version script.
--
--   Json, Json/Equality   the JSON values that the code handles as Python objects, and `==` on them
--   Result                what the code raises: a constructor of `Reason` for each `raise` statement
--   Model                 model.py: `UIModel` and its blocks, as a parse of a dictionary
--                         (`parse_ui_model`), `validate_blocks` (`check_blocks`), `validate_block`
--   Event                 event.py: `PatchEvent`, `validate_operation` (by operation,
--                         `check_operation`), `to_json`, `model_validate`, `extract_patch_op`
--   Event/Valid, Wire     what the validator guarantees; the JSON form
--   Apply                 apply.py: `apply_patch` (on an event, `apply_event`), `apply_patches`,
--                         `_coerce_event`, `_apply_set`, `_apply_append`, `_upsert_block`,
--                         `_set_by_mask`; Apply/Blocks has their loops over the block list,
--                         Apply/Path `_read_path` and `_write_path`
--   Apply/WellFormed      the invariant of snapshots, kept operation by operation
--   Apply/Semantics       what the operations do to the blocks, seen as a dictionary by id
--   Apply/Atomic, Replay  what an exception leaves behind; sequences of patches
--   Emitter               emitter.py: `PatchEmitter`, each method as a function from the emitter to
--                         its result and the emitter afterwards; Emitter/Order has the sequence
--                         numbers, Emitter/Reports what a reader makes of the events
--   Sse, Sse/Frames       sse.py: `encode_sse`; what a reader finds in the encoded text
--   Runner                runner/runner.py: `_run_business` (an iteration is `deliver`) and
--                         `_publish_start` on a `RunnerContext`; Runner/Stream has the stream that
--                         they fill. `publish` of runner/redis_bridge.py may raise before or after
--                         the entry is in: which of these it does is the parameter `Bridge`
--   Runner/Terminal       `_finalize` and `_publish_terminal`
--   Runner/Execute        `_execute` from the end of its wait on (`verdict`, `execute_run`), and
--                         `run` from `pre_start` to there (`begin`)
--                         (Runner/Execute/Replayed: what a reader makes of a whole run's events;
--                         Runner/Quiet: which operations its events have until it is finalized)
--   Runner/Completion     `run` from its first line on, with `_invoke_complete`: what the `complete`
--                         callback is told
--   Runner/Loops          `_heartbeat_loop`, `_pulse_loop` and `_scan_forever`, on lists of what
--                         their rounds meet
--   Runner/Numbering      the sequence numbers of a task's stream through all of these
--   Runner/Lifecycle      `start`, `aclose`, `_ensure_scanner` and `_spawn_execute` on the fields of an
--                         instance, cut where they may be suspended, and what may happen in between
--   Runner/Live           `_stream_live`, on a list of polls, one for each time around its loop;
--                         Runner/Live/Closing is about the terminal events,
--                         Runner/Live/Heard and Whole about what readers make of the deliveries
--   Runner/Errors         `_error_code` and `_error_message`
--   Runner/Options        runner/types.py: `RunnerOptions`
--   Runner/Redis          the Redis client, as a record of commands with what they do to the
--                         database; Runner/Redis/Runs has proof rules for actions that issue commands
--   Runner/EventBridge    runner/redis_bridge.py: the methods of `RedisEventBridge`; its child shows
--                         that `publish` is what `Bridge` says
--   Runner/Recovery       `recover_timeouts` and `_recover_task`: their claims (Claims), other tasks
--                         (Fresh), and tasks that are listed (Expired)
--   Version               scripts/version.py: `sync_version` and `main`, on the files by their paths
--   Prelude               shared names, Boolean tests, lists, and the `str` methods that are used
--   Samples               runs on concrete inputs, an instance of each result
--
-- A snapshot is an association list in the order of its keys, and an object never holds another one:
-- the code copies every payload that it stores. A JSON text stands for the document that it denotes. A
-- `float` is its IEEE bits. An exception in the reducer is a value beside the snapshot that the code
-- leaves behind, since it mutates its argument. All loops are structural, so there is no fuel.
--
-- pydantic is not part of the repository. The declared fields of the models are written out as it
-- documents them (types, `min_length`, `ge`, `extra`); how it reads an `int` from other values is the
-- parameter `Pydantic`, of which only that integers are read as they are is assumed. The result of
-- `model_dump` and the time are arguments of the emitter's methods.
--
-- Redis is not part of the repository either. Of its client only the documented effect of each
-- command is assumed: a command that answers has taken effect, one that raises has taken effect or
-- not, and reads change nothing. Within a call of the model no other client writes, and keys do not
-- expire. The bytes of replies stand for what they decode to, and the clock is an argument.
--
-- Of the runner (sdks/python/src/agentue/runner), the tasks of asyncio and the watchdog thread are not
-- modelled: what ended a wait, what a reader polls, and what the application's callbacks yield and
-- raise are arguments, and a loop without an end is given what its first rounds meet. Neither are
-- logging and sleeping, what a `_finalize` that is cancelled leaves on the stream, and the call of
-- `complete` in a recovery, which has no part in what the recovery writes. The application data of a
-- context is not read by the runner. A heartbeat's cutoff is an argument of a scan.
--
-- Of what the version script calls (`json`, `tomllib`, `re`), the record `Tools` of Version says what
-- is assumed; how `argparse` reads the command line is not modelled.
-- The SDKs in other languages are not modelled.
pub mod Prelude
pub mod Json
pub mod Result
pub mod Model
pub mod Event
pub mod Apply
pub mod Emitter
pub mod Sse
pub mod Runner
pub mod Version
pub mod Samples
