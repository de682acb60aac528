-- ===== src/Lib.antt =====
-- The a9 agent execution machine: the guards that decide what a worker's edit may touch, the
-- supervisor's decisions on a run, the managed flows that record what happened to a task, the
-- checkpoints of a session, and the recovery loop.
--
-- Parts of the program and how they meet. A worker answers with a patch.
-- scripts/a9_scope_guard.py decides whether the files of a diff are inside the scope of the
-- task; scripts/a9_patch_guard.py reads SEARCH/REPLACE blocks and unified diffs and decides
-- whether they can be applied inside the repository. scripts/a9_patch_apply.py edits the files.
-- scripts/a9_supervisor.py runs the three on the output of a worker and decides from their
-- reports, and from the checks, what becomes of the run. scripts/a9_middleware.py keeps a record
-- of each task, a managed flow with a revision, a sequence number of messages and an approval
-- protocol, twice: as pure functions on a dictionary, and as Lua functions that Redis runs
-- atomically on the stored document. The supervisor also classifies the failure of a worker,
-- counts failures to stop its loop over tasks, holds workers back behind failures of the
-- transport, reclaims the leases of dead workers and obeys the commands of a monitor, whose
-- approvals are steps of managed flows. scripts/a9_checkpoint.py stores the checkpoints of a
-- session, each with its parent. scripts/a9_recovery_loop.py watches the controller of the nodes
-- and suggests, or sends, a repair.
--
-- Files and what they model:
--
--   * Prelude: names of the libraries, Boolean tests, lists over native numbers, results,
--     dictionaries, decimal digits.
--   * Text (Lines, Search, Single, Affix, Strip, Glob): Python's str as a list of code points,
--     with splitlines, strip, split, count, replace and fnmatch. These are the language's and
--     its standard library's, not the program's.
--   * Paths (Order): pathlib's parts of a path on a POSIX system, sorted sets, and
--     normalize_diff_path, which both guards have.
--   * ScopeGuard (Soundness): scripts/a9_scope_guard.py. header_paths and touched_in are the
--     loop of changed_files_from_diff, allows is one round of the loop of is_allowed,
--     validate_path returns the findings that the program appends.
--   * PatchGuard: the data of scripts/a9_patch_guard.py and validate_rel_path. PathLine is
--     normalize_search_replace_path, Parse is parse_search_replace (parse_from the outer loop,
--     scan_search and scan_replace the inner one), Validate the two validators, detect_format,
--     validate and report. Steps, RoundTrip, Origin, SafePath, Verdict, DiffLines and
--     DiffVerdict hold the proofs.
--   * PatchApply: the editing strategies of scripts/a9_patch_apply.py (replace_exact,
--     match_leading_whitespace, replace_leading_whitespace, replace_with_strategy); Section is
--     normalize_wrapped_text, Target resolve_apply_path and basename_candidates, Apply one round
--     of the loop of apply_search_replace and the loop, Run its frame and report. Exact, Fits,
--     Indent, Fuzz, Frame and Writes hold the proofs.
--   * Flow: initial_flow_state, transition_flow_state, set_waiting_flow_state and
--     resume_waiting_flow_state of scripts/a9_middleware.py. Outcome, Protocol, Audit and
--     Conflict hold the proofs.
--   * FlowStore: the Lua functions transition_flow, set_waiting_flow and resume_flow in
--     init_redis_runtime, and flow_create, on a store of flows and a stream of events.
--     Refinement, Isolation and Divergence hold the proofs.
--   * Checkpoint: the tables and the commands of scripts/a9_checkpoint.py. Quote is sql_quote,
--     Put is put, Lineage is lineage and get, Load is load_checkpoint's reading of the JSON
--     columns, History is channel_history, Copy is copied_checkpoint_id and copy_session.
--     Tables, Stored, Steps, Chain, Extends, Renaming, Ordered, Inserted, Accepted and Copying
--     hold the proofs, and History its own.
--   * Supervisor: parts of scripts/a9_supervisor.py. Failure is classify_worker_failure with
--     worker_failure_short_circuits_checks, AutoLoop the guard from auto_loop_failure_limit to
--     auto_loop_guard_blocks_next, Transport the health of the transport and its gate, FlowCall
--     transition_managed_flow over the stored flows, Control the control of the runtime, Effects
--     what the commands of a monitor do, Leases the leases of running tasks and their
--     reconciling. Reconciled, Classified, Trips, Counts, Health, Gate, Applied and Pauses hold
--     the proofs.
--   * Recovery: scripts/a9_recovery_loop.py, the observation, its streak and the suggestions;
--     Cycle is execute_communication_route, recovery_cycle_once and recovery_loop. Streak, Posts
--     and Loop hold the proofs.
--   * Acceptance (Passing): decide_status of scripts/a9_supervisor.py, with
--     process_governance_has_only_direct_file_change_errors and
--     changed_files_claim_without_patch_evidence.
--
-- Conventions. The time utc_now() is an argument. Revisions and sequence numbers are natural
-- numbers, which the program starts at 0 and only counts up; a negative number from a caller is
-- not modelled. A missing key of a dictionary is an Option, or the empty text where the code
-- reads it with that default. A raised ValueError, and an error reply of Redis, is the err of a
-- result, with a constructor for each message. The findings of a guard are returned in the order
-- in which the program appends them, with a constructor for each message. waiting is none both
-- for a missing field and for a null one, which a decision stores together with last_approval;
-- where the Lua functions tell the two apart, last_approval does.
--
-- The file tree is a parameter of the patch guard: what stands at a place under the root, and
-- where a path without ".." leads through symbolic links. A file's text is what read_text
-- returns; a file that is not UTF-8 makes the program raise and is not modelled.
--
-- Loops are structural recursion on lists and texts. The parser's outer loop runs on fuel, the
-- number of lines, since it jumps behind a block: each round reads a line at least.
-- recovery_loop runs on fuel, which is enough where it is the number of cycles asked for;
-- without such a number it never returns. The loop over the parents of a checkpoint runs on the
-- number of rows: each round adds a row to those that were seen. inline_codes runs on the length
-- of its text, each round reading a character at least.
--
-- The file system that a9_patch_apply.py edits is a record of its state, the tree that the guard
-- looks at, the search by name and the writing of a file, which may raise; a block that raises
-- ends the run. The client of the database prints the JSON columns of a checkpoint with their
-- backslashes escaped; what that text is as JSON, for json.loads or for a JSON column, is a
-- parameter that may fail. What the proofs rely on for the file system is WritesOne: writing a
-- file changes no other file and no symbolic link.
--
-- Not modelled: command lines, docker and Redis calls, stream leases, JSON text, the clock, the
-- claiming of tasks from the queue, the repair hints and the sizes in bytes of
-- a9_patch_apply.py, the rest of a9_supervisor.py, and the other scripts.
mod Prelude
pub mod Text
pub mod Paths
pub mod ScopeGuard
pub mod PatchGuard
pub mod PatchApply
pub mod Flow
pub mod FlowStore
pub mod Acceptance
pub mod Checkpoint
pub mod Supervisor
pub mod Recovery
