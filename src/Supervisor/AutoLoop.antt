-- ===== src/Supervisor/AutoLoop.antt =====
-- The guard of the loop over tasks in scripts/a9_supervisor.py: auto_loop_failure_limit to
-- auto_loop_guard_blocks_next, with the fallback of the worker's model. A variable of the
-- environment is an argument. The file of the guard is `none` where it is missing or unreadable.
use a.Prelude.{
  ℕ, ◌+◌, String, Bool, false, not, ◌&&◌, ◌||◌, Option, none, some, List, [], ◌∷◌, leb, ltb,
  if◌then◌else◌, str_eq, map,
}
use a.Text.{Text, codes, is_empty, strip, text_eq, is_space}
use a.Checkpoint.Put.{lower_char}
use a.Supervisor.Failure.{is_retryable}

-- What `int()` reads of a variable.
pub data Setting : Type 0 where
  unset unreadable negative : Setting
  number : (value : ℕ) → Setting

pub record Summary : Type 0 where
  pub status : String
  pub failure_status : String
  pub envelope_status : String
  pub task_id : String
  pub run_dir : String

pub record Guard : Type 0 where
  pub status : String
  pub mode : Text
  pub consecutive_failures : ℕ
  pub failure_limit : ℕ
  pub latest_failure : String
  pub latest_task_id : String
  pub latest_run_dir : String

unfoldable pub auto_loop_failure_limit : Setting → ℕ
auto_loop_failure_limit unset = 2
auto_loop_failure_limit unreadable = 2
auto_loop_failure_limit negative = 1
auto_loop_failure_limit (number value) = if ltb value 1 then 1 else value

-- value.strip().lower(); of the characters that lower() changes only the ASCII ones can lead to a
-- mode.
abbrev pub tidy_mode : Text → Text
tidy_mode value = map lower_char (strip value)

-- The variable is empty where it is not set.
unfoldable pub auto_loop_guard_mode : Text → Text
unfolding text_eq is_space
auto_loop_guard_mode value =
    let mode = tidy_mode (if is_empty value then codes "observe" else value) in
    if text_eq mode (codes "enforce") || text_eq mode (codes "hard") || text_eq mode (codes "stop")
    then codes "enforce"
    else codes "observe"

abbrev pub is_final_failure : String → Bool
is_final_failure status =
    str_eq status "needs-repair"
    || str_eq status "monitor-blocked"
    || str_eq status "worker-failed"
    || str_eq status "failed"

unfoldable pub auto_loop_failure_kind : Summary → String
unfolding is_retryable
auto_loop_failure_kind s =
    if is_retryable s.status
    then s.status
    else if is_retryable s.failure_status
    then s.failure_status
    else if is_final_failure s.status
    then s.status
    else if str_eq s.envelope_status "fail"
    then "worker-envelope-fail"
    else ""

unfoldable pub previous_failures : Option Guard → ℕ
previous_failures none = 0
previous_failures (some guard) = guard.consecutive_failures

unfoldable pub update_auto_loop_guard : ℕ → Text → Summary → Option Guard → Guard
unfolding auto_loop_failure_kind previous_failures
update_auto_loop_guard limit mode summary previous =
    let kind = auto_loop_failure_kind summary in
    let consecutive = previous_failures previous + 1 in
    if not (str_eq kind "")
    then record {
      status = if leb limit consecutive then "tripped" else "watching";
      mode = mode;
      consecutive_failures = consecutive;
      failure_limit = limit;
      latest_failure = kind;
      latest_task_id = summary.task_id;
      latest_run_dir = summary.run_dir;
    }
    else record {
      status = "ok";
      mode = mode;
      consecutive_failures = 0;
      failure_limit = limit;
      latest_failure = "";
      latest_task_id = summary.task_id;
      latest_run_dir = summary.run_dir;
    }

-- The state is that of a summary or of the file; `default` is the mode of the environment.
unfoldable pub auto_loop_guard_blocks_next : Text → Option Guard → Bool
unfolding text_eq is_space
auto_loop_guard_blocks_next default none = false
auto_loop_guard_blocks_next default (some guard) =
    let mode = tidy_mode (if is_empty guard.mode then default else guard.mode) in
    text_eq mode (codes "enforce") && str_eq guard.status "tripped"

-- What decides of a fallback: the failure, and the model of the worker with where it came from.
pub record ModelUse : Type 0 where
  pub failure_status : String
  pub summary_status : String
  pub worker_model : String
  pub worker_model_source : String

pub data Fallback : Type 0 where
  not_transport_failure worker_model_not_default missing_or_same_fallback_model : Fallback
  applied : (phase previous_model fallback_model : String) → Fallback

-- write_worker_model_phase_override on the models of the phases.
unfoldable pub set_phase_model : String → String → List (String × String) → List (String × String)
set_phase_model phase model [] = (phase, model) ∷ []
set_phase_model phase model ((p, m) ∷ models) =
    if str_eq p phase then (p, model) ∷ models else (p, m) ∷ set_phase_model phase model models

unfoldable pub maybe_apply_worker_model_fallback :
    String → String → ModelUse → List (String × String) → Fallback × List (String × String)
unfolding set_phase_model
maybe_apply_worker_model_fallback fallback phase u models =
    let failure_status =
      if str_eq u.failure_status "" then u.summary_status else u.failure_status in
    if not (str_eq failure_status "retryable-worker-transport")
    then (not_transport_failure, models)
    else if not (str_eq u.worker_model "gpt-5.3-codex-spark")
        || not (str_eq u.worker_model_source "DEFAULT_WORKER_MODEL")
    then (worker_model_not_default, models)
    else if str_eq fallback "" || str_eq fallback u.worker_model
    then (missing_or_same_fallback_model, models)
    else (applied phase u.worker_model fallback, set_phase_model phase fallback models)
