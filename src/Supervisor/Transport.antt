-- ===== src/Supervisor/Transport.antt =====
-- The health of the workers' transport in scripts/a9_supervisor.py: worker_transport_cooldown_seconds
-- to update_worker_transport_health_from_probe. The file of the health is `none` where it is missing
-- or unreadable. An instant is a number of seconds, `none` for the empty text: what the code writes
-- with isoformat it reads back.
use a.Prelude.{
  ℕ, ◌+◌, String, Bool, not, ◌&&◌, ◌||◌, Option, none, some, leb, if◌then◌else◌, str_eq,
}
use a.Supervisor.AutoLoop.{Setting, unset, unreadable, negative, number}

-- What the health, and the gate, tell of a failure; the backend is "" where it is not known.
pub record LastFailure : Type 0 where
  pub task_id : String
  pub run_dir : String
  pub status : String
  pub reason : String
  pub backend : String

pub record Recovery : Type 0 where
  pub task_id : String
  pub run_dir : String
  pub status : String

pub record Probe : Type 0 where
  pub status : String
  pub probe_dir : String
  pub reason : String
  pub backend : String

pub record Health : Type 0 where
  pub status : String
  pub failure_count : ℕ
  pub consecutive_failures : ℕ
  pub last_failure_at : Option ℕ
  pub cooldown_until : Option ℕ
  pub last_failure : Option LastFailure
  pub last_probe : Option Probe
  pub last_recovery : Option Recovery

-- What is read of the summary of a run.
pub record Run : Type 0 where
  pub task_id : String
  pub run_dir : String
  pub status : String
  pub failure_category : String
  pub failure_reason : String
  pub backend : String

unfoldable pub worker_transport_cooldown_seconds : Setting → ℕ
worker_transport_cooldown_seconds unset = 300
worker_transport_cooldown_seconds unreadable = 300
worker_transport_cooldown_seconds negative = 0
worker_transport_cooldown_seconds (number value) = value

unfoldable pub worker_transport_health_state : Option Health → Health
worker_transport_health_state none = record {
  status = "unknown";
  failure_count = 0;
  consecutive_failures = 0;
  last_failure_at = none;
  cooldown_until = none;
  last_failure = none;
  last_probe = none;
  last_recovery = none;
}
worker_transport_health_state (some health) = health

pub record Gate : Type 0 where
  pub cooldown_until : ℕ
  pub consecutive_failures : ℕ
  pub last_failure : Option LastFailure
  pub requested_backend : String

abbrev pub failed_backend : Option LastFailure → String
failed_backend none = ""
failed_backend (some failure) = failure.backend

-- `none` where the worker may start.
unfoldable pub worker_transport_cooldown_gate : ℕ → String → Option Health → Option Gate
unfolding worker_transport_health_state
worker_transport_cooldown_gate now requested_backend file =
    let state = worker_transport_health_state file in
    let failed = failed_backend state.last_failure in
    elim state.cooldown_until [
      | none ↦ none
      | some cooldown_until ↦
          if leb cooldown_until now
          then none
          else if not (str_eq requested_backend "")
              && (not (str_eq failed "") && not (str_eq requested_backend failed))
          then none
          else some (record {
            cooldown_until = cooldown_until;
            consecutive_failures = state.consecutive_failures;
            last_failure = state.last_failure;
            requested_backend = requested_backend;
          })
    ]

abbrev pub is_transport_failure : Run → Bool
is_transport_failure run =
    str_eq run.status "retryable-worker-transport" || str_eq run.failure_category "transport"

-- The health behind one more failure; what else it held is gone.
unfoldable pub cooled_down : ℕ → ℕ → LastFailure → Option Probe → Health → Health
cooled_down now cooldown failure probe previous = record {
  status = "cooldown";
  failure_count = previous.failure_count + 1;
  consecutive_failures = previous.consecutive_failures + 1;
  last_failure_at = some now;
  cooldown_until = some (now + cooldown);
  last_failure = some failure;
  last_probe = probe;
  last_recovery = none;
}

-- The health that is returned; it is written to the file where it is new.
unfoldable pub update_worker_transport_health_from_summary :
    ℕ → Setting → Run → Option Health → Health
unfolding worker_transport_health_state worker_transport_cooldown_seconds cooled_down
update_worker_transport_health_from_summary now setting run file =
    let previous = worker_transport_health_state file in
    if is_transport_failure run
    then cooled_down now (worker_transport_cooldown_seconds setting)
        (record {
          task_id = run.task_id;
          run_dir = run.run_dir;
          status = run.status;
          reason = run.failure_reason;
          backend = run.backend;
        })
        none previous
    else if str_eq run.status "pass"
        && (str_eq previous.status "cooldown" || str_eq previous.status "degraded")
    then record previous {
      status = "ok";
      consecutive_failures = 0;
      cooldown_until = none;
      last_recovery =
          some (record { task_id = run.task_id; run_dir = run.run_dir; status = run.status });
    }
    else previous

unfoldable pub update_worker_transport_health_from_probe :
    ℕ → Setting → Probe → Option Health → Health
unfolding worker_transport_health_state worker_transport_cooldown_seconds cooled_down
update_worker_transport_health_from_probe now setting probe file =
    let previous = worker_transport_health_state file in
    if str_eq probe.status "ok" || str_eq probe.status "skipped"
    then record previous {
      status = if str_eq probe.status "ok" then "ok" else "skipped";
      consecutive_failures = 0;
      cooldown_until = none;
      last_probe = some probe;
    }
    else cooled_down now (worker_transport_cooldown_seconds setting)
        (record {
          task_id = "worker_transport_probe";
          run_dir = probe.probe_dir;
          status = "retryable-worker-transport";
          reason = probe.reason;
          backend = probe.backend;
        })
        (some probe) previous
