-- ===== src/Supervisor/Tests.antt =====
-- The supervisor at concrete runs.
use mathlib.Core.Bool.{false≢true}
use a.Prelude.{
  eq_iff, str_eq, str_eq, String, ◌≡◌, ◌≢◌, ◌↔◌, inr, refl, true, false, Option, none, some, List,
  [], ◌∷◌,
}
use a.Prelude.{ok}
use a.Prelude.Dict.{lookup, insert}
use a.Flow.{FlowState, move, initial_flow_state}
use a.FlowStore.{Store, flow_create, transition_flow}
use a.Supervisor.FlowCall.{
  FlowRequest, FlowReport, replied, transition_managed_flow, args_of, redis_flow_key, reply_status,
}
use a.Supervisor.Applied.{IsApplied, transition_managed_flow-IsApplied}
use a.Supervisor.Control.{
  Command, World, missing, runtime_control_blocks_claim, runtime_control_paused,
}
use a.Supervisor.Effects.{recorded, apply_monitor_intervention_effect}
use a.Supervisor.Pauses.{apply_all, IsOnHold, blocks_claim_iff}
use a.Text.{contains, strip_by, Text, codes}
use a.Supervisor.Failure.{Worker, classify_worker_failure, worker_failure_short_circuits_checks}
use a.Supervisor.Classified.{Fails, short_circuits_iff}
use a.Supervisor.AutoLoop.{
  unset, Summary, auto_loop_failure_limit, auto_loop_guard_mode, auto_loop_guard_blocks_next,
}
use a.Supervisor.Trips.{IsFailure, LastFailed, guard_after, blocks_next_iff}
use a.Supervisor.Counts.{classify-IsFailure}
use a.Supervisor.Transport.{Run, worker_transport_cooldown_gate, worker_transport_cooldown_seconds}
use a.Supervisor.Health.{
  Event, run_ended, health_state, streak, failures, last_failed, counts_failures,
}
use a.Supervisor.Gate.{HoldsBack, held_back_iff}

-- A search that finds one pattern.
abbrev search_limit : String → Text → Option Text
search_limit pattern text = elim (str_eq pattern "\\brate limit\\b") [
  | true ↦ some (codes "rate limit")
  | false ↦ none
]

abbrev limited : Worker
limited = record {
  reference_gate_status = "";
  missing_paths = [];
  transport_stopped = false;
  transport_reason = none;
  budget_stopped = false;
  budget_stop_kind = "";
  budget_reason = none;
  timed_out = false;
  idle_timed_out = false;
  return_code = "1";
  failure_text = codes "rate limit";
}

limited_status : (classify_worker_failure search_limit limited).status ≡ "retryable-worker-budget"
unfolding classify_worker_failure
limited_status = refl

short_circuits_iff_example :
    (worker_failure_short_circuits_checks (classify_worker_failure search_limit limited) ≡ true)
    ↔ Fails limited
short_circuits_iff_example = short_circuits_iff search_limit limited

abbrev limited_run : Summary
limited_run = record {
  status = "retryable-worker-budget";
  failure_status = "retryable-worker-budget";
  envelope_status = "";
  task_id = "t1";
  run_dir = "runs/1";
}

limited-Fails : Fails limited
limited-Fails = inr (inr (inr (inr (inr (λ h. absurd (false≢true ((eq_iff "1" "0").1 h)))))))

classify-IsFailure_example : IsFailure limited_run
unfolding classify_worker_failure
classify-IsFailure_example =
    classify-IsFailure search_limit limited limited_run limited-Fails limited_status

blocks_next_iff_example :
    (auto_loop_guard_blocks_next (auto_loop_guard_mode (codes " Hard")) (
        guard_after
          (auto_loop_failure_limit unset)
          (auto_loop_guard_mode (codes " Hard"))
          (limited_run ∷ limited_run ∷ [])
          none)
      ≡ true)
    ↔ ((auto_loop_guard_mode (codes " Hard") ≡ codes "enforce")
        × LastFailed (auto_loop_failure_limit unset) (limited_run ∷ limited_run ∷ []))
blocks_next_iff_example = blocks_next_iff unset (codes " Hard") (limited_run ∷ limited_run ∷ [])

blocked_after_two :
    auto_loop_guard_blocks_next
      (codes "enforce")
      (guard_after 2 (codes "enforce") (limited_run ∷ limited_run ∷ []) none)
    ≡ true
unfolding auto_loop_guard_blocks_next guard_after strip_by
blocked_after_two = refl

abbrev stopped_run : Run
stopped_run = record {
  task_id = "t1";
  run_dir = "runs/1";
  status = "retryable-worker-transport";
  failure_category = "transport";
  failure_reason = "";
  backend = "codex_exec";
}

abbrev events : List Event
events = run_ended 10 stopped_run ∷ run_ended 20 stopped_run ∷ []

counts_failures_example :
    ((health_state unset events none).consecutive_failures ≡ streak events 0)
    × ((health_state unset events none).failure_count ≡ failures events)
counts_failures_example = counts_failures unset events

held_back_iff_example :
    (worker_transport_cooldown_gate 30 "codex_exec" (some (health_state unset events none)) ≢ none)
    ↔ HoldsBack (worker_transport_cooldown_seconds unset) 30 "codex_exec" (last_failed events none)
held_back_iff_example = held_back_iff unset events 30 "codex_exec"

abbrev plain_encode : FlowState → Text
plain_encode s = codes "{}"

abbrev one_flow : Store
one_flow =
    flow_create "a9:flow:f1" "f1" "managed_flow" "created" [] "t0"
      (record { flows = []; events = [] })

abbrev approve_request : FlowRequest
approve_request = record {
  flow_id = "f1";
  expected_revision = some 0;
  next_status = "approved";
  actor = "monitor";
  reason = "";
  evidence_id = "";
  expected_last_seq = none;
  sequence = none;
}

abbrev approved_flows : FlowReport × Store
approved_flows = transition_managed_flow plain_encode true approve_request "t1" one_flow

abbrev approved_flow : FlowState
approved_flow =
    move (args_of plain_encode approve_request 0) "t1"
      (initial_flow_state "f1" "managed_flow" "created" [] "t0")

approved_passes :
    transition_managed_flow plain_encode true approve_request "t1" one_flow
    ≡ (replied "pass" (some approved_flow), approved_flows.1)
unfolding transition_managed_flow flow_create transition_flow lookup insert move contains
    redis_flow_key initial_flow_state
approved_passes = refl

transition_managed_flow-IsApplied_example : IsApplied approve_request one_flow approved_flows.1
transition_managed_flow-IsApplied_example =
    transition_managed_flow-IsApplied plain_encode true approve_request "t1" one_flow
      (some approved_flow) approved_flows.1 approved_passes

-- Behind a gap in the sequence, a step that is made is reported as failed.
abbrev gap_flow : FlowState
gap_flow = record approved_flow { terminal_reason = "sequence_gap" }

applied_but_failed : reply_status plain_encode none 0 (ok gap_flow) ≡ "fail"
unfolding reply_status contains move
applied_but_failed = refl

abbrev pause_command : Command
pause_command = record {
  action = codes " Pause ";
  intervention_id = "i1";
  reason = "";
  actor = "monitor";
  task_id = "";
  run_id = "";
  flow_id = "";
  flow_expected_revision = none;
  expected_revision = none;
  flow_expected_last_seq = none;
  flow_sequence = none;
  evidence_id = "";
}

abbrev commands : List Command
commands = pause_command ∷ record pause_command { action = codes "repair" } ∷ []

abbrev fresh_world : World
fresh_world = record { file = missing; queued = []; flows = one_flow }

blocks_claim_iff_example :
    (runtime_control_blocks_claim (apply_all plain_encode true "t1" commands fresh_world).file
      ≢ none)
    ↔ IsOnHold commands
blocks_claim_iff_example = blocks_claim_iff plain_encode true "t1" commands fresh_world refl

pause_holds :
    runtime_control_paused (apply_all plain_encode true "t1" commands fresh_world).file ≡ true
unfolding apply_all apply_monitor_intervention_effect strip_by runtime_control_paused
pause_holds = refl

-- An approval at revision 0, which counts as no number, changes no flow.
first_approval_lost :
    (apply_monitor_intervention_effect plain_encode true "t1"
      (record pause_command {
        action = codes "approve";
        flow_id = "f1";
        flow_expected_revision = some 0;
      })
      fresh_world).0
    ≡ recorded
unfolding apply_monitor_intervention_effect strip_by
first_approval_lost = refl
