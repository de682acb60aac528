-- ===== src/Supervisor/Effects.antt =====
-- The effects of a monitor's command in scripts/a9_supervisor.py: optional_int,
-- write_runtime_control_state, apply_monitor_approval_effect and apply_monitor_intervention_effect.
use a.Prelude.{
  ℕ, String, Bool, true, false, ◌||◌, Option, none, some, [], ◌∷◌, ◌++◌, if◌then◌else◌, str_eq, map,
  ◌==◌,
}
use a.Text.{Text, codes, text_eq, strip, is_space}
use a.Checkpoint.Put.{lower_char}
use a.Flow.{FlowState}
use a.Supervisor.FlowCall.{
  FlowRequest, FlowReport, missing_flow_id, missing_expected_revision, redis_unavailable, replied,
  transition_managed_flow,
}
use a.Supervisor.Control.{
  Command, Intervention, Control, readable, Task, World, runtime_control_state, or_string,
}

abbrev pub write_control : Control → World → World
write_control control w = record w { file = readable control }

-- command.get("action").strip().lower()
unfoldable pub action_of : Command → Text
unfolding is_space
action_of c = map lower_char (strip c.action)

abbrev pub intervention_of : Command → Text → Intervention
intervention_of c action = record {
  intervention_id = c.intervention_id;
  action = action;
  reason = c.reason;
  actor = c.actor;
  task_id = c.task_id;
  run_id = c.run_id;
}

-- x or y, where 0 counts as false.
abbrev pub or_number : Option ℕ → Option ℕ → Option ℕ
or_number none y = y
or_number (some n) y = if n == 0 then y else some n

-- How an effect ended.
pub data Effect : Type 0 where
  applied recorded degraded : Effect

unfoldable pub is_settled : FlowReport → Bool
is_settled missing_flow_id = true
is_settled missing_expected_revision = true
is_settled redis_unavailable = false
is_settled (replied status flow) = str_eq status "pass" || str_eq status "skipped"

module _ (encode : FlowState → Text) (available : Bool) (now : String) where
  abbrev pub decision_request : Command → Text → ℕ → FlowRequest
  decision_request c action expected = record {
    flow_id = c.flow_id;
    expected_revision = some expected;
    next_status = if text_eq action (codes "approve") then "approved" else "rejected";
    actor = or_string c.actor "monitor";
    reason =
        or_string c.reason
          (if text_eq action (codes "approve") then "monitor_approve" else "monitor_reject");
    evidence_id = or_string c.evidence_id c.intervention_id;
    expected_last_seq = c.flow_expected_last_seq;
    sequence = c.flow_sequence;
  }

  -- What a decision writes where the flow, or its revision, is not named.
  unfoldable pub without_contract : Command → Text → World → Effect × World
  unfolding runtime_control_state
  without_contract c action w = (
    recorded,
    write_control
        (record (runtime_control_state w.file) {
          last_intervention = some (intervention_of c action);
          last_decision_action = action;
          last_decision_reason = c.reason;
          last_decision_status = "missing_flow_contract";
        })
        w,
  )

  unfoldable pub apply_monitor_approval_effect : Command → Text → World → Effect × World
  unfolding runtime_control_state transition_managed_flow is_settled without_contract text_eq
  apply_monitor_approval_effect c action w =
      if str_eq c.flow_id ""
      then without_contract c action w
      else elim (or_number c.flow_expected_revision c.expected_revision) [
        | none ↦ without_contract c action w
        | some expected ↦
            let sent =
              transition_managed_flow encode available (decision_request c action expected) now
                w.flows in
            (
              if is_settled sent.0 then applied else degraded,
              record {
                file = readable (record (runtime_control_state w.file) {
                  last_intervention = some (intervention_of c action);
                  last_decision_action = action;
                  last_decision_reason = c.reason;
                  last_flow_transition = some sent.0;
                });
                queued = w.queued;
                flows = sent.1;
              },
            )
      ]

  unfoldable pub set_paused : Bool → Command → Text → World → Effect × World
  unfolding runtime_control_state
  set_paused paused c action w = (
    applied,
    write_control
        (record (runtime_control_state w.file) {
          paused = paused;
          status = if paused then "paused" else "running";
          reason =
              or_string c.reason
                (if paused then "monitor_intervention_pause" else "monitor_intervention_resume");
          last_intervention = some (intervention_of c action);
        })
        w,
  )

  unfoldable pub queue_task : Task → Command → Text → World → Effect × World
  unfolding runtime_control_state
  queue_task task c action w = (
    applied,
    record {
      file = readable (record (runtime_control_state w.file) {
        last_intervention = some (intervention_of c action);
        last_queued_task_phase = task.phase;
      });
      queued = w.queued ++ task ∷ [];
      flows = w.flows;
    },
  )

  unfoldable pub record_decision : Command → Text → World → Effect × World
  unfolding runtime_control_state
  record_decision c action w = (
    recorded,
    write_control
        (record (runtime_control_state w.file) {
          last_intervention = some (intervention_of c action);
          last_decision_action = action;
          last_decision_reason = c.reason;
        })
        w,
  )

  unfoldable pub apply_monitor_intervention_effect : Command → World → Effect × World
  unfolding action_of set_paused queue_task record_decision apply_monitor_approval_effect text_eq
  apply_monitor_intervention_effect c w =
      let action = action_of c in
      if text_eq action (codes "pause")
      then set_paused true c action w
      else if text_eq action (codes "resume")
      then set_paused false c action w
      else if text_eq action (codes "repair")
      then queue_task (record { prefix = "operator-repair"; phase = "repair" }) c action w
      else if text_eq action (codes "route_to_debate")
      then queue_task (record { prefix = "operator-debate"; phase = "mechanism_extract" }) c action
          w
      else if text_eq action (codes "approve") || text_eq action (codes "reject")
      then apply_monitor_approval_effect c action w
      else record_decision c action w
