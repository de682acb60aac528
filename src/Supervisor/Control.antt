-- ===== src/Supervisor/Control.antt =====
-- The control of the runtime in scripts/a9_supervisor.py: runtime_control_state,
-- runtime_control_paused and runtime_control_blocks_claim, and the commands of a monitor. A missing
-- value of a command is the empty text, and `flow_id` is stripped; where `optional_int` finds no
-- number there is `none`. Of a task that is queued the prefix of its name and its phase are kept.
-- Left out are the mark that the file was unreadable and the path of a queued task.
use a.Prelude.{ℕ, String, Bool, false, not, Option, none, some, List, [], if◌then◌else◌, str_eq}
use a.Text.{Text}
use a.FlowStore.{Store}
use a.Supervisor.FlowCall.{FlowReport}

pub record Command : Type 0 where
  pub action : Text
  pub intervention_id : String
  pub reason : String
  pub actor : String
  pub task_id : String
  pub run_id : String
  pub flow_id : String
  pub flow_expected_revision : Option ℕ
  pub expected_revision : Option ℕ
  pub flow_expected_last_seq : Option ℕ
  pub flow_sequence : Option ℕ
  pub evidence_id : String

pub record Intervention : Type 0 where
  pub intervention_id : String
  pub action : Text
  pub reason : String
  pub actor : String
  pub task_id : String
  pub run_id : String

pub record Control : Type 0 where
  pub paused : Bool
  pub status : String
  pub reason : String
  pub last_intervention : Option Intervention
  pub last_queued_task_phase : String
  pub last_decision_action : Text
  pub last_decision_reason : String
  pub last_decision_status : String
  pub last_flow_transition : Option FlowReport

-- The file of the control.
pub data ControlFile : Type 0 where
  missing unreadable : ControlFile
  readable : (control : Control) → ControlFile

pub record Task : Type 0 where
  pub prefix : String
  pub phase : String

pub record World : Type 0 where
  pub file : ControlFile
  pub queued : List Task
  pub flows : Store

abbrev pub running : Control
running = record {
  paused = false;
  status = "running";
  reason = "";
  last_intervention = none;
  last_queued_task_phase = "";
  last_decision_action = [];
  last_decision_reason = "";
  last_decision_status = "";
  last_flow_transition = none;
}

unfoldable pub runtime_control_state : ControlFile → Control
runtime_control_state missing = running
runtime_control_state unreadable = running
runtime_control_state (readable control) = control

unfoldable pub runtime_control_paused : ControlFile → Bool
unfolding runtime_control_state
runtime_control_paused file = (runtime_control_state file).paused

pub record Block : Type 0 where
  pub reason : String
  pub intervention_id : String

abbrev pub id_of_last : Option Intervention → String
id_of_last none = ""
id_of_last (some intervention) = intervention.intervention_id

abbrev pub or_string : String → String → String
or_string value default = if str_eq value "" then default else value

unfoldable pub runtime_control_blocks_claim : ControlFile → Option Block
unfolding runtime_control_state
runtime_control_blocks_claim file =
    let state = runtime_control_state file in
    if not state.paused
    then none
    else some (record {
      reason = or_string state.reason "monitor_intervention_pause";
      intervention_id = id_of_last state.last_intervention;
    })
