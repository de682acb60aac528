-- ===== src/Supervisor/FlowCall.antt =====
-- `transition_managed_flow` of scripts/a9_supervisor.py: a call of the Redis function
-- `transition_flow`, and what is reported of its reply. Whether Redis answers, and the text in which
-- it encodes a flow, are parameters.
use Prim.Native.String.{◌++◌ as str_append}
use a.Prelude.{
  ℕ, String, Bool, false, not, ◌&&◌, ◌||◌, Option, none, some, Result, ok, err, leb, ◌==◌,
  if◌then◌else◌, str_eq,
}
use a.Text.{Text, codes, contains}
use a.Flow.{FlowState, FlowError, TransitionArgs}
use a.FlowStore.{Store, transition_flow}

pub record FlowRequest : Type 0 where
  pub flow_id : String
  pub expected_revision : Option ℕ
  pub next_status : String
  pub actor : String
  pub reason : String
  pub evidence_id : String
  pub expected_last_seq : Option ℕ
  pub sequence : Option ℕ

-- The call is skipped, Redis does not answer, or the reply has a status, with the flow in it.
pub data FlowReport : Type 0 where
  missing_flow_id missing_expected_revision redis_unavailable : FlowReport
  replied : (status : String) (flow : Option FlowState) → FlowReport

unfoldable pub redis_flow_key : String → String
redis_flow_key flow_id = str_append "a9:flow:" flow_id

abbrev pub mentions_error : Text → Bool
mentions_error output =
    contains output (codes "revision_mismatch")
    || contains output (codes "flow_not_found")
    || contains output (codes "sequence_mismatch")

-- Whether the flow stands where a call with this sequence number found it, the number already
-- taken.
unfoldable pub is_delivered : Option ℕ → ℕ → FlowState → Bool
is_delivered none expected s = false
is_delivered (some sequence) expected s = s.revision == expected && leb sequence s.last_seq

module _ (encode : FlowState → Text) where
  unfoldable pub reply_status : Option ℕ → ℕ → Result FlowError FlowState → String
  unfolding is_delivered
  reply_status sequence expected (err e) = "fail"
  reply_status sequence expected (ok s) =
      if mentions_error (encode s)
        || (str_eq s.terminal_reason "sequence_gap" || str_eq s.status "quarantined")
      then "fail"
      else if is_delivered sequence expected s
      then "skipped"
      else "pass"

  abbrev pub flow_of : Result FlowError FlowState → Option FlowState
  flow_of (err e) = none
  flow_of (ok s) = some s

  abbrev pub args_of : FlowRequest → ℕ → TransitionArgs
  args_of r expected = record {
    expected_revision = expected;
    next_status = r.next_status;
    actor = r.actor;
    reason = r.reason;
    evidence_id = r.evidence_id;
    expected_last_seq = r.expected_last_seq;
    sequence = r.sequence;
    now = none;
  }

  unfoldable pub call_transition : FlowRequest → ℕ → String → Store → FlowReport × Store
  unfolding reply_status redis_flow_key transition_flow
  call_transition r expected now store =
      let reply = transition_flow (redis_flow_key r.flow_id) (args_of r expected) now store in
      (replied (reply_status r.sequence expected reply.0) (flow_of reply.0), reply.1)

  unfoldable pub transition_managed_flow : Bool → FlowRequest → String → Store → FlowReport × Store
  unfolding call_transition
  transition_managed_flow available r now store =
      if str_eq r.flow_id "" then (missing_flow_id, store) else elim r.expected_revision [
        | none ↦ (missing_expected_revision, store)
        | some expected ↦
            let sent = call_transition r expected now store in
            if not available then (redis_unavailable, store) else sent
      ]
