-- ===== src/Flow.antt =====
-- The managed flow of scripts/a9_middleware.py: its record, and the three pure operations on it.
-- A `dict` with fixed keys is a record; a key that may be missing is an `Option`, or "" for a text.
pub mod Outcome
pub mod Protocol
pub mod Audit
pub mod Conflict
mod Tests
use Prim.Native.String.{◌++◌ as str_append}
use a.Prelude.{
  ℕ, ◌+◌, String, Bool, not, ◌&&◌, Option, none, some, List, [], ◌∷◌, ◌++◌, Result, ok, err, ◌>>=◌,
  ◌>>◌, guard, leb, ◌==◌, if◌then◌else◌, str_eq, or_else,
}
use a.Prelude.Text.{decimal}

pub record Gap : Type 0 where
  pub revision : ℕ
  pub actor : String
  pub reason : String
  pub evidence_id : String
  pub expected_next_seq : ℕ
  pub incoming_seq : ℕ
  pub at : String

-- An entry of `history`: a sequence gap, a transition, or a step of the approval protocol.
pub data HistoryEntry : Type 0 where
  sequence_gap : Gap → HistoryEntry
  transition :
      (revision : ℕ) (from_status to_status actor reason evidence_id : String) (sequence : Option ℕ)
      (at : String)
      → HistoryEntry
  approval_step :
      (revision : ℕ) (from_status to_status actor reason approval_id at : String) → HistoryEntry

-- `waiting`, an approval request.
pub record Waiting : Type 0 where
  pub approval_id : String
  pub resume_token : String
  pub prompt : String
  pub waiting_step : String
  pub actor : String
  pub created_at : String

pub record Approval : Type 0 where
  pub approval_id : String
  pub resume_token : String
  pub approved : Bool
  pub actor : String
  pub reason : String
  pub at : String

pub record FlowState : Type 0 where
  pub flow_id : String
  pub kind : String
  pub status : String
  pub revision : ℕ
  pub last_seq : ℕ
  pub created_at : String
  pub updated_at : String
  pub metadata : List (String × String)
  pub history : List HistoryEntry
  pub quarantine : List Gap
  pub terminal_reason : String
  pub waiting : Option Waiting
  pub last_approval : Option Approval

-- What the operations raise; `flow_not_found` and `script_error`, where Redis aborts a script, come
-- from the stored procedures only.
pub data FlowError : Type 0 where
  revision_mismatch : (current expected : ℕ) → FlowError
  sequence_mismatch : (current expected : ℕ) → FlowError
  flow_not_waiting : (status : String) → FlowError
  approval_mismatch token_mismatch resume_identity_required flow_not_found script_error : FlowError

-- `now` is what `utc_now()` returns.
unfoldable pub initial_flow_state :
    String → String → String → List (String × String) → String → FlowState
initial_flow_state flow_id kind status metadata now = record {
  flow_id = flow_id;
  kind = kind;
  status = status;
  revision = 0;
  last_seq = 0;
  created_at = now;
  updated_at = now;
  metadata = metadata;
  history = [];
  quarantine = [];
  terminal_reason = "";
  waiting = none;
  last_approval = none;
}

pub record TransitionArgs : Type 0 where
  pub expected_revision : ℕ
  pub next_status : String
  pub actor : String
  pub reason : String
  pub evidence_id : String
  pub expected_last_seq : Option ℕ
  pub sequence : Option ℕ
  pub now : Option String

-- The test of `expected_last_seq`, where it is given.
unfoldable pub check_last_seq : Option ℕ → ℕ → Result FlowError (Unit {0})
check_last_seq none last_seq = ok tt
check_last_seq (some expected) last_seq =
    guard (last_seq == expected) (sequence_mismatch last_seq expected)

-- The branch for a sequence number that is not the next one.
unfoldable pub open_gap : TransitionArgs → String → ℕ → FlowState → FlowState
open_gap a timestamp sequence s =
    let gap : Gap = record {
      revision = s.revision + 1;
      actor = a.actor;
      reason = a.reason;
      evidence_id = a.evidence_id;
      expected_next_seq = s.last_seq + 1;
      incoming_seq = sequence;
      at = timestamp;
    } in
    record s {
      history = s.history ++ sequence_gap gap ∷ [];
      quarantine = s.quarantine ++ gap ∷ [];
      status = "quarantined";
      terminal_reason = "sequence_gap";
      revision = s.revision + 1;
      updated_at = timestamp;
    }

-- `last_seq` moves only where a sequence number came with the call.
next_last_seq : Option ℕ → ℕ → ℕ
next_last_seq none last_seq = last_seq
next_last_seq (some sequence) last_seq = sequence

unfoldable pub move : TransitionArgs → String → FlowState → FlowState
unfolding next_last_seq
move a timestamp s = record s {
  history =
      s.history
      ++ transition (s.revision + 1) s.status a.next_status a.actor a.reason a.evidence_id
          a.sequence timestamp
        ∷ [];
  status = a.next_status;
  revision = s.revision + 1;
  last_seq = next_last_seq a.sequence s.last_seq;
  updated_at = timestamp;
}

-- A sequence number that is not new changes nothing; one that is not the next opens a gap.
unfoldable pub receive : TransitionArgs → String → Option ℕ → FlowState → FlowState
unfolding open_gap move
receive a timestamp none s = move a timestamp s
receive a timestamp (some sequence) s =
    if leb sequence s.last_seq
    then s
    else if not (sequence == s.last_seq + 1)
    then open_gap a timestamp sequence s
    else move a timestamp s

unfoldable pub transition_flow_state :
    TransitionArgs → String → FlowState → Result FlowError FlowState
unfolding check_last_seq
transition_flow_state a utc_now s = do
  guard (s.revision == a.expected_revision) (revision_mismatch s.revision a.expected_revision)
  check_last_seq a.expected_last_seq s.last_seq
  ok (receive a (or_else a.now utc_now) a.sequence s)

pub record WaitArgs : Type 0 where
  pub expected_revision : ℕ
  pub actor : String
  pub prompt : String
  pub approval_id : String
  pub resume_token : String
  pub waiting_step : String
  pub now : Option String

-- The approval id of a request that names none: `<flow_id>:approval:<revision>`.
unfoldable pub default_approval_id : String → ℕ → String
default_approval_id flow_id revision =
    str_append flow_id (str_append ":approval:" (decimal revision))

unfoldable pub effective_approval_id : String → String → ℕ → String
effective_approval_id approval_id flow_id next_revision =
    if str_eq approval_id "" then default_approval_id flow_id next_revision else approval_id

-- The state after a request is recorded.
unfoldable pub enter_waiting : WaitArgs → String → FlowState → FlowState
unfolding effective_approval_id
enter_waiting a timestamp s =
    let next_revision = s.revision + 1 in
    let approval_id = effective_approval_id a.approval_id s.flow_id next_revision in
    record s {
      history =
          s.history
          ++ approval_step next_revision s.status "waiting" a.actor a.prompt approval_id timestamp
            ∷ [];
      status = "waiting";
      revision = next_revision;
      updated_at = timestamp;
      waiting = some (record {
        approval_id = approval_id;
        resume_token = a.resume_token;
        prompt = a.prompt;
        waiting_step = a.waiting_step;
        actor = a.actor;
        created_at = timestamp;
      });
    }

unfoldable pub set_waiting_flow_state : WaitArgs → String → FlowState → Result FlowError FlowState
set_waiting_flow_state a utc_now s = do
  guard (s.revision == a.expected_revision) (revision_mismatch s.revision a.expected_revision)
  ok (enter_waiting a (or_else a.now utc_now) s)

pub record ResumeArgs : Type 0 where
  pub expected_revision : ℕ
  pub actor : String
  pub approve : Bool
  pub approval_id : String
  pub resume_token : String
  pub reason : String
  pub now : Option String

-- `waiting.get("approval_id", "")` and `waiting.get("resume_token", "")`.
abbrev pub waiting_approval_id : Option Waiting → String
waiting_approval_id none = ""
waiting_approval_id (some w) = w.approval_id

abbrev pub waiting_resume_token : Option Waiting → String
waiting_resume_token none = ""
waiting_resume_token (some w) = w.resume_token

abbrev pub given : String → Bool
given text = not (str_eq text "")

-- The state after the decision is recorded.
unfoldable pub leave_waiting : ResumeArgs → String → FlowState → FlowState
leave_waiting a timestamp s =
    let next_status : String = if a.approve then "running" else "rejected" in
    let next_revision = s.revision + 1 in
    let approval_id =
      if given a.approval_id then a.approval_id else waiting_approval_id s.waiting in
    record s {
      history =
          s.history
          ++ approval_step next_revision "waiting" next_status a.actor a.reason approval_id
              timestamp
            ∷ [];
      status = next_status;
      revision = next_revision;
      updated_at = timestamp;
      waiting = none;
      last_approval = some (record {
        approval_id = approval_id;
        resume_token = a.resume_token;
        approved = a.approve;
        actor = a.actor;
        reason = a.reason;
        at = timestamp;
      });
    }

unfoldable pub resume_waiting_flow_state :
    ResumeArgs → String → FlowState → Result FlowError FlowState
resume_waiting_flow_state a utc_now s = do
  guard (s.revision == a.expected_revision) (revision_mismatch s.revision a.expected_revision)
  guard (str_eq s.status "waiting") (flow_not_waiting s.status)
  guard (not (given a.approval_id && not (str_eq a.approval_id (waiting_approval_id s.waiting))))
      approval_mismatch
  guard (not (given a.resume_token && not (str_eq a.resume_token (waiting_resume_token s.waiting))))
      token_mismatch
  guard (not (not (given a.approval_id) && not (given a.resume_token))) resume_identity_required
  ok (leave_waiting a (or_else a.now utc_now) s)
