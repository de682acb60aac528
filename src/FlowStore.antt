-- ===== src/FlowStore.antt =====
-- The Redis functions `transition_flow`, `set_waiting_flow` and `resume_flow`, the Lua text in
-- `init_redis_runtime` of scripts/a9_middleware.py, and `flow_create`: the same operations on the
-- stored flows, each atomic, with an entry in the stream `a9:events` for each change.
-- `tonumber` has been applied to the arguments; `now` is the text that the caller sends. `waiting`
-- is `none` for a missing field and for a null one. A decision sets it to null, in one document with
-- `last_approval`, and nothing removes either: so null is told from missing by `last_approval`.
pub mod Refinement
pub mod Isolation
pub mod Divergence
mod Tests
use a.Prelude.{
  ℕ, ◌+◌, String, Bool, true, false, not, ◌&&◌, ◌||◌, Option, none, some, List, [], ◌∷◌, ◌++◌,
  Result, ok, err, leb, ◌==◌, if◌then◌else◌, str_eq,
}
use a.Prelude.Dict.{lookup, insert}
use a.Flow.{
  Gap, HistoryEntry, sequence_gap, transition, approval_step, Waiting, Approval, FlowState,
  FlowError, revision_mismatch, sequence_mismatch, flow_not_waiting, approval_mismatch,
  token_mismatch, resume_identity_required, flow_not_found, script_error, TransitionArgs, WaitArgs,
  ResumeArgs, initial_flow_state, default_approval_id, waiting_approval_id, waiting_resume_token,
}

-- An entry of the stream.
pub data Event : Type 0 where
  flow_sequence_gap :
      (flow_id : String) (revision expected_next_seq incoming_seq : ℕ) (actor : String) → Event
  flow_transition : (flow_id : String) (revision : ℕ) (status actor : String) → Event
  flow_waiting : (flow_id : String) (revision : ℕ) (approval_id actor : String) → Event
  flow_resume : (flow_id : String) (revision : ℕ) (status approval_id actor : String) → Event

pub record Store : Type 0 where
  pub flows : List (String × FlowState)
  pub events : List Event

abbrev pub Reply : Type 0
Reply = Result FlowError FlowState × Store

-- `JSON.SET`, then `XADD`, then the state as the reply.
unfoldable pub save : String → FlowState → Event → Store → Reply
save key state event st =
    (ok state, record { flows = insert key state st.flows; events = st.events ++ event ∷ [] })

plain_transition : String → TransitionArgs → String → Option ℕ → ℕ → FlowState → Store → Reply
unfolding save
plain_transition key a now incoming last_seq s st =
    let state = record s {
      history =
          s.history
          ++ transition (s.revision + 1) s.status a.next_status a.actor a.reason a.evidence_id
              incoming now
            ∷ [];
      status = a.next_status;
      revision = s.revision + 1;
      last_seq = last_seq;
      updated_at = now;
    } in
    save key state (flow_transition key (s.revision + 1) a.next_status a.actor) st

gap_transition : String → TransitionArgs → String → ℕ → FlowState → Store → Reply
unfolding save
gap_transition key a now incoming s st =
    let gap : Gap = record {
      revision = s.revision + 1;
      actor = a.actor;
      reason = a.reason;
      evidence_id = a.evidence_id;
      expected_next_seq = s.last_seq + 1;
      incoming_seq = incoming;
      at = now;
    } in
    let state = record s {
      status = "quarantined";
      terminal_reason = "sequence_gap";
      revision = s.revision + 1;
      updated_at = now;
      history = s.history ++ sequence_gap gap ∷ [];
      quarantine = s.quarantine ++ gap ∷ [];
    } in
    save key state (flow_sequence_gap key (s.revision + 1) (s.last_seq + 1) incoming a.actor) st

sequenced : String → TransitionArgs → String → Option ℕ → FlowState → Store → Reply
unfolding plain_transition gap_transition
sequenced key a now none s st = plain_transition key a now none s.last_seq s st
sequenced key a now (some incoming) s st =
    if leb incoming s.last_seq
    then (ok s, st)
    else if not (incoming == s.last_seq + 1)
    then gap_transition key a now incoming s st
    else plain_transition key a now (some incoming) incoming s st

-- `expected_last_seq ~= nil and current_last_seq ~= expected_last_seq`
unexpected_last_seq : Option ℕ → ℕ → Option FlowError
unexpected_last_seq none current = none
unexpected_last_seq (some expected) current =
    if current == expected then none else some (sequence_mismatch current expected)

transition_state : String → TransitionArgs → String → FlowState → Store → Reply
unfolding sequenced unexpected_last_seq
transition_state key a now s st =
    if not (s.revision == a.expected_revision)
    then (err (revision_mismatch s.revision a.expected_revision), st)
    else elim (unexpected_last_seq a.expected_last_seq s.last_seq) [
      | some e ↦ (err e, st)
      | none ↦ sequenced key a now a.sequence s st
    ]

unfoldable pub transition_flow : String → TransitionArgs → String → Store → Reply
unfolding transition_state
transition_flow key a now st = elim (lookup key st.flows) [
  | none ↦ (err flow_not_found, st)
  | some s ↦ transition_state key a now s st
]

wait_state : String → WaitArgs → String → FlowState → Store → Reply
unfolding save
wait_state key a now s st =
    let next_revision = s.revision + 1 in
    let approval_id : String =
      if str_eq a.approval_id ""
      then default_approval_id s.flow_id next_revision
      else a.approval_id in
    let waiting : Waiting = record {
      approval_id = approval_id;
      resume_token = a.resume_token;
      prompt = a.prompt;
      waiting_step = a.waiting_step;
      actor = a.actor;
      created_at = now;
    } in
    let state = record s {
      history =
          s.history
          ++ approval_step next_revision s.status "waiting" a.actor a.prompt approval_id now ∷ [];
      status = "waiting";
      revision = next_revision;
      updated_at = now;
      waiting = some waiting;
    } in
    if not (s.revision == a.expected_revision)
    then (err (revision_mismatch s.revision a.expected_revision), st)
    else save key state (flow_waiting key next_revision approval_id a.actor) st

unfoldable pub set_waiting_flow : String → WaitArgs → String → Store → Reply
unfolding wait_state
set_waiting_flow key a now st = elim (lookup key st.flows) [
  | none ↦ (err flow_not_found, st)
  | some s ↦ wait_state key a now s st
]

-- The state with the decision recorded; the approval id is the caller's, as it came.
unfoldable pub decided : ResumeArgs → String → FlowState → FlowState
decided a now s =
    let next_status : String = if a.approve then "running" else "rejected" in
    let next_revision = s.revision + 1 in
    record s {
      history =
          s.history
          ++ approval_step next_revision "waiting" next_status a.actor a.reason a.approval_id now
            ∷ [];
      status = next_status;
      revision = next_revision;
      updated_at = now;
      waiting = none;
      last_approval = some (record {
        approval_id = a.approval_id;
        resume_token = a.resume_token;
        approved = a.approve;
        actor = a.actor;
        reason = a.reason;
        at = now;
      });
    }

decided_state : String → ResumeArgs → String → FlowState → Store → Reply
unfolding save decided
decided_state key a now s st =
    let t = decided a now s in
    save key t (flow_resume key t.revision t.status a.approval_id a.actor) st

-- `state['waiting']` is `cjson.null`, which a decision stores.
unfoldable pub waiting_is_null : FlowState → Bool
waiting_is_null s = elim s.waiting [
  | some waiting ↦ false
  | none ↦ elim s.last_approval [ none ↦ false | some approval ↦ true ]
]

-- `cjson.null` is true in Lua: it stays behind `or {}`, and to index it aborts the script.
resume_state : String → ResumeArgs → String → FlowState → Store → Reply
unfolding decided_state waiting_is_null
resume_state key a now s st =
    if not (s.revision == a.expected_revision)
    then (err (revision_mismatch s.revision a.expected_revision), st)
    else if not (str_eq s.status "waiting")
    then (err (flow_not_waiting s.status), st)
    else if str_eq a.approval_id "" && str_eq a.resume_token ""
    then (err resume_identity_required, st)
    else if waiting_is_null s
    then (err script_error, st)
    else if not (str_eq a.approval_id "")
        && not (str_eq a.approval_id (waiting_approval_id s.waiting))
    then (err approval_mismatch, st)
    else if not (str_eq a.resume_token "")
        && not (str_eq a.resume_token (waiting_resume_token s.waiting))
    then (err token_mismatch, st)
    else decided_state key a now s st

unfoldable pub resume_flow : String → ResumeArgs → String → Store → Reply
unfolding resume_state
resume_flow key a now st = elim (lookup key st.flows) [
  | none ↦ (err flow_not_found, st)
  | some s ↦ resume_state key a now s st
]

-- `flow_create`: the flow is written whatever stands under its key.
unfoldable pub flow_create :
    String → String → String → String → List (String × String) → String → Store → Store
flow_create key flow_id kind status metadata now st = record st {
  flows = insert key (initial_flow_state flow_id kind status metadata now) st.flows;
}
