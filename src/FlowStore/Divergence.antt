-- ===== src/FlowStore/Divergence.antt =====
-- Where the stored procedure `resume_flow` and `resume_waiting_flow_state` of
-- scripts/a9_middleware.py differ: a decision by token alone.
use a.Prelude.{or_else, ◌≡◌, String, Option, none, some, ok, arith, eq_iff}
use a.Prelude.Dict.{lookup}
use a.Flow.{
  waiting_resume_token, FlowState, Approval, ResumeArgs, waiting_approval_id,
  resume_waiting_flow_state, leave_waiting,
}
use a.Flow.Outcome.{IsAuthorised, resume_waiting_of_IsAuthorised}
use a.FlowStore.{waiting_is_null, Store, resume_flow, resume_state, decided}

abbrev pub approved_id : Option Approval → String
approved_id none = ""
approved_id (some d) = d.approval_id

-- The approval id that a reply records as decided.
abbrev pub recorded_id : FlowState → String
recorded_id t = approved_id t.last_approval

module _ (key now : String) (a : ResumeArgs) (s : FlowState) (st : Store) where
  decided_by_token :
      IsAuthorised a s
      → a.approval_id ≡ ""
      → lookup key st.flows ≡ some s
      → (resume_flow key a now st).0 ≡ ok (decided a now s)
  unfolding resume_flow resume_state waiting_is_null
  decided_by_token h unnamed found = ground (
    arith,
    eq_iff s.status "waiting",
    eq_iff a.approval_id "",
    eq_iff a.resume_token "",
    eq_iff a.approval_id (waiting_approval_id s.waiting),
    eq_iff a.resume_token (waiting_resume_token s.waiting),
  )

  -- An authorised decision by token alone, on a request that has an approval id, is accepted by
  -- both, and they disagree on what they record: `resume_waiting_flow_state` records the approval
  -- id of the request, and `resume_flow` records an empty one.
  pub token_decision_diverges :
      IsAuthorised a s
      → a.approval_id ≡ ""
      → lookup key st.flows ≡ some s
      → (t u : FlowState) × ((resume_flow key a now st).0 ≡ ok t)
        × (resume_waiting_flow_state a now s ≡ ok u)
        × (recorded_id t ≡ "")
        × (recorded_id u ≡ waiting_approval_id s.waiting)
  token_decision_diverges h unnamed found = (
    decided a now s,
    leave_waiting a (or_else a.now now) s,
    decided_by_token h unnamed found,
    resume_waiting_of_IsAuthorised a now s h,
    unfold decided in unnamed,
    unfold leave_waiting in ground (arith, eq_iff a.approval_id ""),
  )
