-- ===== src/Flow/Outcome.antt =====
-- When the operations of scripts/a9_middleware.py return, and what.
use a.Prelude.{String, ◌≡◌, ◌⊎◌, ◌≢◌, ◌↔◌, arith, ok, eq_iff, or_else}
use a.Flow.{
  FlowState, TransitionArgs, WaitArgs, ResumeArgs, waiting_approval_id, waiting_resume_token,
  transition_flow_state, set_waiting_flow_state, resume_waiting_flow_state, receive, enter_waiting,
  leave_waiting,
}

pub transition-ok :
    (a : TransitionArgs) (now : String) (s : FlowState) {t : FlowState}
    → transition_flow_state a now s ≡ ok t
    → (s.revision ≡ a.expected_revision) × (t ≡ receive a (or_else a.now now) a.sequence s)
unfolding transition_flow_state
transition-ok a now s h = ground arith

pub set_waiting-ok :
    (a : WaitArgs) (now : String) (s : FlowState) {t : FlowState}
    → set_waiting_flow_state a now s ≡ ok t
    → (s.revision ≡ a.expected_revision) × (t ≡ enter_waiting a (or_else a.now now) s)
unfolding set_waiting_flow_state
set_waiting-ok a now s h = ground arith

-- What a decision needs: the flow waits, the caller names the request by its id or its token, and
-- whatever the caller gives is what the request holds.
pub record IsAuthorised (a : ResumeArgs) (s : FlowState) : Type 0 where
  pub current : s.revision ≡ a.expected_revision
  pub was_waiting : s.status ≡ "waiting"
  pub id_matches : a.approval_id ≢ "" → a.approval_id ≡ waiting_approval_id s.waiting
  pub token_matches : a.resume_token ≢ "" → a.resume_token ≡ waiting_resume_token s.waiting
  pub identified : (a.approval_id ≢ "") ⊎ (a.resume_token ≢ "")

module _ (a : ResumeArgs) (now : String) (s : FlowState) where
  resume_waiting-result :
      {t : FlowState}
      → resume_waiting_flow_state a now s ≡ ok t
      → t ≡ leave_waiting a (or_else a.now now) s
  unfolding resume_waiting_flow_state
  resume_waiting-result h = ground arith

  resume_waiting-IsAuthorised :
      {t : FlowState} → resume_waiting_flow_state a now s ≡ ok t → IsAuthorised a s
  unfolding resume_waiting_flow_state
  resume_waiting-IsAuthorised h = ground (
    arith,
    eq_iff s.status "waiting",
    eq_iff a.approval_id "",
    eq_iff a.resume_token "",
    eq_iff a.approval_id (waiting_approval_id s.waiting),
    eq_iff a.resume_token (waiting_resume_token s.waiting),
  )

  pub resume_waiting_of_IsAuthorised :
      IsAuthorised a s
      → resume_waiting_flow_state a now s ≡ ok (leave_waiting a (or_else a.now now) s)
  unfolding resume_waiting_flow_state
  resume_waiting_of_IsAuthorised h = ground (
    arith,
    eq_iff s.status "waiting",
    eq_iff a.approval_id "",
    eq_iff a.resume_token "",
    eq_iff a.approval_id (waiting_approval_id s.waiting),
    eq_iff a.resume_token (waiting_resume_token s.waiting),
  )

  -- `resume_waiting_flow_state` returns a state exactly when the decision is authorised: the
  -- revision is the expected one, the flow waits, an approval id or a token is given, and what is
  -- given is what the request holds. The state that it returns is the one with the decision
  -- recorded.
  pub resume_waiting-ok :
      (t : FlowState)
      → (resume_waiting_flow_state a now s ≡ ok t)
        ↔ (IsAuthorised a s × (t ≡ leave_waiting a (or_else a.now now) s))
  resume_waiting-ok t = (
    λ h. (resume_waiting-IsAuthorised h, resume_waiting-result h),
    λ h. rw h.1 (resume_waiting_of_IsAuthorised h.0),
  )
