-- ===== src/Flow/Protocol.antt =====
-- The approval protocol of a flow (scripts/a9_middleware.py): a request, then a decision.
use text.Mathlib.TextLemmas.{append-eq-nil_iff}
use a.Prelude.{
  ℕ, ◌+◌, String, Bool, ◌≡◌, ◌≢◌, refl, inl, none, arith, ok, eq_iff, or_else, if◌then◌else◌,
}
use a.Flow.{
  FlowState, WaitArgs, ResumeArgs, enter_waiting, leave_waiting, waiting_approval_id,
  set_waiting_flow_state, resume_waiting_flow_state, default_approval_id, effective_approval_id,
}
use a.Flow.Outcome.{IsAuthorised, set_waiting-ok, resume_waiting_of_IsAuthorised}

default_approval_id-ne-nil :
    (flow_id : String) (revision : ℕ) → default_approval_id flow_id revision ≢ ""
unfolding default_approval_id
default_approval_id-ne-nil flow_id revision e =
    let tail = (append-eq-nil_iff.0 e).1 in
    let head : ◌≡◌ {A = String} ":approval:" "" = (append-eq-nil_iff.0 tail).0 in
    ground (arith, eq_iff ":approval:" "")

effective_approval_id-ne-nil :
    (approval_id flow_id : String) (revision : ℕ)
    → effective_approval_id approval_id flow_id revision ≢ ""
unfolding effective_approval_id
effective_approval_id-ne-nil approval_id flow_id revision =
    ground (arith, default_approval_id-ne-nil flow_id revision, eq_iff approval_id "")

-- The decision that names a request by its approval id alone.
abbrev pub decision : FlowState → Bool → String → String → ResumeArgs
decision t approve actor reason = record {
  expected_revision = t.revision;
  actor = actor;
  approve = approve;
  approval_id = waiting_approval_id t.waiting;
  resume_token = "";
  reason = reason;
  now = none;
}

-- A request can always be decided: after `set_waiting_flow_state` has returned, with or without an
-- approval id of the caller's, a decision that names the request by the id it holds is accepted.
-- The flow then runs, or is rejected, as decided; it waits no longer, and its revision has moved
-- by two since the request.
pub decide-wait :
    (a : WaitArgs) (now later : String) (s t : FlowState) (approve : Bool) (actor reason : String)
    → set_waiting_flow_state a now s ≡ ok t
    → (u : FlowState) × (resume_waiting_flow_state (decision t approve actor reason) later t ≡ ok u)
      × (u.status ≡ (if approve then "running" else "rejected"))
      × (u.waiting ≡ none)
      × (u.revision ≡ s.revision + 2)
decide-wait a now later s t approve actor reason h = (
  leave_waiting d (or_else d.now later) t,
  resume_waiting_of_IsAuthorised d later t authorised,
  unfold leave_waiting in refl,
  unfold leave_waiting in refl,
  unfold leave_waiting in rw result (unfold enter_waiting in omega arith),
)
  where
    d : ResumeArgs
    d = decision t approve actor reason

    result : t ≡ enter_waiting a (or_else a.now now) s
    result = (set_waiting-ok a now s h).1

    waits : t.status ≡ "waiting"
    waits = rw result (unfold enter_waiting in refl)

    named : waiting_approval_id t.waiting ≢ ""
    named =
        rw result (unfold enter_waiting in effective_approval_id-ne-nil a.approval_id s.flow_id _)

    authorised : IsAuthorised d t
    authorised = record {
      current = refl;
      was_waiting = waits;
      id_matches = λ _. refl;
      token_matches = λ e. absurd (e refl);
      identified = inl named;
    }
