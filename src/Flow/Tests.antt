-- ===== src/Flow/Tests.antt =====
-- Runs of the flow operations, and the theorems about them at concrete flows.
use a.Prelude.{
  ℕ, ◌+◌, String, ◌≡◌, ◌≢◌, ◌↔◌, refl, ◌⊎◌, true, false, none, some, List, [], ◌∷◌, arith, ok, err,
  eq_iff, if◌then◌else◌, or_else,
}
use a.Flow.{
  FlowState, TransitionArgs, WaitArgs, initial_flow_state, transition_flow_state,
  set_waiting_flow_state, resume_waiting_flow_state, receive, move, open_gap, enter_waiting,
  leave_waiting, revision_mismatch,
}
use a.Flow.Outcome.{IsAuthorised, resume_waiting-ok}
use a.Flow.Audit.{Call, transit, wait, perform, serve, IsAudited, serve-IsAudited}
use a.Flow.Conflict.{no_lost_update, redelivery_ignored}
use a.Flow.Protocol.{decision, decide-wait}

abbrev fresh : FlowState
fresh = initial_flow_state "f1" "managed_flow" "created" [] "t0"

abbrev numbered : ℕ → ℕ → String → TransitionArgs
numbered revision sequence status = record {
  expected_revision = revision;
  next_status = status;
  actor = "worker";
  reason = "";
  evidence_id = "";
  expected_last_seq = none;
  sequence = some sequence;
  now = none;
}

abbrev request : ℕ → WaitArgs
request revision = record {
  expected_revision = revision;
  actor = "supervisor";
  prompt = "go?";
  approval_id = "";
  resume_token = "";
  waiting_step = "";
  now = none;
}

abbrev script : List Call
script =
    transit (numbered 0 1 "running") "t1"
    ∷ transit (numbered 0 2 "lost") "t2"
    ∷ transit (numbered 1 1 "running") "t3"
    ∷ transit (numbered 1 5 "late") "t4"
    ∷ wait (request 2) "t5"
    ∷ []

-- The second call is stale, the third is a redelivery, the fourth opens a gap.
script_run :
    let s = serve fresh script in (s.status ≡ "waiting") × (s.revision ≡ 3) × (s.last_seq ≡ 1)
unfolding serve perform initial_flow_state transition_flow_state receive move open_gap
    set_waiting_flow_state enter_waiting
script_run = (refl, refl, refl)

serve-IsAudited_example : IsAudited "created" (serve fresh script)
serve-IsAudited_example = serve-IsAudited "f1" "managed_flow" "created" [] "t0" script

abbrev started : FlowState
started = receive (numbered 0 1 "running") "t1" (some 1) fresh

start_run : transition_flow_state (numbered 0 1 "running") "t1" fresh ≡ ok started
unfolding transition_flow_state initial_flow_state
start_run = refl

no_lost_update_example :
    (started ≡ fresh)
    ⊎ (perform (transit (numbered 0 2 "lost") "t2") started
        ≡ err (revision_mismatch started.revision 0))
unfolding perform
no_lost_update_example =
    no_lost_update (transit (numbered 0 1 "running") "t1") (transit (numbered 0 2 "lost") "t2")
      fresh started refl start_run

redelivery_ignored_example :
    transition_flow_state (numbered 2 1 "running") "t9" (serve started (wait (request 1) "t5" ∷ []))
    ≡ ok (serve started (wait (request 1) "t5" ∷ []))
unfolding serve perform initial_flow_state receive move set_waiting_flow_state enter_waiting
redelivery_ignored_example =
    redelivery_ignored (numbered 0 1 "running") (numbered 2 1 "running") "t1" "t9" 1 fresh started
      (wait (request 1) "t5" ∷ []) refl start_run calm refl refl refl
  where
    calm : started.status ≢ "quarantined"
    calm e = ground (arith, eq_iff "running" "quarantined")

abbrev asked : FlowState
asked = enter_waiting (request 0) "t5" fresh

ask_run : set_waiting_flow_state (request 0) "t5" fresh ≡ ok asked
unfolding set_waiting_flow_state initial_flow_state
ask_run = refl

decide-wait_example :
    (u : FlowState) × (resume_waiting_flow_state (decision asked true "operator" "fine") "t6" asked
      ≡ ok u)
    × (u.status ≡ (if true then "running" else "rejected"))
    × (u.waiting ≡ none)
    × (u.revision ≡ fresh.revision + 2)
decide-wait_example = decide-wait (request 0) "t5" "t6" fresh asked true "operator" "fine" ask_run

resume_waiting-ok_example :
    (resume_waiting_flow_state (decision asked false "operator" "no") "t6" asked
      ≡ ok (leave_waiting (decision asked false "operator" "no") "t6" asked))
    ↔ (IsAuthorised (decision asked false "operator" "no") asked
        × (leave_waiting (decision asked false "operator" "no") "t6" asked
            ≡ leave_waiting (decision asked false "operator" "no") (or_else none "t6") asked))
resume_waiting-ok_example =
    resume_waiting-ok (decision asked false "operator" "no") "t6" asked
      (leave_waiting (decision asked false "operator" "no") "t6" asked)
