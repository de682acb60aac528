-- ===== src/FlowStore/Tests.antt =====
-- The stored procedures at a concrete store.
use a.Prelude.{◌⊎◌, String, ◌≡◌, refl, true, none, some, List, [], ◌∷◌, arith, ok, eq_iff, inr}
use a.Prelude.Dict.{lookup, insert}
use a.Flow.{
  FlowState, WaitArgs, ResumeArgs, TransitionArgs, initial_flow_state, enter_waiting,
  waiting_approval_id, resume_waiting_flow_state,
}
use a.Flow.Audit.{Call, transit, perform, serve}
use a.Flow.Outcome.{IsAuthorised}
use a.FlowStore.{Store, resume_flow, flow_create}
use a.FlowStore.Refinement.{MeetsNull, Aborts, Implements, execute, execute-Implements, pure_call}
use a.FlowStore.Isolation.{serve_store, calls_for, lookup-serve_store}
use a.FlowStore.Divergence.{recorded_id, token_decision_diverges}

abbrev fresh : FlowState
fresh = initial_flow_state "f1" "managed_flow" "created" [] "t0"

abbrev store : Store
store = flow_create "a9:flow:f1" "f1" "managed_flow" "created" [] "t0" (
    flow_create "a9:flow:f2" "f2" "managed_flow" "created" [] "t0"
      (record { flows = []; events = [] }))

stored : lookup "a9:flow:f1" store.flows ≡ some fresh
unfolding flow_create lookup insert
stored = refl

abbrev step : TransitionArgs
step = record {
  expected_revision = 0;
  next_status = "running";
  actor = "worker";
  reason = "";
  evidence_id = "";
  expected_last_seq = none;
  sequence = some 1;
  now = none;
}

execute-Implements_example :
    (MeetsNull (transit step "t1") fresh × Aborts "a9:flow:f1" (transit step "t1") fresh store)
    ⊎ ((¬ MeetsNull (transit step "t1") fresh)
        × Implements "a9:flow:f1" fresh
            (perform (pure_call (transit step "t1")) fresh)
            store
            (execute "a9:flow:f1" (transit step "t1") store))
execute-Implements_example =
    execute-Implements "a9:flow:f1" (transit step "t1") fresh store stored tt

abbrev calls : List (String × Call)
calls =
    ("a9:flow:f2", transit step "t1")
    ∷ ("a9:flow:f1", transit step "t2")
    ∷ ("a9:flow:f3", transit step "t3")
    ∷ []

lookup-serve_store_example :
    lookup "a9:flow:f1" (serve_store store calls).flows
    ≡ some (serve fresh (calls_for "a9:flow:f1" calls))
lookup-serve_store_example =
    lookup-serve_store "a9:flow:f1" store calls fresh (tt, (tt, (tt, tt))) stored

abbrev request : WaitArgs
request = record {
  expected_revision = 0;
  actor = "supervisor";
  prompt = "go?";
  approval_id = "ap-1";
  resume_token = "secret";
  waiting_step = "";
  now = none;
}

abbrev asked : FlowState
asked = enter_waiting request "t5" fresh

abbrev by_token : ResumeArgs
by_token = record {
  expected_revision = 1;
  actor = "operator";
  approve = true;
  approval_id = "";
  resume_token = "secret";
  reason = "fine";
  now = none;
}

abbrev asked_store : Store
asked_store = record { flows = ("a9:flow:f1", asked) ∷ []; events = [] }

asked_stored : lookup "a9:flow:f1" asked_store.flows ≡ some asked
unfolding lookup
asked_stored = refl

by_token-IsAuthorised : IsAuthorised by_token asked
unfolding enter_waiting initial_flow_state
by_token-IsAuthorised = record {
  current = refl;
  was_waiting = refl;
  id_matches = λ e. absurd (e refl);
  token_matches = λ e. refl;
  identified = inr (λ e. ground (arith, eq_iff "secret" ""));
}

token_decision_diverges_example :
    (t u : FlowState) × ((resume_flow "a9:flow:f1" by_token "t6" asked_store).0 ≡ ok t)
    × (resume_waiting_flow_state by_token "t6" asked ≡ ok u)
    × (recorded_id t ≡ "")
    × (recorded_id u ≡ waiting_approval_id asked.waiting)
token_decision_diverges_example =
    token_decision_diverges "a9:flow:f1" "t6" by_token asked asked_store by_token-IsAuthorised refl
      asked_stored
