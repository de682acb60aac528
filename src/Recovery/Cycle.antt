-- ===== src/Recovery/Cycle.antt =====
-- The cycle and the loop of scripts/a9_recovery_loop.py: execute_communication_route,
-- recovery_cycle_once and recovery_loop. The sleep between two cycles is left out.
use a.Prelude.{
  ℕ, zero, suc, ◌+◌, Bool, true, false, not, ◌||◌, Option, none, some, List, [], ◌∷◌, ◌++◌, leb,
  if◌then◌else◌, ◌==◌,
}
use a.Text.{Text, codes, text_eq}
use a.Recovery.{
  Reading, Execution, observe_only, unsupported_route, execution_failed, executed, Observed, State,
  repair_one, observed_of, communication_observation_update,
  communication_repair_suggestions_update,
}

-- Where the loop stands: the cycles done, those that were not ok, and the files.
pub record Progress : Type 0 where
  pub iterations : ℕ
  pub degraded : ℕ
  pub state : State

abbrev pub is_degraded : Observed → Bool
is_degraded r = not (text_eq r.status (codes "ok"))

unfoldable pub goes_on : ℕ → ℕ → Bool
goes_on safe_max iterations = safe_max == 0 || leb (iterations + 1) safe_max

-- The status of the summary.
unfoldable pub summary_status : Progress → Text
summary_status s = if s.degraded == 0 then codes "ok" else codes "degraded"

module _ (read : ℕ → Reading) (post : ℕ → Text → Text → Option Text) (now : ℕ → Text) where
  -- What is sent, and what comes of it; the answer of the controller is `none` where the request
  -- fails.
  unfoldable pub execute_communication_route : ℕ → Observed → Execution × List (Text × Text)
  unfolding text_eq
  execute_communication_route cycle r =
      if not (text_eq r.endpoint repair_one)
      then (unsupported_route, [])
      else elim (post cycle r.endpoint r.payload) [
        | none ↦ (execution_failed, (r.endpoint, r.payload) ∷ [])
        | some answer ↦ (executed r.payload answer, (r.endpoint, r.payload) ∷ [])
      ]

  unfoldable pub execution_of : Bool → ℕ → Observed → Execution × List (Text × Text)
  unfolding execute_communication_route
  execution_of true cycle r = execute_communication_route cycle r
  execution_of false cycle r = (observe_only, [])

  unfoldable pub recovery_cycle_once : Bool → ℕ → State → Observed × State
  unfolding observed_of execution_of communication_observation_update
      communication_repair_suggestions_update
  recovery_cycle_once execute cycle state =
      let r = observed_of execute (now cycle) (read cycle) in
      let sent = execution_of execute cycle r in
      let observation = communication_observation_update r state.observation in
      (
        r,
        record {
          observation = some observation;
          pending = communication_repair_suggestions_update observation r;
          posts = state.posts ++ sent.1;
        },
      )

  -- One round of the loop.
  unfoldable pub round : Bool → Progress → Progress
  unfolding recovery_cycle_once
  round execute s =
      let ran = recovery_cycle_once execute s.iterations s.state in
      record {
        iterations = s.iterations + 1;
        degraded = if is_degraded ran.0 then s.degraded + 1 else s.degraded;
        state = ran.1;
      }

  -- `while safe_max == 0 or iterations < safe_max`, on fuel; `none` where it still runs.
  unfoldable pub loop_from : ℕ → ℕ → Bool → Progress → Option Progress
  unfolding round goes_on
  loop_from zero safe_max execute s = if goes_on safe_max s.iterations then none else some s
  loop_from (suc fuel) safe_max execute s =
      let rest = loop_from fuel safe_max execute (round execute s) in
      if goes_on safe_max s.iterations then rest else some s

  unfoldable pub recovery_loop : ℕ → ℕ → Bool → State → Option Progress
  unfolding loop_from
  recovery_loop fuel safe_max execute state =
      loop_from fuel safe_max execute (record { iterations = 0; degraded = 0; state = state })
