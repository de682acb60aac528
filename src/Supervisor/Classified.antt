-- ===== src/Supervisor/Classified.antt =====
-- The failures of scripts/a9_supervisor.py: which runs fail, and that each failure counts.
use a.Prelude.{
  String, ◌≡◌, ◌≢◌, ◌↔◌, ◌⊎◌, inl, inr, refl, ap, ◌∙◌, Bool, true, false, not, ◌&&◌, ◌||◌, Option,
  none, some, [], if◌then◌else◌, str_eq, eq_iff, arith, Bool-cases,
}
use a.Text.{is_empty, Text}
use a.Supervisor.Failure.{
  Worker, Failure, failure, first_match, or_match, exit_failure, stopped_failure, budget_failure,
  timeout_failure, is_command_bound, classify_worker_failure, is_retryable,
  worker_failure_short_circuits_checks, transport_exhausted_text_reason, model_limit_patterns,
  network_error_patterns, startup_error_patterns, broken_pipe_patterns,
}

-- The worker was stopped, ran out of time, or ended with another return code than 0.
abbrev pub Fails : Worker → Type 0
Fails w =
    (w.reference_gate_status ≡ "fail")
    ⊎ ((w.transport_stopped ≡ true)
        ⊎ ((w.budget_stopped ≡ true)
            ⊎ ((w.timed_out ≡ true) ⊎ ((w.idle_timed_out ≡ true) ⊎ (w.return_code ≢ "0")))))

abbrev stops : Failure → Bool
stops f = worker_failure_short_circuits_checks f

stops-or_match :
    (status category : String) (found : Option (String × Text)) (later : Failure)
    → is_retryable status ≡ true
    → stops later ≡ true
    → stops (or_match status category found later) ≡ true
unfolding worker_failure_short_circuits_checks
stops-or_match status category none later h k = k
stops-or_match status category (some (pattern, matched)) later h k = rw h refl

stops_chosen :
    (exhausted late success : Bool) (x y z : Failure)
    → stops x ≡ true
    → stops y ≡ true
    → stops z ≡ true
    → stops (
        if exhausted && (late || not success)
        then x
        else if late
        then y
        else if success
        then failure "" "" [] ""
        else z)
      ≡ (late || not success)
unfolding worker_failure_short_circuits_checks is_retryable
stops_chosen true true success x y z hx hy hz = hx
stops_chosen true false true x y z hx hy hz = refl
stops_chosen true false false x y z hx hy hz = hx
stops_chosen false true success x y z hx hy hz = hy
stops_chosen false false true x y z hx hy hz = refl
stops_chosen false false false x y z hx hy hz = hz

stops_first :
    (gate transport budget : Bool) (x y z rest : Failure)
    → stops x ≡ true
    → stops y ≡ true
    → stops z ≡ true
    → stops (if gate then x else if transport then y else if budget then z else rest)
      ≡ (gate || (transport || (budget || stops rest)))
stops_first true transport budget x y z rest hx hy hz = hx
stops_first false true budget x y z rest hx hy hz = hy
stops_first false false true x y z rest hx hy hz = hz
stops_first false false false x y z rest hx hy hz = refl

stops-budget_failure : (w : Worker) → stops (budget_failure w) ≡ true
unfolding budget_failure worker_failure_short_circuits_checks is_retryable
stops-budget_failure w = elim (Bool-cases (is_command_bound w.budget_stop_kind)) [
  | inl bound ↦ rw bound refl
  | inr other ↦ rw other refl
]

module _ (search : String → Text → Option Text) where
  stops-exit_failure : (w : Worker) → stops (exit_failure search w) ≡ true
  unfolding exit_failure worker_failure_short_circuits_checks is_retryable
  stops-exit_failure w =
      stops-or_match _ _ (first_match search model_limit_patterns w.failure_text) _ refl (
        stops-or_match _ _ (first_match search network_error_patterns w.failure_text) _ refl (
          stops-or_match _ _ (first_match search startup_error_patterns w.failure_text) _ refl (
            stops-or_match _ _ (first_match search broken_pipe_patterns w.failure_text) _ refl
              refl)))

  stops-stopped_failure :
      (w : Worker)
      → stops (stopped_failure search w)
        ≡ ((w.timed_out || w.idle_timed_out) || not (str_eq w.return_code "0"))
  unfolding stopped_failure timeout_failure worker_failure_short_circuits_checks is_retryable
  stops-stopped_failure w =
      stops_chosen (not (is_empty (transport_exhausted_text_reason search w.failure_text)))
        (w.timed_out || w.idle_timed_out) (str_eq w.return_code "0") _ _ (exit_failure search w)
        refl refl (stops-exit_failure w)

  stops-classify_worker_failure :
      (w : Worker)
      → stops (classify_worker_failure search w) ≡ (
          str_eq w.reference_gate_status "fail"
          || (w.transport_stopped
              || (w.budget_stopped
                  || ((w.timed_out || w.idle_timed_out) || not (str_eq w.return_code "0")))))
  unfolding classify_worker_failure worker_failure_short_circuits_checks is_retryable
  stops-classify_worker_failure w =
      stops_first (str_eq w.reference_gate_status "fail") w.transport_stopped w.budget_stopped _ _
        (budget_failure w) (stopped_failure search w) refl refl (stops-budget_failure w)
      ∙ ap
          (λ b.
            str_eq w.reference_gate_status "fail"
            || (w.transport_stopped || (w.budget_stopped || b)))
          (stops-stopped_failure w)

  -- A failure is found, and the checks of the run are passed over, exactly where the worker failed:
  -- where a reference is missing, the worker was stopped or ran out of time, or its return code is
  -- not 0; whatever its output holds.
  pub short_circuits_iff :
      (w : Worker)
      → (worker_failure_short_circuits_checks (classify_worker_failure search w) ≡ true) ↔ Fails w
  short_circuits_iff w = ground (
    arith,
    stops-classify_worker_failure w,
    eq_iff w.reference_gate_status "fail",
    eq_iff w.return_code "0",
  )
