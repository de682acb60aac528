-- ===== src/Supervisor/Counts.antt =====
-- Each failure of a worker counts for the guard of scripts/a9_supervisor.py.
use a.Supervisor.Trips.{IsFailure}
use mathlib.Core.Path.{subst}
use mathlib.Core.Bool.{false≢true}
use a.Supervisor.Classified.{Fails, short_circuits_iff}
use a.Prelude.{
  String, ◌≡◌, ◌≢◌, refl, sym, Bool, true, false, ◌||◌, Option, if◌then◌else◌, str_eq, eq_iff,
  arith,
}
use a.Text.{Text}
use a.Supervisor.Failure.{
  Worker, classify_worker_failure, is_retryable, worker_failure_short_circuits_checks,
}
use a.Supervisor.AutoLoop.{Summary, auto_loop_failure_kind, is_final_failure}

retryable_not_empty : (status : String) → is_retryable status ≡ true → status ≢ ""
unfolding is_retryable
retryable_not_empty status h e = absurd (false≢true (subst (λ t. is_retryable t ≡ true) e h))

final_not_empty : (status : String) → is_final_failure status ≡ true → status ≢ ""
final_not_empty status h e = absurd (false≢true (subst (λ t. is_final_failure t ≡ true) e h))

blocked_is_final :
    (retryable : Bool) (status : String)
    → (retryable || str_eq status "monitor-blocked") ≡ true
    → (retryable || is_final_failure status) ≡ true
blocked_is_final true status h = refl
blocked_is_final false status h = ground (arith, eq_iff status "monitor-blocked")

chosen_not_empty :
    (r q f e : Bool) (x y : String)
    → (r ≡ true → x ≢ "")
    → (q ≡ true → y ≢ "")
    → (f ≡ true → x ≢ "")
    → (r || f) ≡ true
    → (if r then x else if q then y else if f then x else if e then "worker-envelope-fail" else "")
      ≢ ""
chosen_not_empty true q f e x y hr hq hf h = hr refl
chosen_not_empty false true f e x y hr hq hf h = hq refl
chosen_not_empty false false true e x y hr hq hf h = hf refl
chosen_not_empty false false false e x y hr hq hf h = absurd (false≢true h)

stopped_status_counts :
    (s : Summary)
    → (is_retryable s.status || str_eq s.status "monitor-blocked") ≡ true
    → IsFailure s
unfolding auto_loop_failure_kind
stopped_status_counts s h =
    chosen_not_empty (is_retryable s.status) (is_retryable s.failure_status)
      (is_final_failure s.status) (str_eq s.envelope_status "fail") s.status s.failure_status
      (retryable_not_empty s.status) (retryable_not_empty s.failure_status)
      (final_not_empty s.status) (blocked_is_final (is_retryable s.status) s.status h)

-- The failure of a worker counts: where the worker failed and the run got the failure's status, the
-- run is a failure for the guard.
pub classify-IsFailure :
    (search : String → Text → Option Text) (w : Worker) (s : Summary)
    → Fails w
    → s.status ≡ (classify_worker_failure search w).status
    → IsFailure s
unfolding worker_failure_short_circuits_checks
classify-IsFailure search w s failed same = stopped_status_counts s (
    subst (λ t. (is_retryable t || str_eq t "monitor-blocked") ≡ true) (sym same)
      ((short_circuits_iff search w).1 failed))
