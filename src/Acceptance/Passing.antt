-- ===== src/Acceptance/Passing.antt =====
-- When a run passes (scripts/a9_supervisor.py).
use a.Prelude.{
  inr, inl, Option-cases, ℕ, String, ◌≡◌, ◌≢◌, refl, ◌⊎◌, ◌↔◌, Bool, true, false, not, ◌&&◌, List,
  [], ◌∷◌, ◌==◌, if◌then◌else◌, str_eq, eq_iff, arith, All,
}
use mathlib.Core.Bool.{false≢true}
use a.Prelude.{Option, none, some, inl, inr, Option-cases, sym}
use a.Text.{Text, strip, is_empty}
use a.Acceptance.{
  Finding, ProcessGovernance, PatchApplyReport, WorkerEnvelope, error_findings, all_direct,
  any_text, no_patch_evidence, declares,
}
use a.Acceptance.{
  strip, some, is_empty, PatchApplyReport, WorkerEnvelope, ProcessGovernance, no_patch_evidence,
  error_findings, Finding, any_text, Text, Option, all_direct, declares, needs_followup, Evidence,
  RunStatus, needs_repair, needs_approval, worker_failed, pass, envelope_status, apply_status,
  governance_status, governance_policy, governance_errors, only_direct_errors, all_zero,
  blocked_status, decide_status, changed_files_claim_without_patch_evidence,
}

-- A finding is an error.
abbrev pub IsError : Finding → Type 0
IsError f = f.level ≡ "error"

-- The property holds of one of them.
abbrev pub Some {ℓ} : {A : Type ℓ} → (A → Type 0) → List A → Type 0
Some P [] = ⊥
Some P (x ∷ xs) = P x ⊎ Some P xs

-- There is an error, and each one is a file change made directly.
abbrev pub OnlyDirect : List Finding → Type 0
OnlyDirect findings =
    Some IsError findings × All (λ f. IsError f → f.kind ≡ "direct_file_change_event") findings

abbrev pub governance_findings : Option ProcessGovernance → List Finding
governance_findings none = []
governance_findings (some g) = g.findings

-- One of the texts is not blank.
abbrev pub NamesOne : List Text → Type 0
NamesOne = Some (λ item. is_empty (strip item) ≡ false)

-- The worker's envelope claims a changed file.
abbrev pub ClaimsFile : Option WorkerEnvelope → Type 0
ClaimsFile none = ⊥
ClaimsFile (some e) = elim e.changed_files [ none ↦ ⊥ | some items ↦ NamesOne items ]

-- The report of the application speaks of an edit.
abbrev pub ShowsEdit : Option PatchApplyReport → Type 0
ShowsEdit none = ⊥
ShowsEdit (some r) =
    NamesOne r.touched_files
    ⊎ ((r.applied_count ≢ 0) ⊎ ((r.already_applied_count ≢ 0) ⊎ (r.success_count ≢ 0)))

-- What a run needs to pass.
pub record Passes (e : Evidence) : Type 0 where
  pub worked : e.failure_status ≡ ""
  pub unasked : envelope_status e.worker_envelope ≢ "needs-approval"
  pub answered : envelope_status e.worker_envelope ≢ "fail"
  pub tree_clean : ¬ (
      (apply_status e.patch_apply ≡ "skip-dirty-worktree")
      × (governance_policy e.process_governance ≡ "repair"))
  pub applied : apply_status e.patch_apply ≢ "fail"
  pub patch_guarded : e.patch_guard ≢ "fail"
  pub scope_guarded : e.scope_guard ≢ "fail"
  pub governed :
      (governance_status e.process_governance ≢ "fail")
      ⊎ OnlyDirect (governance_findings e.process_governance)
  pub checked : All (λ code. code ≡ 0) e.return_codes
  pub evident : ClaimsFile e.worker_envelope → (e.diff_bytes ≢ 0) ⊎ ShowsEdit e.patch_apply
  pub changed : (e.diff_bytes ≢ 0) ⊎ (e.allow_no_diff ≡ true)

all_zero_iff : (codes : List ℕ) → (all_zero codes ≡ true) ↔ All (λ code. code ≡ 0) codes
unfolding all_zero
all_zero_iff [] = (λ h. tt, λ h. refl)
all_zero_iff (code ∷ rest) = ground (arith, all_zero_iff rest)

-- A test that sends a run away.
step :
    {P Q : Type 0} (test : Bool) (x y : RunStatus)
    → x ≢ pass
    → (test ≡ false) ↔ P
    → (y ≡ pass) ↔ Q
    → ((if test then x else y) ≡ pass) ↔ (P × Q)
step true x y away p q = (λ h. absurd (away h), λ h. absurd (ground (arith, p.1 h.0)))
step false x y away p q = (λ h. (p.0 refl, q.0 h), λ h. q.1 h.1)

ne_iff : (s t : String) → (str_eq s t ≡ false) ↔ (s ≢ t)
ne_iff s t = ground (arith, eq_iff s t)

any_text_iff : (items : List Text) → (any_text items ≡ true) ↔ NamesOne items
unfolding any_text
any_text_iff [] = (λ h. absurd (false≢true h), λ h. absurd h)
any_text_iff (item ∷ items) = ground (arith, any_text_iff items)

declares_iff : (e : Option WorkerEnvelope) → (declares e ≡ true) ↔ ClaimsFile e
unfolding declares
declares_iff none = (λ h. absurd (false≢true h), λ h. absurd h)
declares_iff (some e) = elim (Option-cases e.changed_files) [
  | inl missing ↦ rw missing (λ h. absurd (false≢true h), λ h. absurd h)
  | inr (items, there) ↦ rw there (any_text_iff items)
]

no_patch_evidence_iff : (r : Option PatchApplyReport) → (no_patch_evidence r ≡ false) ↔ ShowsEdit r
unfolding no_patch_evidence
no_patch_evidence_iff none = (λ h. absurd (false≢true (sym h)), λ h. absurd h)
no_patch_evidence_iff (some r) = ground (arith, any_text_iff r.touched_files)

-- Each error is a file change made directly.
all_direct_iff :
    (findings : List Finding)
    → (all_direct (error_findings findings) ≡ true)
      ↔ All (λ f. IsError f → f.kind ≡ "direct_file_change_event") findings
unfolding all_direct error_findings
all_direct_iff [] = (λ h. tt, λ h. refl)
all_direct_iff (g ∷ findings) = ground (
  arith,
  all_direct_iff findings,
  eq_iff g.level "error",
  eq_iff g.kind "direct_file_change_event",
)

Some-IsError_iff :
    (findings : List Finding) → (is_empty (error_findings findings) ≡ false) ↔ Some IsError findings
unfolding error_findings
Some-IsError_iff [] = (λ h. absurd (false≢true (sym h)), λ h. absurd h)
Some-IsError_iff (g ∷ findings) = ground (arith, Some-IsError_iff findings, eq_iff g.level "error")

only_direct_errors_iff :
    (g : Option ProcessGovernance)
    → (only_direct_errors (governance_errors g) ≡ true) ↔ OnlyDirect (governance_findings g)
unfolding only_direct_errors
only_direct_errors_iff none = (λ h. absurd (false≢true h), λ h. absurd h.0)
only_direct_errors_iff (some g) =
    ground (arith, all_direct_iff g.findings, Some-IsError_iff g.findings)

blocked_status-away : (e : Evidence) → blocked_status e ≢ pass
unfolding blocked_status
blocked_status-away e = ground arith

needs_repair-away : needs_repair ≢ pass
needs_repair-away h = ground arith

needs_approval-away : needs_approval ≢ pass
needs_approval-away h = ground arith

worker_failed-away : (status : String) → worker_failed status ≢ pass
worker_failed-away status h = ground arith

module _ (e : Evidence) where
  test_clean :
      (str_eq (apply_status e.patch_apply) "skip-dirty-worktree"
          && str_eq (governance_policy e.process_governance) "repair"
        ≡ false)
      ↔ (¬ (
          (apply_status e.patch_apply ≡ "skip-dirty-worktree")
          × (governance_policy e.process_governance ≡ "repair")))
  test_clean = ground (
    arith,
    eq_iff (apply_status e.patch_apply) "skip-dirty-worktree",
    eq_iff (governance_policy e.process_governance) "repair",
  )

  test_governed :
      (str_eq (governance_status e.process_governance) "fail"
          && not (only_direct_errors (governance_errors e.process_governance))
        ≡ false)
      ↔ ((governance_status e.process_governance ≢ "fail")
          ⊎ OnlyDirect (governance_findings e.process_governance))
  test_governed = ground (
    arith,
    eq_iff (governance_status e.process_governance) "fail",
    only_direct_errors_iff e.process_governance,
  )

  test_evident :
      (changed_files_claim_without_patch_evidence e ≡ false)
      ↔ (ClaimsFile e.worker_envelope → (e.diff_bytes ≢ 0) ⊎ ShowsEdit e.patch_apply)
  unfolding changed_files_claim_without_patch_evidence
  test_evident = ground (arith, declares_iff e.worker_envelope, no_patch_evidence_iff e.patch_apply)

  test_worked : (not (str_eq e.failure_status "") ≡ false) ↔ (e.failure_status ≡ "")
  test_worked = ground (arith, eq_iff e.failure_status "")

  test_checked : (not (all_zero e.return_codes) ≡ false) ↔ All (λ code. code ≡ 0) e.return_codes
  test_checked = ground (arith, all_zero_iff e.return_codes)

  last_test :
      ((if e.diff_bytes == 0 && not e.allow_no_diff then needs_followup else pass) ≡ pass)
      ↔ ((e.diff_bytes ≢ 0) ⊎ (e.allow_no_diff ≡ true))
  last_test = ground arith

  -- A run passes exactly where nothing speaks against it: the worker did not fail and its envelope
  -- neither fails nor asks for approval; the edit was applied, or at least did not fail, and was
  -- not skipped for a dirty tree under the policy "repair"; neither guard failed; the process
  -- governance did not fail, or its errors are file changes made directly, and there is one; every
  -- check returned 0; no changed file is claimed without evidence; and there is a diff, or none is
  -- needed.
  pub decide_status_iff : (decide_status e ≡ pass) ↔ Passes e
  unfolding decide_status
  decide_status_iff =
      let tests = step _ _ _ (worker_failed-away e.failure_status) test_worked (
        step _ _ _ needs_approval-away (ne_iff (envelope_status e.worker_envelope) "needs-approval")
          (step _ _ _ needs_repair-away (ne_iff (envelope_status e.worker_envelope) "fail") (
            step _ _ _ needs_repair-away test_clean (
              step _ _ _ needs_repair-away (ne_iff (apply_status e.patch_apply) "fail") (
                step _ _ _ needs_repair-away (ne_iff e.patch_guard "fail") (
                  step _ _ _ needs_repair-away (ne_iff e.scope_guard "fail") (
                    step _ _ _ (blocked_status-away e) test_governed (
                      step _ _ _ needs_repair-away test_checked
                        (step _ _ _ needs_repair-away test_evident last_test))))))))) in
      (
        λ h.
            let (a, (b, (c, (d, (f, (g, (i, (j, (k, (l, m)))))))))) = tests.0 h in
            record {
              worked = a;
              unasked = b;
              answered = c;
              tree_clean = d;
              applied = f;
              patch_guarded = g;
              scope_guarded = i;
              governed = j;
              checked = k;
              evident = l;
              changed = m;
            },
        λ p. tests.1 (
          p.worked,
          (
            p.unasked,
            (
              p.answered,
              (
                p.tree_clean,
                (
                  p.applied,
                  (
                    p.patch_guarded,
                    (p.scope_guarded, (p.governed, (p.checked, (p.evident, p.changed)))),
                  ),
                ),
              ),
            ),
          ),
        ),
      )
