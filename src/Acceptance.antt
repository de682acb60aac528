-- ===== src/Acceptance.antt =====
-- `decide_status` of scripts/a9_supervisor.py: what becomes of a run, from the reports on it. An
-- argument that may be `None` or an empty dictionary is an `Option`, and a missing status is "".
-- `failure_status` is the status that `classify_worker_failure` gives, "" for none. A count or a
-- return code is a number; a negative return code stands as any number other than 0.
pub mod Passing
mod Tests
use a.Prelude.{
  ℕ, String, Bool, true, false, not, ◌&&◌, ◌||◌, Option, none, some, List, [], ◌∷◌, ◌==◌,
  if◌then◌else◌, str_eq,
}
use a.Text.{Text, strip, is_empty}

-- A finding of the process governance.
pub record Finding : Type 0 where
  pub level : String
  pub kind : String

pub record ProcessGovernance : Type 0 where
  pub status : String
  pub direct_file_change_policy : String
  pub findings : List Finding

-- What `decide_status` reads of the report of an application.
pub record PatchApplyReport : Type 0 where
  pub status : String
  pub touched_files : List Text
  pub applied_count : ℕ
  pub already_applied_count : ℕ
  pub success_count : ℕ

-- `changed_files` is `none` where the envelope, its output or the list in it is missing.
pub record WorkerEnvelope : Type 0 where
  pub status : String
  pub changed_files : Option (List Text)

pub record Evidence : Type 0 where
  pub failure_status : String
  pub diff_bytes : ℕ
  pub return_codes : List ℕ
  pub patch_guard : String
  pub scope_guard : String
  pub patch_apply : Option PatchApplyReport
  pub worker_envelope : Option WorkerEnvelope
  pub process_governance : Option ProcessGovernance
  pub allow_no_diff : Bool

abbrev pub is_error : Finding → Bool
is_error f = str_eq f.level "error"

abbrev pub is_direct_change : Finding → Bool
is_direct_change f = str_eq f.kind "direct_file_change_event"

unfoldable pub error_findings : List Finding → List Finding
error_findings [] = []
error_findings (f ∷ fs) = let rest = error_findings fs in if is_error f then f ∷ rest else rest

unfoldable pub all_direct : List Finding → Bool
all_direct [] = true
all_direct (f ∷ fs) = is_direct_change f && all_direct fs

unfoldable pub any_direct : List Finding → Bool
any_direct [] = false
any_direct (f ∷ fs) = is_direct_change f || any_direct fs

unfoldable pub any_text : List Text → Bool
any_text [] = false
any_text (item ∷ items) = not (is_empty (strip item)) || any_text items

-- The last tests of `changed_files_claim_without_patch_evidence`.
unfoldable pub no_patch_evidence : Option PatchApplyReport → Bool
unfolding any_text
no_patch_evidence none = true
no_patch_evidence (some r) =
    not (any_text r.touched_files)
    && (r.applied_count == 0 && (r.already_applied_count == 0 && r.success_count == 0))

unfoldable pub declares : Option WorkerEnvelope → Bool
unfolding any_text
declares none = false
declares (some e) = elim e.changed_files [ none ↦ false | some items ↦ any_text items ]

unfoldable pub changed_files_claim_without_patch_evidence : Evidence → Bool
unfolding declares no_patch_evidence
changed_files_claim_without_patch_evidence e =
    declares e.worker_envelope && (e.diff_bytes == 0 && no_patch_evidence e.patch_apply)

pub data RunStatus : Type 0 where
  pass needs_approval needs_repair needs_followup monitor_blocked : RunStatus
  worker_failed : String → RunStatus

abbrev pub envelope_status : Option WorkerEnvelope → String
envelope_status none = ""
envelope_status (some e) = e.status

abbrev pub apply_status : Option PatchApplyReport → String
apply_status none = ""
apply_status (some r) = r.status

abbrev pub governance_status : Option ProcessGovernance → String
governance_status none = ""
governance_status (some g) = g.status

abbrev pub governance_policy : Option ProcessGovernance → String
governance_policy none = ""
governance_policy (some g) = g.direct_file_change_policy

abbrev pub governance_errors : Option ProcessGovernance → List Finding
governance_errors none = []
governance_errors (some g) = error_findings g.findings

-- process_governance_has_only_direct_file_change_errors, where the status is "fail".
unfoldable pub only_direct_errors : List Finding → Bool
unfolding all_direct
only_direct_errors errors = not (is_empty errors) && all_direct errors

unfoldable pub all_zero : List ℕ → Bool
all_zero [] = true
all_zero (code ∷ rest) = code == 0 && all_zero rest

unfoldable pub blocked_status : Evidence → RunStatus
unfolding any_direct
blocked_status e =
    if str_eq (governance_policy e.process_governance) "repair"
      && any_direct (governance_errors e.process_governance)
    then needs_repair
    else monitor_blocked

unfoldable pub decide_status : Evidence → RunStatus
unfolding blocked_status only_direct_errors all_zero changed_files_claim_without_patch_evidence
decide_status e =
    if not (str_eq e.failure_status "")
    then worker_failed e.failure_status
    else if str_eq (envelope_status e.worker_envelope) "needs-approval"
    then needs_approval
    else if str_eq (envelope_status e.worker_envelope) "fail"
    then needs_repair
    else if str_eq (apply_status e.patch_apply) "skip-dirty-worktree"
        && str_eq (governance_policy e.process_governance) "repair"
    then needs_repair
    else if str_eq (apply_status e.patch_apply) "fail"
    then needs_repair
    else if str_eq e.patch_guard "fail"
    then needs_repair
    else if str_eq e.scope_guard "fail"
    then needs_repair
    else if str_eq (governance_status e.process_governance) "fail"
        && not (only_direct_errors (governance_errors e.process_governance))
    then blocked_status e
    else if not (all_zero e.return_codes)
    then needs_repair
    else if changed_files_claim_without_patch_evidence e
    then needs_repair
    else if e.diff_bytes == 0 && not e.allow_no_diff
    then needs_followup
    else pass
