-- ===== src/Acceptance/Tests.antt =====
-- Runs of the decision.
use a.Prelude.{◌≡◌, ◌↔◌, refl, false, some, none, [], ◌∷◌}
use a.Text.{codes, strip_by, is_space}
use a.Acceptance.{Evidence, pass, needs_repair, decide_status}
use a.Acceptance.Passing.{Passes, decide_status_iff}

abbrev good : Evidence
good = record {
  failure_status = "";
  diff_bytes = 120;
  return_codes = 0 ∷ 0 ∷ [];
  patch_guard = "pass";
  scope_guard = "pass";
  patch_apply = none;
  worker_envelope = some (record { status = "pass"; changed_files = some (codes "a.py" ∷ []) });
  process_governance = none;
  allow_no_diff = false;
}

good_passes : decide_status good ≡ pass
unfolding decide_status strip_by is_space
good_passes = refl

-- The same claim of a changed file, without a diff.
claim_refused : decide_status (record good { diff_bytes = 0 }) ≡ needs_repair
unfolding decide_status strip_by is_space
claim_refused = refl

decide_status_iff_example : (decide_status good ≡ pass) ↔ Passes good
decide_status_iff_example = decide_status_iff good
