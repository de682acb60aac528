-- ===== src/Supervisor/Failure.antt =====
-- `classify_worker_failure` of scripts/a9_supervisor.py, and the status of a run that follows from
-- it. A return code is its decimal text, "0" where it is missing. What the files of a run say, which
-- `worker_failure_text` joins, is one text. Searching a text for a regular expression, which ignores
-- case, is a parameter, `search`.
use a.Prelude.{
  ℕ, ◌-◌, String, Bool, false, not, ◌&&◌, ◌||◌, Option, none, some, List, [], ◌∷◌, ◌++◌, leb,
  if◌then◌else◌, str_eq, length,
}
use a.Text.{Text, codes, is_empty, is_space, strip, take, starts_with}

pub record Worker : Type 0 where
  pub reference_gate_status : String
  pub missing_paths : List Text
  pub transport_stopped : Bool
  pub transport_reason : Option Text
  pub budget_stopped : Bool
  pub budget_stop_kind : String
  pub budget_reason : Option Text
  pub timed_out : Bool
  pub idle_timed_out : Bool
  pub return_code : String
  pub failure_text : Text

pub record Failure : Type 0 where
  pub status : String
  pub category : String
  pub reason : Text
  pub matched_pattern : String
  pub missing_paths : List Text

abbrev pub network_error_patterns : List String
network_error_patterns =
    "\\bConnection reset by peer\\b" ∷ "\\bConnection refused\\b" ∷ "\\bConnection timed out\\b"
    ∷ "\\bTLS handshake\\b" ∷ "\\bwebsocket\\b.*\\b(error|closed|disconnect|reset)\\b"
    ∷ "\\bReconnecting\\.\\.\\." ∷ "\\bnetwork\\b.*\\b(error|unreachable|reset|timeout)\\b" ∷ []

abbrev pub startup_error_patterns : List String
startup_error_patterns =
    "\\bapp-server\\b.*\\b(init|initiali[sz]e|startup|start)\\b.*\\b(fail|error|timeout)\\b"
    ∷ "\\bfailed to (start|initialize|initialise)\\b"
    ∷ "\\bNo such file or directory\\b.*\\bcodex\\b" ∷ "\\bpermission denied\\b" ∷ []

abbrev pub broken_pipe_patterns : List String
broken_pipe_patterns = "\\bBroken pipe\\b" ∷ "\\bEPIPE\\b" ∷ []

abbrev pub model_limit_patterns : List String
model_limit_patterns =
    "\\b(hit|reached)\\b.*\\busage limit\\b" ∷ "\\busage limit\\b.*\\btry again\\b"
    ∷ "\\brate limit\\b" ∷ "\\btry again at\\b" ∷ []

-- These are searched across lines.
abbrev pub transport_exhausted_patterns : List String
transport_exhausted_patterns =
    "\\bReconnecting\\.\\.\\.\\s*5/5\\b.*\\b(timeout waiting for child process to exit|request timed out|Connection reset by peer|stream disconnected before completion)\\b"
    ∷ "\\bfailed to connect to websocket\\b.*\\bConnection reset by peer\\b"
    ∷ "\\bfailed to connect to websocket\\b.*\\btls handshake eof\\b" ∷ []

-- Runs of white space as one blank, where `true` is behind a white space.
abbrev pub collapse : Bool → Text → Text
collapse behind [] = []
collapse behind (c ∷ s) =
    let rest = collapse (is_space c) s in
    if is_space c then (if behind then rest else b' ' ∷ rest) else c ∷ rest

unfoldable pub bounded_inline : Text → ℕ → Text
unfolding is_space
bounded_inline text limit =
    let normalized = strip (collapse false text) in
    if leb (length normalized) limit then normalized else take (limit - 3) normalized ++ codes "..."

-- The first pattern that is found, with what matched.
unfoldable pub first_match :
    (String → Text → Option Text) → List String → Text → Option (String × Text)
first_match search [] text = none
first_match search (pattern ∷ patterns) text =
    let rest = first_match search patterns text in
    elim (search pattern text) [ none ↦ rest | some matched ↦ some (pattern, matched) ]

unfoldable pub transport_exhausted_text_reason : (String → Text → Option Text) → Text → Text
unfolding first_match bounded_inline
transport_exhausted_text_reason search text =
    elim (first_match search transport_exhausted_patterns text) [
      | none ↦ []
      | some (pattern, matched) ↦ codes "worker transport exhausted: " ++ bounded_inline matched 240
    ]

abbrev pub failure : String → String → Text → String → Failure
failure status category reason matched_pattern = record {
  status = status;
  category = category;
  reason = reason;
  matched_pattern = matched_pattern;
  missing_paths = [];
}

abbrev pub reason_or : Option Text → String → Text
reason_or none default = codes default
reason_or (some reason) default = reason

abbrev pub is_command_bound : String → Bool
is_command_bound kind =
    str_eq kind "command_bounds"
    || str_eq kind "outside_bounded_read_scope"
    || str_eq kind "workspace_escape"

unfoldable pub budget_failure : Worker → Failure
budget_failure w =
    if is_command_bound w.budget_stop_kind
    then failure "monitor-blocked" "process_governance"
        (reason_or w.budget_reason "worker command blocked by task bounds") w.budget_stop_kind
    else failure "retryable-worker-budget" "budget"
        (reason_or w.budget_reason "worker budget stopped") "budget_stopped"

unfoldable pub timeout_failure : Worker → Failure
timeout_failure w =
    failure "retryable-timeout" "timeout"
      (if w.timed_out then codes "worker timed out" else codes "worker idle timed out")
      (if w.timed_out then "timed_out" else "idle_timed_out")

-- The failure of a pattern that is found, or what follows.
abbrev pub or_match : String → String → Option (String × Text) → Failure → Failure
or_match status category none later = later
or_match status category (some (pattern, matched)) later = failure status category matched pattern

module _ (search : String → Text → Option Text) where
  unfoldable pub exit_failure : Worker → Failure
  unfolding first_match
  exit_failure w =
      or_match "retryable-worker-budget" "budget"
        (first_match search model_limit_patterns w.failure_text)
        (or_match "retryable-worker-network" "network"
          (first_match search network_error_patterns w.failure_text)
          (or_match "retryable-worker-startup" "startup"
            (first_match search startup_error_patterns w.failure_text)
            (or_match "retryable-worker-broken-pipe" "broken-pipe"
              (first_match search broken_pipe_patterns w.failure_text)
              (failure "retryable-worker-failed" "worker-failed"
                (codes "worker return_code=" ++ codes w.return_code) "return_code"))))

  unfoldable pub stopped_failure : Worker → Failure
  unfolding exit_failure timeout_failure transport_exhausted_text_reason
  stopped_failure w =
      let exhausted = transport_exhausted_text_reason search w.failure_text in
      let is_timed_out = w.timed_out || w.idle_timed_out in
      let is_success = str_eq w.return_code "0" in
      if not (is_empty exhausted) && (is_timed_out || not is_success)
      then failure "retryable-worker-transport" "transport" exhausted "transport_exhausted_text"
      else if is_timed_out
      then timeout_failure w
      else if is_success
      then failure "" "" [] ""
      else exit_failure w

  unfoldable pub classify_worker_failure : Worker → Failure
  unfolding stopped_failure budget_failure
  classify_worker_failure w =
      if str_eq w.reference_gate_status "fail"
      then record {
        status = "monitor-blocked";
        category = "reference_gate";
        reason = codes "prompt-declared reference paths missing from worker worktree";
        matched_pattern = "reference_gate_missing";
        missing_paths = w.missing_paths;
      }
      else if w.transport_stopped
      then failure "retryable-worker-transport" "transport"
          (reason_or w.transport_reason "worker transport exhausted") "transport_exhausted"
      else if w.budget_stopped
      then budget_failure w
      else stopped_failure w

unfoldable pub is_retryable : String → Bool
unfolding starts_with
is_retryable status = starts_with (codes status) (codes "retryable-")

unfoldable pub worker_failure_short_circuits_checks : Failure → Bool
unfolding is_retryable
worker_failure_short_circuits_checks f = is_retryable f.status || str_eq f.status "monitor-blocked"
