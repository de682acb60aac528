-- ===== src/Recovery.antt =====
-- scripts/a9_recovery_loop.py: what is observed of the controller, what is executed, and the loop.
-- The controller is a parameter of the loop: what each cycle reads of it, or the error, and what it
-- answers to a POST. A missing key is the empty text, as the code reads it with `or`. The time that
-- a cycle writes is an argument. Errors that the code does not catch are left out.
pub mod Cycle
pub mod Streak
pub mod Posts
pub mod Loop
mod Tests
use a.Prelude.{
  ℕ, zero, suc, ◌+◌, Bool, true, false, not, ◌&&◌, ◌||◌, Option, none, some, List, [], ◌∷◌, ◌++◌,
  leb, if◌then◌else◌,
}
use a.Text.{Text, codes, text_eq, is_empty}

-- The action plan and the recovery cycle, as they are read.
pub record Plan : Type 0 where
  pub plan_status : Text
  pub action : Text
  pub priority_source : Text
  pub endpoint : Text
  pub payload : Text

pub record CycleReport : Type 0 where
  pub status : Text
  pub step_count : ℕ
  pub risk_count : ℕ

pub data Reading : Type 0 where
  answered : (plan : Plan) (cycle : CycleReport) → Reading
  unavailable : (error : Text) → Reading

pub data Execution : Type 0 where
  observe_only unsupported_route execution_failed : Execution
  executed : (payload answer : Text) → Execution

-- The result of a cycle, as far as the rest reads it.
pub record Observed : Type 0 where
  pub status : Text
  pub checked_at : Text
  pub plan_status : Text
  pub action : Text
  pub priority_source : Text
  pub endpoint : Text
  pub payload : Text
  pub cycle_status : Text
  pub risk_count : ℕ
  pub execute_enabled : Bool

pub record Observation : Type 0 where
  pub current_key : Text
  pub action : Text
  pub priority_source : Text
  pub plan_status : Text
  pub streak : ℕ
  pub first_seen_at : Text
  pub last_seen_at : Text
  pub recommendation : Text
  pub endpoint : Text
  pub auto_execute : Bool

pub record Suggestion : Type 0 where
  pub suggestion_id : Text
  pub created_at : Text
  pub updated_at : Text
  pub observation : Observation
  pub cycle_status : Text
  pub risk_count : ℕ

-- The files that the cycles write, and the requests that were sent.
pub record State : Type 0 where
  pub observation : Option Observation
  pub pending : List Suggestion
  pub posts : List (Text × Text)

abbrev pub or_text : Text → Text → Text
or_text value default = if is_empty value then default else value

unfoldable pub key_of : Observed → Text
key_of r =
    or_text r.priority_source (codes "unknown")
    ++ codes ":"
    ++ or_text r.action (codes "unknown")
    ++ codes ":"
    ++ or_text r.plan_status (codes "unknown")

-- Whether the action and the plan ask for more than to go on.
unfoldable pub needs_review : Observed → Bool
unfolding text_eq
needs_review r =
    let action = or_text r.action (codes "unknown") in
    let plan_status = or_text r.plan_status (codes "unknown") in
    not (text_eq action (codes "continue") || text_eq action (codes "observe"))
    && not (text_eq plan_status (codes "noop") || text_eq plan_status (codes "unknown"))

unfoldable pub same_key : Text → Option Observation → Bool
unfolding text_eq
same_key key none = is_empty key
same_key key (some previous) = text_eq previous.current_key key

abbrev pub previous_streak : Option Observation → ℕ
previous_streak none = 0
previous_streak (some previous) = previous.streak

abbrev pub previous_first_seen : Option Observation → Text
previous_first_seen none = []
previous_first_seen (some previous) = previous.first_seen_at

abbrev pub recommendation_of : Bool → ℕ → Text
recommendation_of review streak =
    if review
    then (if leb 2 streak then codes "candidate_for_repair_one" else codes "operator_review")
    else codes "continue_observation"

unfoldable pub communication_observation_update : Observed → Option Observation → Observation
unfolding key_of needs_review same_key
communication_observation_update r previous =
    let key = key_of r in
    let is_same = same_key key previous in
    let streak = if is_same then previous_streak previous + 1 else 1 in
    record {
      current_key = key;
      action = or_text r.action (codes "unknown");
      priority_source = or_text r.priority_source (codes "unknown");
      plan_status = or_text r.plan_status (codes "unknown");
      streak = streak;
      first_seen_at =
          if is_same then or_text (previous_first_seen previous) r.checked_at else r.checked_at;
      last_seen_at = r.checked_at;
      recommendation = recommendation_of (needs_review r) streak;
      endpoint = r.endpoint;
      auto_execute = r.execute_enabled;
    }

-- key.replace(":", "-")
abbrev pub dashed : Text → Text
dashed [] = []
dashed (c ∷ s) = (if text_eq (c ∷ []) (codes ":") then b'-' else c) ∷ dashed s

-- The pending suggestions of the queue that is written.
unfoldable pub communication_repair_suggestions_update : Observation → Observed → List Suggestion
unfolding text_eq
communication_repair_suggestions_update o r =
    if text_eq o.recommendation (codes "candidate_for_repair_one")
    then record {
      suggestion_id = dashed (or_text o.current_key (codes "unknown"));
      created_at = or_text o.first_seen_at o.last_seen_at;
      updated_at = o.last_seen_at;
      observation = o;
      cycle_status = r.cycle_status;
      risk_count = r.risk_count;
    }
      ∷ []
    else []

abbrev pub repair_one : Text
repair_one = codes "/api/communication/repair-one"

abbrev pub is_fine : Text → Bool
is_fine status =
    text_eq status (codes "ok")
    || text_eq status (codes "needs_attention")
    || text_eq status (codes "blocked")

unfoldable pub observed_of : Bool → Text → Reading → Observed
observed_of execute now (answered plan cycle) =
    let status = or_text cycle.status (codes "unknown") in
    record {
      status = if is_fine status then codes "ok" else codes "degraded";
      checked_at = now;
      plan_status = or_text plan.plan_status (codes "unknown");
      action = plan.action;
      priority_source = plan.priority_source;
      endpoint = plan.endpoint;
      payload = plan.payload;
      cycle_status = status;
      risk_count = cycle.risk_count;
      execute_enabled = execute;
    }
observed_of execute now (unavailable error) = record {
  status = codes "degraded";
  checked_at = now;
  plan_status = codes "unavailable";
  action = codes "intervene";
  priority_source = codes "controller";
  endpoint = [];
  payload = [];
  cycle_status = codes "unavailable";
  risk_count = 0;
  execute_enabled = execute;
}
