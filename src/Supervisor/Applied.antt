-- ===== src/Supervisor/Applied.antt =====
-- What a report of `transition_managed_flow` in scripts/a9_supervisor.py means for the stored flows.
use mathlib.Core.Path.{subst}
use mathlib.Core.Bool.{false≢true}
use a.Prelude.{
  ℕ, ◌+◌, String, ◌≡◌, ◌≢◌, inl, inr, refl, sym, ap, ◌∙◌, Bool, true, ◌||◌, Option, none, some,
  Result, ok, err, leb, ◌==◌, str_eq, eq_iff, ==_iff, arith, Bool-cases, Option-cases,
}
use a.Prelude.Dict.{lookup}
use a.Text.{Text}
use a.Flow.{
  FlowState, FlowError, flow_not_found, TransitionArgs, receive, move, open_gap,
  transition_flow_state,
}
use a.Flow.Outcome.{transition-ok}
use a.Flow.Audit.{perform, settle}
use a.FlowStore.{Store, Reply, transition_flow}
use a.FlowStore.Refinement.{execute, transit-Implements}
use a.Supervisor.FlowCall.{
  FlowRequest, FlowReport, replied, redis_flow_key, mentions_error, is_delivered, reply_status,
  args_of, call_transition, transition_managed_flow,
}

fail_not_pass : ◌≢◌ {A = String} "fail" "pass"
fail_not_pass h = false≢true ((eq_iff "fail" "pass").1 h)

skipped_not_pass : ◌≢◌ {A = String} "skipped" "pass"
skipped_not_pass h = false≢true ((eq_iff "skipped" "pass").1 h)

-- The flow of the request made the step: it was at the expected revision, it is at the next one
-- with the requested status, and the other flows are as they were.
abbrev pub IsApplied : FlowRequest → Store → Store → Type 0
IsApplied r before after =
    (s t : FlowState) × (lookup (redis_flow_key r.flow_id) before.flows ≡ some s)
    × (lookup (redis_flow_key r.flow_id) after.flows ≡ some t)
    × (r.expected_revision ≡ some s.revision)
    × (t.status ≡ r.next_status)
    × (t.revision ≡ s.revision + 1)
    × ((key : String)
        → redis_flow_key r.flow_id ≢ key
        → lookup key after.flows ≡ lookup key before.flows)

transition_flow_missing :
    (key : String) (a : TransitionArgs) (now : String) (store : Store)
    → lookup key store.flows ≡ none
    → transition_flow key a now store ≡ (err flow_not_found, store)
unfolding transition_flow
transition_flow_missing key a now store missing = rw (missing, transition_flow) refl

module _ (encode : FlowState → Text) where
  reply_status-gap :
      (sequence : Option ℕ) (expected : ℕ) (s : FlowState)
      → s.terminal_reason ≡ "sequence_gap"
      → reply_status encode sequence expected (ok s) ≢ "pass"
  unfolding reply_status
  reply_status-gap sequence expected s gap h = elim (Bool-cases (mentions_error (encode s))) [
    | inl mentions ↦ fail_not_pass (ground (arith, h))
    | inr clear ↦ fail_not_pass (ground (arith, h, eq_iff s.terminal_reason "sequence_gap"))
  ]

  reply_status-delivered :
      (sequence expected : ℕ) (s : FlowState)
      → s.revision ≡ expected
      → leb sequence s.last_seq ≡ true
      → reply_status encode (some sequence) expected (ok s) ≢ "pass"
  unfolding reply_status is_delivered
  reply_status-delivered sequence expected s same old h =
      elim (Bool-cases (
        mentions_error (encode s)
        || (str_eq s.terminal_reason "sequence_gap" || str_eq s.status "quarantined"))) [
          | inl bad ↦ fail_not_pass (ground (arith, h))
          | inr fine ↦ skipped_not_pass (ground (arith, h, ==_iff s.revision expected))
        ]

  receive_passed :
      (a : TransitionArgs) (now : String) (sequence : Option ℕ) (expected : ℕ) (s : FlowState)
      → s.revision ≡ expected
      → reply_status encode sequence expected (ok (receive a now sequence s)) ≡ "pass"
      → receive a now sequence s ≡ move a now s
  unfolding receive
  receive_passed a now none expected s same h = refl
  receive_passed a now (some sequence) expected s same h =
      elim (Bool-cases (leb sequence s.last_seq)) [
        | inl old ↦ absurd (
            reply_status-delivered sequence expected s same old (
              subst (λ t. reply_status encode (some sequence) expected (ok t) ≡ "pass")
                (rw old refl) h))
        | inr new ↦ elim (Bool-cases (sequence == s.last_seq + 1)) [
          | inl next ↦ rw new (rw next refl)
          | inr gap ↦ absurd (
              reply_status-gap (some sequence) expected (open_gap a now sequence s)
                (unfold open_gap in refl)
                (subst (λ t. reply_status encode (some sequence) expected (ok t) ≡ "pass")
                  (rw new (rw gap refl)) h))
        ]
      ]

  settled_pass :
      (r : FlowRequest) (expected : ℕ) (now : String) (s : FlowState)
      (reply : Result FlowError FlowState)
      → transition_flow_state (args_of encode r expected) now s ≡ reply
      → reply_status encode r.sequence expected reply ≡ "pass"
      → (s.revision ≡ expected) × (settle s reply ≡ move (args_of encode r expected) now s)
  unfolding settle reply_status
  settled_pass r expected now s (err e) run h = absurd (fail_not_pass h)
  settled_pass r expected now s (ok t) run h =
      let a = args_of encode r expected in
      let done = transition-ok a now s run in
      let moved =
        receive_passed a now r.sequence expected s done.0
          (subst (λ x. reply_status encode r.sequence expected (ok x) ≡ "pass") done.1 h) in
      (done.0, done.1 ∙ moved)

  call_transition-IsApplied :
      (r : FlowRequest) (expected : ℕ) (now : String) (store : Store)
      → r.expected_revision ≡ some expected
      → reply_status encode r.sequence expected
          (transition_flow (redis_flow_key r.flow_id) (args_of encode r expected) now store).0
        ≡ "pass"
      → IsApplied r store
          (transition_flow (redis_flow_key r.flow_id) (args_of encode r expected) now store).1
  unfolding execute perform move reply_status
  call_transition-IsApplied r expected now store given h =
      let key = redis_flow_key r.flow_id in
      let a = args_of encode r expected in
      elim (Option-cases (lookup key store.flows)) [
        | inl missing ↦ absurd (
            fail_not_pass (
              subst (λ (x : Reply). reply_status encode r.sequence expected x.0 ≡ "pass")
                (transition_flow_missing key a now store missing) h))
        | inr (s, found) ↦
            let imp = transit-Implements key a now s store found in
            let settled =
              settled_pass r expected now s (transition_flow_state a now s) refl (
                subst (λ x. reply_status encode r.sequence expected x ≡ "pass") imp.same_reply h) in
            (
              s,
              move a now s,
              found,
              imp.stored ∙ ap (λ (t : FlowState). some t) settled.1,
              given ∙ ap (λ (n : ℕ). some n) (sym settled.0),
              refl,
              refl,
              imp.others,
            )
      ]

replied_status : (x y : String) (f g : Option FlowState) → replied x f ≡ replied y g → x ≡ y
replied_status x y f g h = cc

-- Where a call of the managed flows is reported as passed, the step was made: the flow was at the
-- expected revision, it is now at the next one with the requested status, and no other flow changed.
pub transition_managed_flow-IsApplied :
    (encode : FlowState → Text) (available : Bool) (r : FlowRequest) (now : String) (before : Store)
    (flow : Option FlowState) (after : Store)
    → transition_managed_flow encode available r now before ≡ (replied "pass" flow, after)
    → IsApplied r before after
unfolding transition_managed_flow call_transition
transition_managed_flow-IsApplied encode available r now before flow after h =
    elim (Bool-cases (str_eq r.flow_id "")) [
      | inl blank ↦ absurd (ground (arith, h))
      | inr named ↦ elim (Option-cases r.expected_revision) [
        | inl missing ↦ absurd (ground (arith, h))
        | inr (expected, given) ↦ elim (Bool-cases available) [
          | inr away ↦ absurd (ground (arith, h))
          | inl answers ↦
              let sent : call_transition encode r expected now before
                  ≡ (replied "pass" flow, after) =
                ground (arith, h) in
              subst (λ x. IsApplied r before x) (ap (λ (x : FlowReport × Store). x.1) sent)
                (call_transition-IsApplied encode r expected now before given
                  (replied_status _ _ _ _ (ap (λ (x : FlowReport × Store). x.0) sent)))
        ]
      ]
    ]
