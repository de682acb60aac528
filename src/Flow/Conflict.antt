-- ===== src/Flow/Conflict.antt =====
-- Optimistic concurrency of the flow operations (scripts/a9_middleware.py): `revision` and `last_seq`.
use a.Prelude.{
  ℕ, ◌+◌, ◌≤◌, String, ◌≡◌, ◌≢◌, refl, ◌⊎◌, inl, inr, Option, none, some, List, [], ◌∷◌, arith,
  Result, ok, err, or_else,
}
use native.Mathlib.Nat.{le_trans, le_refl}
use a.Flow.{
  FlowState, FlowError, TransitionArgs, revision_mismatch, receive, move, open_gap, enter_waiting,
  leave_waiting, transition_flow_state, set_waiting_flow_state, resume_waiting_flow_state,
}
use a.Flow.Outcome.{transition-ok, set_waiting-ok, resume_waiting-ok}
use a.Flow.Audit.{Call, transit, wait, resume, perform, settle, serve}

abbrev pub expected_of : Call → ℕ
expected_of (transit a _) = a.expected_revision
expected_of (wait a _) = a.expected_revision
expected_of (resume a _) = a.expected_revision

-- One step up, unless the call was a message that had been seen.
receive-revision :
    (a : TransitionArgs) (now : String) (sequence : Option ℕ) (s : FlowState)
    → (receive a now sequence s ≡ s) ⊎ ((receive a now sequence s).revision ≡ s.revision + 1)
unfolding receive
receive-revision a now none s = inr refl
receive-revision a now (some q) s = ground arith

perform-revision :
    (c : Call) (s : FlowState) {t : FlowState}
    → perform c s ≡ ok t
    → (s.revision ≡ expected_of c) × ((t ≡ s) ⊎ (t.revision ≡ s.revision + 1))
unfolding perform
perform-revision (transit a now) s h =
    let (current, result) = transition-ok a now s h in
    (current, rw result (receive-revision a _ a.sequence s))
perform-revision (wait a now) s h =
    let (current, result) = set_waiting-ok a now s h in
    (current, inr (rw result (unfold enter_waiting in refl)))
perform-revision (resume a now) s {t} h =
    let (authorised, result) = (resume_waiting-ok a now s t).0 h in
    (authorised.current, inr (rw result (unfold leave_waiting in refl)))

perform_stale :
    (c : Call) (s : FlowState)
    → s.revision ≢ expected_of c
    → perform c s ≡ err (revision_mismatch s.revision (expected_of c))
unfolding perform transition_flow_state set_waiting_flow_state resume_waiting_flow_state
perform_stale (transit a now) s h = ground arith
perform_stale (wait a now) s h = ground arith
perform_stale (resume a now) s h = ground arith

-- Of two calls that read the same revision at most one takes effect: after the first has changed
-- the flow, the second is refused with `revision_mismatch`. The alternative is that the first
-- returned the flow as it was.
pub no_lost_update :
    (first second : Call) (s t : FlowState)
    → expected_of first ≡ expected_of second
    → perform first s ≡ ok t
    → (t ≡ s) ⊎ (perform second t ≡ err (revision_mismatch t.revision (expected_of second)))
no_lost_update first second s t same h =
    let (current, after) = perform-revision first s h in
    elim after [
      | inl unchanged ↦ inl unchanged
      | inr bumped ↦ inr (perform_stale second t (omega arith))
    ]

receive-last_seq :
    (a : TransitionArgs) (now : String) (sequence : Option ℕ) (s : FlowState)
    → a.sequence ≡ sequence
    → s.last_seq ≤ (receive a now sequence s).last_seq
unfolding receive move
receive-last_seq a now none s e = rw e (le_refl s.last_seq)
receive-last_seq a now (some q) s e = ground arith

-- A numbered message is consumed, or it came too early and the flow is quarantined.
receive_consumed :
    (a : TransitionArgs) (now : String) (q : ℕ) (s : FlowState)
    → a.sequence ≡ some q
    → (receive a now (some q) s).status ≢ "quarantined"
    → q ≤ (receive a now (some q) s).last_seq
unfolding receive open_gap move
receive_consumed a now q s e calm = ground arith

perform-last_seq :
    (c : Call) (s : FlowState) {t : FlowState} → perform c s ≡ ok t → s.last_seq ≤ t.last_seq
unfolding perform
perform-last_seq (transit a now) s h =
    rw (transition-ok a now s h).1 (receive-last_seq a _ a.sequence s refl)
perform-last_seq (wait a now) s h =
    rw (set_waiting-ok a now s h).1 (unfold enter_waiting in le_refl s.last_seq)
perform-last_seq (resume a now) s {t} h =
    rw ((resume_waiting-ok a now s t).0 h).1 (unfold leave_waiting in le_refl s.last_seq)

settle-last_seq :
    (c : Call) (s : FlowState) (r : Result FlowError FlowState)
    → perform c s ≡ r
    → s.last_seq ≤ (settle s r).last_seq
unfolding settle
settle-last_seq c s (ok t) e = perform-last_seq c s e
settle-last_seq c s (err x) e = le_refl s.last_seq

serve-last_seq : (s : FlowState) (cs : List Call) → s.last_seq ≤ (serve s cs).last_seq
unfolding serve
serve-last_seq s [] = le_refl s.last_seq
serve-last_seq s (c ∷ cs) =
    le_trans (settle-last_seq c s (perform c s) refl) (serve-last_seq (settle s (perform c s)) cs)

transition_seen :
    (b : TransitionArgs) (now : String) (q : ℕ) (u : FlowState)
    → b.sequence ≡ some q
    → b.expected_last_seq ≡ none
    → b.expected_revision ≡ u.revision
    → q ≤ u.last_seq
    → transition_flow_state b now u ≡ ok u
unfolding transition_flow_state receive
transition_seen b now q u numbered unchecked current seen = ground arith

-- A numbered message takes effect at most once: when a transition with number `q` has returned a
-- flow that is not quarantined, then after any further calls a message with the same number, sent
-- for the current revision and with no `expected_last_seq`, returns the flow as it is.
pub redelivery_ignored :
    (a b : TransitionArgs) (now later : String) (q : ℕ) (s t : FlowState) (calls : List Call)
    → a.sequence ≡ some q
    → transition_flow_state a now s ≡ ok t
    → t.status ≢ "quarantined"
    → b.sequence ≡ some q
    → b.expected_last_seq ≡ none
    → b.expected_revision ≡ (serve t calls).revision
    → transition_flow_state b later (serve t calls) ≡ ok (serve t calls)
redelivery_ignored a b now later q s t calls numbered h calm numbered' unchecked current =
    transition_seen b later q (serve t calls) numbered' unchecked current
      (le_trans consumed (serve-last_seq t calls))
  where
    result : t ≡ receive a (or_else a.now now) (some q) s
    result = rw (← numbered) (transition-ok a now s h).1

    consumed : q ≤ t.last_seq
    consumed = rw result (receive_consumed a _ q s numbered (rw result at calm))
