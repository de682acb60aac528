-- ===== src/FlowStore/Refinement.antt =====
-- The stored procedures do to the stored flow what the pure operations of scripts/a9_middleware.py
-- do to a flow.
use mathlib.Core.Bool.{false≢true}
use a.Prelude.{
  Bool, ◌&&◌, sym, ◌∙◌, ◌⊎◌, ◌↔◌, true, false, ◌==◌, inr, inl, ◌>>=◌, Bool-cases, ℕ, ◌+◌, String,
  ◌≡◌, ◌≢◌, refl, Option, none, some, Result, ok, err, arith, eq_iff,
}
use a.Prelude.Dict.{lookup, lookup-insert_self, lookup-insert_ne}
use a.Flow.{
  flow_not_found, approval_mismatch, script_error, FlowState, FlowError, TransitionArgs, WaitArgs,
  ResumeArgs, receive, move, open_gap, enter_waiting, leave_waiting, waiting_approval_id,
  waiting_resume_token, effective_approval_id, transition_flow_state, set_waiting_flow_state,
  resume_waiting_flow_state, check_last_seq,
}
use a.Flow.Audit.{Call, transit, wait, resume, perform, settle}
use a.FlowStore.{
  waiting_is_null, str_eq, decided_state, leb, Event, Store, Reply, save, transition_flow,
  set_waiting_flow, resume_flow, transition_state, wait_state, resume_state, sequenced,
  unexpected_last_seq,
}

-- The procedure replied `r` about the flow `s` under `key`: the store holds the flow that `r`
-- leaves, and every other flow is as it was.
pub record Implements (key : String) (s : FlowState) (r : Result FlowError FlowState) (st : Store)
    (reply : Reply) : Type 0 where
  pub same_reply : reply.0 ≡ r
  pub stored : lookup key reply.1.flows ≡ some (settle s r)
  pub others : (j : String) → key ≢ j → lookup j reply.1.flows ≡ lookup j st.flows

module _ (key : String) (s : FlowState) (st : Store) where
  unchanged :
      (r : Result FlowError FlowState)
      → lookup key st.flows ≡ some s
      → settle s r ≡ s
      → Implements key s r st (r, st)
  unchanged r found same = record {
    same_reply = refl;
    stored = rw same found;
    others = λ j h. refl;
  }

  saved : (t : FlowState) (e : Event) → Implements key s (ok t) st (save key t e st)
  unfolding save settle
  saved t e = record {
    same_reply = refl;
    stored = lookup-insert_self key t st.flows;
    others = λ j h. lookup-insert_ne j key t st.flows h;
  }

-- The arguments of the pure operation that stamps what it writes with `now`.
abbrev pub stamped : TransitionArgs → TransitionArgs
stamped a = record a { now = none }

module _ (key : String) (now : String) (s : FlowState) (st : Store)
    (found : lookup key st.flows ≡ some s) where
  sequenced-Implements :
      (a : TransitionArgs) (sequence : Option ℕ)
      → a.sequence ≡ sequence
      → Implements key s
          (ok (receive (stamped a) now sequence s))
          st
          (sequenced key a now sequence s st)
  unfolding sequenced receive
  sequenced-Implements a none e = unfold move in rw e (saved key s st _ _)
  sequenced-Implements a (some q) e = elim (Bool-cases (leb q s.last_seq)) [
    | inl old ↦ rw old (unchanged key s st (ok s) found (unfold settle in refl))
    | inr new ↦ rw new (elim (Bool-cases (q == s.last_seq + 1)) [
      | inl next ↦ rw next (unfold move in rw e (saved key s st _ _))
      | inr later ↦ rw later (unfold open_gap in saved key s st _ _)
    ])
  ]

  checked-Implements :
      (a : TransitionArgs) (expected : Option ℕ)
      → Implements key s
          (check_last_seq expected s.last_seq >>= λ _. ok (receive (stamped a) now a.sequence s))
          st
          (elim (unexpected_last_seq expected s.last_seq) [
            | some e ↦ (err e, st)
            | none ↦ sequenced key a now a.sequence s st
          ])
  unfolding check_last_seq unexpected_last_seq
  checked-Implements a none = sequenced-Implements a a.sequence refl
  checked-Implements a (some expected) = elim (Bool-cases (s.last_seq == expected)) [
    | inl same ↦ rw same (sequenced-Implements a a.sequence refl)
    | inr other ↦ rw other (unchanged key s st (err _) found (unfold settle in refl))
  ]

  transition_state-Implements :
      (a : TransitionArgs)
      → Implements key s
          (transition_flow_state (stamped a) now s)
          st
          (transition_state key a now s st)
  unfolding transition_state transition_flow_state
  transition_state-Implements a = elim (Bool-cases (s.revision == a.expected_revision)) [
    | inl current ↦ rw current (checked-Implements a a.expected_last_seq)
    | inr stale ↦ rw stale (unchanged key s st (err _) found (unfold settle in refl))
  ]

  wait_state-Implements :
      (a : WaitArgs)
      → Implements key s
          (set_waiting_flow_state (record a { now = none }) now s)
          st
          (wait_state key a now s st)
  unfolding wait_state set_waiting_flow_state
  wait_state-Implements a = elim (Bool-cases (s.revision == a.expected_revision)) [
    | inl current ↦ rw current (unfold enter_waiting effective_approval_id in saved key s st _ _)
    | inr stale ↦ rw stale (unchanged key s st (err _) found (unfold settle in refl))
  ]

  decided_state-Implements :
      (a : ResumeArgs)
      → str_eq a.approval_id "" ≡ false
      → Implements key s
          (ok (leave_waiting (record a { now = none }) now s))
          st
          (decided_state key a now s st)
  unfolding decided_state leave_waiting
  decided_state-Implements a named = rw named (saved key s st _ _)

  resume_state-Implements :
      (a : ResumeArgs)
      → str_eq a.approval_id "" ≡ false
      → ((s.revision == a.expected_revision) ≡ true
          → str_eq s.status "waiting" ≡ true
          → waiting_is_null s ≡ false)
      → Implements key s
          (resume_waiting_flow_state (record a { now = none }) now s)
          st
          (resume_state key a now s st)
  unfolding resume_state resume_waiting_flow_state
  resume_state-Implements a named there =
      rw named (elim (Bool-cases (s.revision == a.expected_revision)) [
        | inr stale ↦ rw stale (fails _)
        | inl current ↦ rw current (elim (Bool-cases (str_eq s.status "waiting")) [
          | inr busy ↦ rw busy (fails _)
          | inl waits ↦ rw waits (
              rw (there current waits)
                (elim (Bool-cases (str_eq a.approval_id (waiting_approval_id s.waiting))) [
                  | inr other ↦ rw other (fails _)
                  | inl same ↦ rw same (elim (Bool-cases (str_eq a.resume_token "")) [
                    | inl absent ↦ rw absent (decided_state-Implements a named)
                    | inr token ↦
                        rw token
                          (elim (Bool-cases
                            (str_eq a.resume_token (waiting_resume_token s.waiting))) [
                              | inl held ↦ rw held (decided_state-Implements a named)
                              | inr wrong ↦ rw wrong (fails _)
                            ])
                  ])
                ]))
        ])
      ])
    where
      fails : (e : FlowError) → Implements key s (err e) st (err e, st)
      fails e = unchanged key s st (err e) found (unfold settle in refl)

-- A call of the procedures: the flow's key and what is asked of it.
unfoldable pub execute : String → Call → Store → Reply
execute key (transit a now) st = transition_flow key a now st
execute key (wait a now) st = set_waiting_flow key a now st
execute key (resume a now) st = resume_flow key a now st

-- The same call of the pure operations, which stamp what they write with the clock.
abbrev pub pure_call : Call → Call
pure_call (transit a now) = transit (record a { now = none }) now
pure_call (wait a now) = wait (record a { now = none }) now
pure_call (resume a now) = resume (record a { now = none }) now

-- A decision gives the approval id; a decision by token alone is excluded.
abbrev pub NamesRequest : Call → Type 0
NamesRequest (resume a _) = a.approval_id ≢ ""
NamesRequest _ = Unit

-- A decision, at the revision of a flow that is "waiting" without a request: an earlier decision
-- took it away.
abbrev pub MeetsNull : Call → FlowState → Type 0
MeetsNull (resume a _) s =
    (s.revision ≡ a.expected_revision)
    × (s.status ≡ "waiting")
    × (s.waiting ≡ none)
    × (s.last_approval ≢ none)
MeetsNull _ _ = ⊥

-- The script was aborted, and the store is as it was; the pure operation raises.
abbrev pub Aborts : String → Call → FlowState → Store → Type 0
Aborts key c s st =
    (execute key c st ≡ (err script_error, st))
    × ((e : FlowError) × (perform (pure_call c) s ≡ err e))

module _ (key now : String) (a : ResumeArgs) (s : FlowState) where
  meets_null : Bool
  meets_null =
      (s.revision == a.expected_revision) && (str_eq s.status "waiting" && waiting_is_null s)

  meets_null_iff : (meets_null ≡ true) ↔ MeetsNull (resume a now) s
  unfolding waiting_is_null meets_null
  meets_null_iff = ground (arith, eq_iff s.status "waiting")

  meets_null-not :
      meets_null ≡ false
      → (s.revision == a.expected_revision) ≡ true
      → str_eq s.status "waiting" ≡ true
      → waiting_is_null s ≡ false
  unfolding meets_null
  meets_null-not h current waits = ground arith

  resume-Aborts :
      (st : Store)
      → lookup key st.flows ≡ some s
      → a.approval_id ≢ ""
      → MeetsNull (resume a now) s
      → Aborts key (resume a now) s st
  unfolding execute perform resume_flow resume_state resume_waiting_flow_state waiting_is_null
  resume-Aborts st found named meets = (
    ground (arith, eq_iff s.status "waiting", eq_iff a.approval_id ""),
    (
      approval_mismatch,
      ground (
        arith,
        eq_iff s.status "waiting",
        eq_iff a.approval_id "",
        eq_iff a.approval_id (waiting_approval_id s.waiting),
      ),
    ),
  )

-- Each procedure, called for a flow that is stored, replies what the pure operation returns or
-- raises, stores the flow that it returns (the old one where it raises), and leaves every other
-- flow alone; but a decision on a flow that waits without a request, which an earlier decision took
-- away, is aborted with a script error and changes nothing, where the pure operation raises an
-- error of its own. A decision must give an approval id.
pub execute-Implements :
    (key : String) (c : Call) (s : FlowState) (st : Store)
    → lookup key st.flows ≡ some s
    → NamesRequest c
    → (MeetsNull c s × Aborts key c s st)
      ⊎ ((¬ MeetsNull c s) × Implements key s (perform (pure_call c) s) st (execute key c st))
unfolding execute perform
execute-Implements key (transit a now) s st found named = inr (
  λ h. h,
  unfold transition_flow in
      rw (found, transition_flow) (transition_state-Implements key now s st found a),
)
execute-Implements key (wait a now) s st found named = inr (
  λ h. h,
  unfold set_waiting_flow in
      rw (found, set_waiting_flow) (wait_state-Implements key now s st found a),
)
execute-Implements key (resume a now) s st found named =
    elim (Bool-cases (meets_null key now a s)) [
      | inl meets ↦
          let null = (meets_null_iff key now a s).0 meets in
          inl (null, resume-Aborts key now a s st found named null)
      | inr clear ↦ inr (
        (λ null. false≢true (sym clear ∙ (meets_null_iff key now a s).1 null)),
        unfold resume_flow in
            rw (found, resume_flow)
              (resume_state-Implements key now s st found a
                (ground (arith, named, eq_iff a.approval_id ""))
                (meets_null-not key now a s clear)),
      )
    ]

-- A flow that is not stored is reported, and nothing is written.
pub execute_missing :
    (key : String) (c : Call) (st : Store)
    → lookup key st.flows ≡ none
    → execute key c st ≡ (err flow_not_found, st)
unfolding execute
execute_missing key (transit a now) st e = unfold transition_flow in rw (e, transition_flow)
execute_missing key (wait a now) st e = unfold set_waiting_flow in rw (e, set_waiting_flow)
execute_missing key (resume a now) st e = unfold resume_flow in rw (e, resume_flow)

-- The stored flow and the others behind a call, also where the script was aborted: they are what
-- the pure operation leaves.
pub record Keeps (key : String) (c : Call) (s : FlowState) (st : Store) : Type 0 where
  pub stored : lookup key (execute key c st).1.flows ≡ some (settle s (perform (pure_call c) s))
  pub others : (j : String) → key ≢ j → lookup j (execute key c st).1.flows ≡ lookup j st.flows

pub execute-Keeps :
    (key : String) (c : Call) (s : FlowState) (st : Store)
    → lookup key st.flows ≡ some s
    → NamesRequest c
    → Keeps key c s st
execute-Keeps key c s st found named = elim (execute-Implements key c s st found named) [
  | inr (clear, h) ↦ record { stored = h.stored; others = h.others }
  | inl (meets, (aborted, (e, raised))) ↦ record {
    stored = rw (aborted, raised) (unfold settle in found);
    others = λ j other. rw aborted refl;
  }
]

-- A step is never aborted.
pub transit-Implements :
    (key : String) (a : TransitionArgs) (now : String) (s : FlowState) (st : Store)
    → lookup key st.flows ≡ some s
    → Implements key s (perform (pure_call (transit a now)) s) st (execute key (transit a now) st)
transit-Implements key a now s st found =
    elim (execute-Implements key (transit a now) s st found tt) [
      | inl (meets, aborted) ↦ absurd meets
      | inr (clear, h) ↦ h
    ]
