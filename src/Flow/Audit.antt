-- ===== src/Flow/Audit.antt =====
-- The audit trail of a flow (scripts/a9_middleware.py): what `history` holds after any calls.
use a.Prelude.{
  ℕ, ◌+◌, String, ◌≡◌, refl, ◌⊎◌, inl, inr, Option, none, some, List, [], ◌∷◌, ◌++◌, map,
  append-nil, Result, ok, err, one_to, one_to-add_one, one_to-zero, sym, Bool-cases, ==_iff, ◌==◌,
  leb, ◌∙◌, ap,
}
use mathlib.Core.List.{map-append}
use a.Flow.Outcome.{transition-ok, set_waiting-ok, resume_waiting-ok}
use a.Flow.{
  HistoryEntry, sequence_gap, transition, approval_step, FlowState, FlowError, TransitionArgs,
  WaitArgs, ResumeArgs, initial_flow_state, transition_flow_state, set_waiting_flow_state,
  resume_waiting_flow_state, receive, move, open_gap, enter_waiting, leave_waiting,
}

-- A call of one of the three operations, with what the clock shows.
pub data Call : Type 0 where
  transit : TransitionArgs → String → Call
  wait : WaitArgs → String → Call
  resume : ResumeArgs → String → Call

unfoldable pub perform : Call → FlowState → Result FlowError FlowState
perform (transit a now) s = transition_flow_state a now s
perform (wait a now) s = set_waiting_flow_state a now s
perform (resume a now) s = resume_waiting_flow_state a now s

-- A call that raises leaves the stored flow as it was.
unfoldable pub settle : FlowState → Result FlowError FlowState → FlowState
settle s (ok t) = t
settle s (err e) = s

unfoldable pub serve : FlowState → List Call → FlowState
unfolding settle
serve s [] = s
serve s (c ∷ cs) = serve (settle s (perform c s)) cs

abbrev pub entry_revision : HistoryEntry → ℕ
entry_revision (sequence_gap g) = g.revision
entry_revision (transition revision _ _ _ _ _ _ _) = revision
entry_revision (approval_step revision _ _ _ _ _ _) = revision

-- The sequence numbers that transitions have consumed, oldest first.
abbrev consumed_by : Option ℕ → List ℕ
consumed_by none = []
consumed_by (some sequence) = sequence ∷ []

abbrev pub consumed : List HistoryEntry → List ℕ
consumed [] = []
consumed (transition _ _ _ _ _ _ sequence _ ∷ es) = consumed_by sequence ++ consumed es
consumed (sequence_gap _ ∷ es) = consumed es
consumed (approval_step _ _ _ _ _ _ _ ∷ es) = consumed es

-- `Linked from es to`: replaying the entries leads from one status to the other, each entry that
-- records where it started starting where the last one ended.
abbrev pub Linked : String → List HistoryEntry → String → Type 0
Linked start [] end = start ≡ end
Linked start (transition _ from_status to_status _ _ _ _ _ ∷ es) end =
    (from_status ≡ start) × Linked to_status es end
Linked start (approval_step _ from_status to_status _ _ _ _ ∷ es) end =
    (from_status ≡ start) × Linked to_status es end
Linked start (sequence_gap _ ∷ es) end = Linked "quarantined" es end

pub record IsAudited (start : String) (s : FlowState) : Type 0 where
  pub numbered : map entry_revision s.history ≡ one_to s.revision
  pub in_order : consumed s.history ≡ one_to s.last_seq
  pub linked : Linked start s.history s.status

Linked-append :
    (start mid end : String) (es fs : List HistoryEntry)
    → Linked start es mid
    → Linked mid fs end
    → Linked start (es ++ fs) end
Linked-append start mid end [] fs h k = rw h k
Linked-append start mid end (transition _ _ to_status _ _ _ _ _ ∷ es) fs h k =
    (h.0, Linked-append to_status mid end es fs h.1 k)
Linked-append start mid end (approval_step _ _ to_status _ _ _ _ ∷ es) fs h k =
    (h.0, Linked-append to_status mid end es fs h.1 k)
Linked-append start mid end (sequence_gap _ ∷ es) fs h k =
    Linked-append "quarantined" mid end es fs h k

consumed-append : (es fs : List HistoryEntry) → consumed (es ++ fs) ≡ consumed es ++ consumed fs
consumed-append [] fs = refl
consumed-append (transition _ _ _ _ _ _ none _ ∷ es) fs = consumed-append es fs
consumed-append (transition _ _ _ _ _ _ (some _) _ ∷ es) fs = rw (consumed-append es fs)
consumed-append (approval_step _ _ _ _ _ _ _ ∷ es) fs = consumed-append es fs
consumed-append (sequence_gap _ ∷ es) fs = consumed-append es fs

-- One more entry, numbered one higher.
extend :
    {start : String} {s : FlowState} (e : HistoryEntry) (t : FlowState)
    → IsAudited start s
    → t.history ≡ s.history ++ e ∷ []
    → t.revision ≡ s.revision + 1
    → entry_revision e ≡ s.revision + 1
    → one_to t.last_seq ≡ one_to s.last_seq ++ consumed (e ∷ [])
    → Linked s.status (e ∷ []) t.status
    → IsAudited start t
extend {start} {s = s} e t h grown bumped numbered in_order linked = record {
  numbered = rw (grown, bumped, one_to-add_one, map-append, h.numbered, numbered);
  in_order = rw (grown, in_order, consumed-append, h.in_order);
  linked = rw grown (Linked-append start s.status t.status s.history (e ∷ []) h.linked linked);
}

module _ {start : String} (s : FlowState) (h : IsAudited start s) where
  move-IsAudited :
      (a : TransitionArgs) (now : String)
      → (a.sequence ≡ none) ⊎ (a.sequence ≡ some (s.last_seq + 1))
      → IsAudited start (move a now s)
  unfolding move
  move-IsAudited a now (inl e) = extend _ _ h refl refl refl (rw e (rw append-nil)) (refl, refl)
  move-IsAudited a now (inr e) =
      extend _ _ h refl refl refl (rw e (one_to-add_one s.last_seq)) (refl, refl)

  open_gap-IsAudited :
      (a : TransitionArgs) (now : String) (sequence : ℕ)
      → IsAudited start (open_gap a now sequence s)
  unfolding open_gap
  open_gap-IsAudited a now sequence = extend _ _ h refl refl refl (rw append-nil) refl

  receive-IsAudited :
      (a : TransitionArgs) (now : String) (sequence : Option ℕ)
      → a.sequence ≡ sequence
      → IsAudited start (receive a now sequence s)
  unfolding receive
  receive-IsAudited a now none e = move-IsAudited a now (inl e)
  receive-IsAudited a now (some q) e = elim (Bool-cases (leb q s.last_seq)) [
    | inl old ↦ rw old h
    | inr new ↦ rw new (elim (Bool-cases (q == s.last_seq + 1)) [
      | inl next ↦
          rw next (move-IsAudited a now (inr (e ∙ ap some ((==_iff q (s.last_seq + 1)).0 next))))
      | inr later ↦ rw later (open_gap-IsAudited a now q)
    ])
  ]

  enter_waiting-IsAudited : (a : WaitArgs) (now : String) → IsAudited start (enter_waiting a now s)
  unfolding enter_waiting
  enter_waiting-IsAudited a now = extend _ _ h refl refl refl (rw append-nil) (refl, refl)

  leave_waiting-IsAudited :
      (a : ResumeArgs) (now : String)
      → s.status ≡ "waiting"
      → IsAudited start (leave_waiting a now s)
  unfolding leave_waiting
  leave_waiting-IsAudited a now w = extend _ _ h refl refl refl (rw append-nil) (sym w, refl)

-- Whatever the call, a result that it returns has a sound trail.
perform-IsAudited :
    {start : String} (s : FlowState) (c : Call) {t : FlowState}
    → IsAudited start s
    → perform c s ≡ ok t
    → IsAudited start t
unfolding perform
perform-IsAudited s (transit a now) h e =
    rw (transition-ok a now s e).1 (receive-IsAudited s h a _ a.sequence refl)
perform-IsAudited s (wait a now) h e =
    rw (set_waiting-ok a now s e).1 (enter_waiting-IsAudited s h a _)
perform-IsAudited s (resume a now) {t} h e =
    let (authorised, result) = (resume_waiting-ok a now s t).0 e in
    rw result (leave_waiting-IsAudited s h a _ authorised.was_waiting)

settle-IsAudited :
    {start : String} (s : FlowState) (c : Call) (r : Result FlowError FlowState)
    → perform c s ≡ r
    → IsAudited start s
    → IsAudited start (settle s r)
unfolding settle
settle-IsAudited s c (ok t) e h = perform-IsAudited s c h e
settle-IsAudited s c (err x) e h = h

serve-IsAudited_from :
    {start : String} (s : FlowState) (cs : List Call)
    → IsAudited start s
    → IsAudited start (serve s cs)
unfolding serve
serve-IsAudited_from s [] h = h
serve-IsAudited_from s (c ∷ cs) h =
    serve-IsAudited_from (settle s (perform c s)) cs (settle-IsAudited s c (perform c s) refl h)

-- Whatever calls a new flow gets, with whatever arguments, failed ones among them: the entries of
-- its history are numbered 1, 2, …, up to its revision; the sequence numbers that transitions
-- consumed are 1, 2, …, up to `last_seq`, each once and in order; and replaying the entries leads
-- from its first status to its present one.
pub serve-IsAudited :
    (flow_id kind status : String) (metadata : List (String × String)) (now : String)
    (calls : List Call)
    → IsAudited status (serve (initial_flow_state flow_id kind status metadata now) calls)
serve-IsAudited flow_id kind status metadata now calls = serve-IsAudited_from _ calls (
    unfold initial_flow_state in
    record { numbered = sym one_to-zero; in_order = sym one_to-zero; linked = refl })
