-- ===== src/FlowStore/Isolation.antt =====
-- Many flows in one store (scripts/a9_middleware.py): the calls for one flow are served as if the
-- others were not there.
use a.Prelude.{
  String, ◌≡◌, ◌≢◌, ◌∙◌, some, List, [], ◌∷◌, arith, eq_iff, str_eq, Option-cases, inl, inr,
  Bool-cases, if◌then◌else◌, All,
}
use a.Prelude.Dict.{lookup}
use a.Flow.{FlowState}
use a.Flow.Audit.{Call, perform, settle, serve}
use a.FlowStore.{Store}
use a.FlowStore.Refinement.{execute, execute-Keeps, execute_missing, pure_call, NamesRequest}

unfoldable pub serve_store : Store → List (String × Call) → Store
serve_store st [] = st
serve_store st ((key, c) ∷ cs) = serve_store (execute key c st).1 cs

-- What the calls ask of one flow.
unfoldable pub calls_for : String → List (String × Call) → List Call
calls_for key [] = []
calls_for key ((k, c) ∷ cs) =
    if str_eq k key then pure_call c ∷ calls_for key cs else calls_for key cs

execute-others :
    (key j : String) (c : Call) (st : Store)
    → NamesRequest c
    → key ≢ j
    → lookup j (execute key c st).1.flows ≡ lookup j st.flows
execute-others key j c st named other = elim (Option-cases (lookup key st.flows)) [
  | inl missing ↦ rw (execute_missing key c st missing)
  | inr (s, found) ↦ (execute-Keeps key c s st found named).others j other
]

-- After any calls for any flows, the flow under `key` is the one that the pure operations make of
-- it by serving the calls for `key` alone, in their order. Every decision among the calls must
-- give an approval id.
pub lookup-serve_store :
    (key : String) (st : Store) (cs : List (String × Call)) (s : FlowState)
    → All (λ p. NamesRequest p.1) cs
    → lookup key st.flows ≡ some s
    → lookup key (serve_store st cs).flows ≡ some (serve s (calls_for key cs))
unfolding serve_store serve calls_for
lookup-serve_store key st [] s named found = found
lookup-serve_store key st ((k, c) ∷ cs) s named found = elim (Bool-cases (str_eq k key)) [
  | inl same ↦ rw same (
      lookup-serve_store key (execute k c st).1 cs (settle s (perform (pure_call c) s)) named.1
        (rw ((eq_iff k key).0 same) (execute-Keeps key c s st found named.0).stored))
  | inr other ↦ rw other (
      lookup-serve_store key (execute k c st).1 cs s named.1
        (execute-others k key c st named.0 (ground (arith, eq_iff k key)) ∙ found))
]
