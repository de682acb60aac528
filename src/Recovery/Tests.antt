-- ===== src/Recovery/Tests.antt =====
-- The recovery loop against a concrete controller.
use a.Prelude.{ℕ, ◌≡◌, ◌≢◌, ◌↔◌, refl, arith, true, false, Option, none, some, [], ◌∷◌, ◌++◌}
use a.Text.{Text, codes}
use a.Recovery.{
  communication_observation_update, Reading, answered, Observed, State, observed_of, key_of,
  needs_review,
}
use a.Recovery.Cycle.{Progress, recovery_loop, summary_status}
use a.Recovery.Loop.{AreFine, recovery_loop-ends}
use a.Recovery.Loop.{rounds}
use a.Recovery.Posts.{MaySend, rounds-MaySend}
use a.Recovery.Streak.{pending_after, observe_all, pending_after_iff}

-- A controller that asks for a repair each time.
abbrev asking : ℕ → Reading
asking cycle =
    answered
      (record {
        plan_status = codes "ready";
        action = codes "repair";
        priority_source = codes "node";
        endpoint = codes "/api/communication/repair-one";
        payload = codes "{}";
      })
      (record { status = codes "ok"; step_count = 1; risk_count = 0 })

abbrev accept : ℕ → Text → Text → Option Text
accept cycle endpoint payload = some (codes "{}")

abbrev clock : ℕ → Text
clock cycle = codes "t0"

abbrev untouched : State
untouched = record { observation = none; pending = []; posts = [] }

recovery_loop-ends_example :
    (end : Progress) × ((recovery_loop asking accept clock 2 2 false untouched ≡ some end)
      × (end.iterations ≡ 2)
      × ((summary_status end ≡ codes "ok") ↔ AreFine asking 0 2))
recovery_loop-ends_example =
    recovery_loop-ends asking accept clock false 2 2 untouched (omega arith) (omega arith)

-- One cycle that executes sends the repair at once.
abbrev sent_once : Progress
sent_once = record {
  iterations = 1;
  degraded = 0;
  state = record {
    observation =
        some (communication_observation_update (observed_of true (codes "t0") (asking 0)) none);
    pending = [];
    posts = (codes "/api/communication/repair-one", codes "{}") ∷ [];
  };
}

loop_sends : recovery_loop asking accept clock 1 1 true untouched ≡ some sent_once
unfolding recovery_loop communication_observation_update
loop_sends = refl

rounds-MaySend_example :
    MaySend true sent_once.state.posts (rounds asking accept clock true 7 sent_once).state.posts
rounds-MaySend_example = rounds-MaySend asking accept clock true 7 sent_once

abbrev seen : Observed
seen = observed_of false (codes "t0") (asking 0)

pending_after_iff_example :
    (pending_after seen (observe_all ([] ++ seen ∷ []) none) ≢ [])
    ↔ ((needs_review seen ≡ true) × (key_of seen ≡ key_of seen))
pending_after_iff_example = pending_after_iff [] seen seen none
