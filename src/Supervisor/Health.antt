-- ===== src/Supervisor/Health.antt =====
-- What the health of the transport in scripts/a9_supervisor.py counts, and when it holds a worker back.
use mathlib.Core.Path.{subst}
use a.Prelude.{
  ℕ, ◌+◌, String, ◌≡◌, inl, inr, refl, sym, ap, ◌∙◌, false, ◌||◌, Option, none, some, List, [], ◌∷◌,
  if◌then◌else◌, str_eq, eq_iff, arith, Bool-cases,
}
use a.Supervisor.AutoLoop.{Setting}
use a.Supervisor.Transport.{
  Health, Run, Probe, worker_transport_health_state, worker_transport_cooldown_seconds,
  failed_backend, is_transport_failure, cooled_down, update_worker_transport_health_from_summary,
  update_worker_transport_health_from_probe,
}

-- What happens to the health: a run ends, or the transport is probed.
pub data Event : Type 0 where
  run_ended : (now : ℕ) (run : Run) → Event
  probed : (now : ℕ) (probe : Probe) → Event

unfoldable pub health_after : Setting → List Event → Option Health → Option Health
unfolding update_worker_transport_health_from_summary update_worker_transport_health_from_probe
health_after setting [] file = file
health_after setting (run_ended now run ∷ events) file =
    health_after setting events
      (some (update_worker_transport_health_from_summary now setting run file))
health_after setting (probed now probe ∷ events) file =
    health_after setting events
      (some (update_worker_transport_health_from_probe now setting probe file))

-- What an event says of the transport: it failed, it worked, or nothing.
pub data Sign : Type 0 where
  failed worked silent : Sign

abbrev pub sign_of : Event → Sign
sign_of (run_ended now run) =
    if is_transport_failure run then failed else if str_eq run.status "pass" then worked else silent
sign_of (probed now probe) =
    if str_eq probe.status "ok" || str_eq probe.status "skipped" then worked else failed

-- When a failure was, and of which backend.
abbrev pub failure_of : Event → ℕ × String
failure_of (run_ended now run) = (now, run.backend)
failure_of (probed now probe) = (now, probe.backend)

abbrev pub next_streak : Sign → ℕ → ℕ
next_streak failed n = n + 1
next_streak worked n = 0
next_streak silent n = n

abbrev pub add_failure : Sign → ℕ → ℕ
add_failure failed n = n + 1
add_failure worked n = n
add_failure silent n = n

abbrev pub next_last : Sign → ℕ × String → Option (ℕ × String) → Option (ℕ × String)
next_last failed failure last = some failure
next_last worked failure last = none
next_last silent failure last = last

-- The failures behind the last event that worked, with `n` before the events.
abbrev pub streak : List Event → ℕ → ℕ
streak [] n = n
streak (event ∷ events) n = streak events (next_streak (sign_of event) n)

abbrev pub failures : List Event → ℕ
failures [] = 0
failures (event ∷ events) = add_failure (sign_of event) (failures events)

-- When the last failure was that nothing which worked came after, and of which backend.
abbrev pub last_failed : List Event → Option (ℕ × String) → Option (ℕ × String)
last_failed [] last = last
last_failed (event ∷ events) last =
    last_failed events (next_last (sign_of event) (failure_of event) last)

-- The health has this last failure.
abbrev pub Tracks : ℕ → Option (ℕ × String) → Health → Type 0
Tracks cooldown none health = (health.cooldown_until ≡ none) × (health.consecutive_failures ≡ 0)
Tracks cooldown (some (now, backend)) health =
    (health.cooldown_until ≡ some (now + cooldown))
    × (failed_backend health.last_failure ≡ backend)
    × (health.status ≡ "cooldown")

abbrev pub IsCounted : ℕ → ℕ → Health → Type 0
IsCounted n total health = (health.consecutive_failures ≡ n) × (health.failure_count ≡ total)

-- One event on a health.
unfoldable step : Setting → Event → Health → Health
unfolding update_worker_transport_health_from_summary update_worker_transport_health_from_probe
step setting (run_ended now run) health =
    update_worker_transport_health_from_summary now setting run (some health)
step setting (probed now probe) health =
    update_worker_transport_health_from_probe now setting probe (some health)

-- What an event makes of the counts and of the last failure.
abbrev After : Setting → Sign → Event → ℕ → ℕ → Option (ℕ × String) → Health → Type 0
After setting sign event n total last health =
    IsCounted (next_streak sign n) (add_failure sign total) health
    × Tracks (worker_transport_cooldown_seconds setting) (next_last sign (failure_of event) last)
        health

by_sign :
    (setting : Setting) (event : Event) (n total : ℕ) (last : Option (ℕ × String)) (health : Health)
    (sign : Sign)
    → sign_of event ≡ sign
    → After setting sign event n total last health
    → After setting (sign_of event) event n total last health
by_sign setting event n total last health sign e =
    subst (λ g. After setting g event n total last health) (sym e)

calm_health :
    (cooldown n total : ℕ) (last : Option (ℕ × String)) (health : Health)
    → (str_eq health.status "cooldown" || str_eq health.status "degraded") ≡ false
    → IsCounted n total health
    → Tracks cooldown last health
    → Tracks cooldown none health
calm_health cooldown n total none health warm c t = t
calm_health cooldown n total (some (now, backend)) health warm c (until, backend_is, status) =
    absurd (ground (arith, eq_iff health.status "cooldown"))

step-After :
    (setting : Setting) (event : Event) (n total : ℕ) (last : Option (ℕ × String)) (health : Health)
    → IsCounted n total health
    → Tracks (worker_transport_cooldown_seconds setting) last health
    → After setting (sign_of event) event n total last (step setting event health)
unfolding step update_worker_transport_health_from_summary update_worker_transport_health_from_probe
    worker_transport_health_state cooled_down
step-After setting (run_ended now run) n total last health c t =
    let choose =
      by_sign setting (run_ended now run) n total last (step setting (run_ended now run) health) in
    elim (Bool-cases (is_transport_failure run)) [
      | inl fails ↦
          choose failed (rw fails refl)
            (rw fails ((ap (λ k. k + 1) c.0, ap (λ k. k + 1) c.1), (refl, refl, refl)))
      | inr fine ↦ elim (Bool-cases (str_eq run.status "pass")) [
        | inr other ↦ choose silent (rw fine (rw other refl)) (rw fine (rw other (c, t)))
        | inl passed ↦
            choose worked (rw fine (rw passed refl))
              (elim (Bool-cases
                (str_eq health.status "cooldown" || str_eq health.status "degraded")) [
                  | inl cooled ↦ rw fine (rw passed (rw cooled ((refl, c.1), (refl, refl))))
                  | inr warm ↦
                      let calm = calm_health _ n total last health warm c t in
                      rw fine (rw passed (rw warm ((calm.1, c.1), calm)))
                ])
      ]
    ]
step-After setting (probed now probe) n total last health c t =
    let choose =
      by_sign setting (probed now probe) n total last (step setting (probed now probe) health) in
    elim (Bool-cases (str_eq probe.status "ok" || str_eq probe.status "skipped")) [
      | inl works ↦ choose worked (rw works refl) (rw works ((refl, c.1), (refl, refl)))
      | inr fails ↦
          choose failed (rw fails refl)
            (rw fails ((ap (λ k. k + 1) c.0, ap (λ k. k + 1) c.1), (refl, refl, refl)))
    ]

unfoldable pub health_state : Setting → List Event → Option Health → Health
unfolding health_after worker_transport_health_state
health_state setting events file = worker_transport_health_state (health_after setting events file)

health_after-step :
    (setting : Setting) (event : Event) (events : List Event) (file : Option Health)
    → health_after setting (event ∷ events) file
      ≡ health_after setting events (some (step setting event (worker_transport_health_state file)))
unfolding health_after step update_worker_transport_health_from_summary
    update_worker_transport_health_from_probe worker_transport_health_state
health_after-step setting (run_ended now run) events none = refl
health_after-step setting (run_ended now run) events (some health) = refl
health_after-step setting (probed now probe) events none = refl
health_after-step setting (probed now probe) events (some health) = refl

-- The counts and the last failure of a health after events.
abbrev pub Records : Setting → List Event → Health → ℕ → ℕ → Option (ℕ × String) → Type 0
Records setting events health n total last =
    (health.consecutive_failures ≡ streak events n)
    × (health.failure_count ≡ total + failures events)
    × Tracks (worker_transport_cooldown_seconds setting) (last_failed events last) health

add_failure_later :
    (sign : Sign) (total n : ℕ) → add_failure sign total + n ≡ total + add_failure sign n
add_failure_later failed total n = omega arith
add_failure_later worked total n = refl
add_failure_later silent total n = refl

pub health_after-Records :
    (setting : Setting) (events : List Event) (file : Option Health) (n total : ℕ)
    (last : Option (ℕ × String))
    → IsCounted n total (worker_transport_health_state file)
    → Tracks (worker_transport_cooldown_seconds setting) last (worker_transport_health_state file)
    → Records setting events (health_state setting events file) n total last
unfolding health_after health_state worker_transport_health_state
health_after-Records setting [] file n total last c t = (c.0, c.1 ∙ omega arith, t)
health_after-Records setting (event ∷ events) file n total last c t =
    let health = worker_transport_health_state file in
    let next = step-After setting event n total last health c t in
    let r =
      health_after-Records setting events (some (step setting event health))
        (next_streak (sign_of event) n) (add_failure (sign_of event) total)
        (next_last (sign_of event) (failure_of event) last) next.0 next.1 in
    subst
      (λ (f : Option Health).
        Records setting (event ∷ events) (worker_transport_health_state f) n total last)
      (sym (health_after-step setting event events file))
      (r.0, r.1 ∙ add_failure_later (sign_of event) total (failures events), r.2)

-- What the health counts is what happened, from a missing file on: in all every failure of the
-- transport, and in a row those behind the last event that worked.
pub counts_failures :
    (setting : Setting) (events : List Event)
    → ((health_state setting events none).consecutive_failures ≡ streak events 0)
      × ((health_state setting events none).failure_count ≡ failures events)
unfolding worker_transport_health_state
counts_failures setting events =
    let r = health_after-Records setting events none 0 0 none (refl, refl) (refl, refl) in
    (r.0, r.1 ∙ omega arith)
