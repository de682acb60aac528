-- ===== src/Supervisor/Gate.antt =====
-- When the health of the transport in scripts/a9_supervisor.py holds a worker back.
use a.Supervisor.Health.{Event, health_state, last_failed, Tracks, health_after-Records}
use a.Prelude.{
  ℕ, ◌+◌, ◌<◌, String, ◌≡◌, ◌≢◌, ◌↔◌, ◌⊎◌, refl, Bool, true, false, not, ◌&&◌, Option, none, some,
  List, if◌then◌else◌, str_eq, eq_iff, arith, leb,
}
use a.Supervisor.AutoLoop.{Setting}
use a.Supervisor.Transport.{
  Health, worker_transport_health_state, worker_transport_cooldown_seconds,
  worker_transport_cooldown_gate, failed_backend,
}

-- The two backends may be one: they are, or one of them is not known.
abbrev pub MayBeSame : String → String → Type 0
MayBeSame requested failed_one = (requested ≡ "") ⊎ ((failed_one ≡ "") ⊎ (requested ≡ failed_one))

-- A failure that holds a worker for this backend back at this time.
abbrev pub HoldsBack : ℕ → ℕ → String → Option (ℕ × String) → Type 0
HoldsBack cooldown now requested none = ⊥
HoldsBack cooldown now requested (some (failed_at, backend)) =
    (now < failed_at + cooldown) × MayBeSame requested backend

not_same_iff :
    (requested failed_one : String)
    → ((not (str_eq requested "")
          && (not (str_eq failed_one "") && not (str_eq requested failed_one)))
        ≡ false)
      ↔ MayBeSame requested failed_one
not_same_iff requested failed_one =
    ground (arith, eq_iff requested "", eq_iff failed_one "", eq_iff requested failed_one)

some_not_none {ℓ} : {A : Type ℓ} (x : A) → some x ≢ none
some_not_none x h = absurd cc

chosen_iff {ℓ} :
    {A : Type ℓ} (early other : Bool) (x : A)
    → ((if early then none else if other then none else some x) ≢ none)
      ↔ ((early ≡ false) × (other ≡ false))
chosen_iff true other x = ((λ h. absurd (h refl)), (λ h. absurd (ground (arith, h.0))))
chosen_iff false true x = ((λ h. absurd (h refl)), (λ h. absurd (ground (arith, h.1))))
chosen_iff false false x = ((λ h. (refl, refl)), (λ h. some_not_none x))

gate_at :
    (requested : String) (now until : ℕ) (backend : String) (health : Health)
    → health.cooldown_until ≡ some until
    → failed_backend health.last_failure ≡ backend
    → (worker_transport_cooldown_gate now requested (some health) ≢ none)
      ↔ ((now < until) × MayBeSame requested backend)
unfolding worker_transport_cooldown_gate worker_transport_health_state
gate_at requested now until backend health until_is failed_is = rw until_is (
    rw failed_is (
      let c =
        chosen_iff (leb until now)
          (not (str_eq requested "") && (not (str_eq backend "") && not (str_eq requested backend)))
          (record {
            cooldown_until = until;
            consecutive_failures = health.consecutive_failures;
            last_failure = health.last_failure;
            requested_backend = requested;
          }) in
      let b = not_same_iff requested backend in
      (
        (λ h. let r = c.0 h in (ground (arith, r.0), b.0 r.1)),
        (λ h. c.1 (ground (arith, h.0), b.1 h.1)),
      )))

gate_iff :
    (cooldown now : ℕ) (requested : String) (last : Option (ℕ × String)) (health : Health)
    → Tracks cooldown last health
    → (worker_transport_cooldown_gate now requested (some health) ≢ none)
      ↔ HoldsBack cooldown now requested last
unfolding worker_transport_cooldown_gate worker_transport_health_state
gate_iff cooldown now requested none health t = ((λ h. h (ground arith)), (λ h. absurd h))
gate_iff cooldown now requested (some (failed_at, backend)) health (until, failed_is, status) =
    gate_at requested now (failed_at + cooldown) backend health until failed_is

-- After any events from a missing file on, a worker for a backend is held back exactly within the
-- cooldown behind the last failure, where nothing that worked came after it, and where the failed
-- backend may be the requested one.
pub held_back_iff :
    (setting : Setting) (events : List Event) (now : ℕ) (requested : String)
    → (worker_transport_cooldown_gate now requested (some (health_state setting events none))
        ≢ none)
      ↔ HoldsBack
          (worker_transport_cooldown_seconds setting)
          now
          requested
          (last_failed events none)
unfolding worker_transport_health_state
held_back_iff setting events now requested =
    gate_iff (worker_transport_cooldown_seconds setting) now requested (last_failed events none)
      (health_state setting events none)
      (health_after-Records setting events none 0 0 none (refl, refl) (refl, refl)).2
