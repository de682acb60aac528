-- ===== src/Supervisor/Reconciled.antt =====
-- Which leases survive the reconciling of scripts/a9_supervisor.py.
use mathlib.Core.Path.{subst}
use mathlib.Core.Bool.{false≢true}
use a.Prelude.{
  ℕ, ◌+◌, ◌≤◌, String, ◌≡◌, ◌≢◌, ◌↔◌, ◌⊎◌, inl, inr, refl, sym, ap, ◌∙◌, true, false, Option, none,
  some, List, [], ◌∷◌, str_eq, eq_iff, arith, Bool-cases, Option-cases, All,
}
use a.Prelude.Dict.{lookup}
use a.Supervisor.Leases.{
  Lease, Machine, Disk, among, remove, dir_of, pid_lives, running_lease_is_orphaned, archive,
  interrupt_running_task, reconcile_one, reconcile_from, reconcile_orphaned_running_tasks,
}

-- A worker whose process id, or a process with its directory, is there.
abbrev pub IsAlive : Machine → Lease → Type 0
IsAlive m lease = (pid_lives m lease.worker_pid ≡ true) ⊎ (m.process_contains lease.run_dir ≡ true)

lookup-remove :
    (name other : String) (leases : List (String × Option Lease))
    → str_eq other name ≡ false
    → lookup name (remove other leases) ≡ lookup name leases
unfolding lookup remove
lookup-remove name other [] h = refl
lookup-remove name other (entry ∷ leases) h = ground (
  arith,
  lookup-remove name other leases h,
  eq_iff entry.0 other,
  eq_iff entry.0 name,
  eq_iff other name,
)

not_orphaned :
    (m : Machine) (max_age : ℕ) (lease : Lease) (disk : Disk)
    → IsAlive m lease
    → (running_lease_is_orphaned m max_age lease disk).0 ≡ false
unfolding running_lease_is_orphaned
not_orphaned m max_age lease disk alive = elim (Option-cases lease.started_at) [
  | inl no_start ↦ ground arith
  | inr (started_at, start) ↦ ground arith
]

-- What a round leaves of the lease under another name, and of the summaries.
reconcile_one-other :
    (m : Machine) (max_age : ℕ) (name other : String) (entry : Option Lease) (disk : Disk)
    → str_eq other name ≡ false
    → lookup name (reconcile_one m max_age other entry disk).leases ≡ lookup name disk.leases
unfolding reconcile_one archive interrupt_running_task
reconcile_one-other m max_age name other none disk h = refl
reconcile_one-other m max_age name other (some lease) disk h =
    ground (arith, lookup-remove name other disk.leases h)

reconcile_one-summaries :
    (m : Machine) (max_age : ℕ) (dir name : String) (entry : Option Lease) (disk : Disk)
    → among dir (reconcile_one m max_age name entry disk).summaries ≡ false
    → among dir disk.summaries ≡ false
unfolding reconcile_one archive interrupt_running_task
reconcile_one-summaries m max_age dir name none disk h = h
reconcile_one-summaries m max_age dir name (some lease) disk h = ground arith

reconcile_one-alive :
    (m : Machine) (max_age : ℕ) (name : String) (lease : Lease) (disk : Disk)
    → IsAlive m lease
    → m.final_exists (dir_of lease) ≡ false
    → among (dir_of lease) disk.summaries ≡ false
    → reconcile_one m max_age name (some lease) disk ≡ disk
unfolding reconcile_one
reconcile_one-alive m max_age name lease disk alive no_final no_summary =
    ground (arith, not_orphaned m max_age lease disk alive)

reconcile_from-summaries :
    (m : Machine) (max_age : ℕ) (dir : String) (entries : List (String × Option Lease))
    (disk : Disk)
    → among dir (reconcile_from m max_age entries disk).summaries ≡ false
    → among dir disk.summaries ≡ false
unfolding reconcile_from
reconcile_from-summaries m max_age dir [] disk h = h
reconcile_from-summaries m max_age dir (entry ∷ entries) disk h =
    reconcile_one-summaries m max_age dir entry.0 entry.1 disk (
      reconcile_from-summaries m max_age dir entries (reconcile_one m max_age entry.0 entry.1 disk)
        h)

-- Under this name no entry holds anything but this lease.
abbrev pub OnlyLease : String → Lease → List (String × Option Lease) → Type 0
OnlyLease name lease entries = All (λ entry. entry.0 ≡ name → entry.1 ≡ some lease) entries

reconcile_from-alive :
    (m : Machine) (max_age : ℕ) (name : String) (lease : Lease)
    (entries : List (String × Option Lease)) (disk : Disk)
    → OnlyLease name lease entries
    → IsAlive m lease
    → m.final_exists (dir_of lease) ≡ false
    → among (dir_of lease) (reconcile_from m max_age entries disk).summaries ≡ false
    → lookup name disk.leases ≡ some (some lease)
    → lookup name (reconcile_from m max_age entries disk).leases ≡ some (some lease)
unfolding reconcile_from
reconcile_from-alive m max_age name lease [] disk only alive no_final no_summary there = there
reconcile_from-alive m max_age name lease (entry ∷ entries) disk only alive no_final no_summary
      there =
    let next = reconcile_one m max_age entry.0 entry.1 disk in
    let quiet = reconcile_from-summaries m max_age (dir_of lease) entries next no_summary in
    reconcile_from-alive m max_age name lease entries next only.1 alive no_final no_summary
      (elim (Bool-cases (str_eq entry.0 name)) [
        | inr other ↦ reconcile_one-other m max_age name entry.0 entry.1 disk other ∙ there
        | inl same ↦
            let holds = only.0 ((eq_iff entry.0 name).0 same) in
            let stays =
              subst (λ e. reconcile_one m max_age entry.0 e disk ≡ disk) (sym holds)
                (reconcile_one-alive m max_age entry.0 lease disk alive no_final
                  (reconcile_one-summaries m max_age (dir_of lease) entry.0 entry.1 disk quiet)) in
            ap (λ (d : Disk). lookup name d.leases) stays ∙ there
      ])

-- Reconciling keeps the lease of a worker that is alive, whatever the age and the other leases, where
-- its run has no final.md and, also at the end, no summary, and its file is the one of its name.
pub keeps_alive :
    (m : Machine) (max_age : ℕ) (name : String) (lease : Lease) (disk : Disk)
    → lookup name disk.leases ≡ some (some lease)
    → OnlyLease name lease disk.leases
    → IsAlive m lease
    → m.final_exists (dir_of lease) ≡ false
    → among (dir_of lease) (reconcile_orphaned_running_tasks m max_age disk).summaries ≡ false
    → lookup name (reconcile_orphaned_running_tasks m max_age disk).leases ≡ some (some lease)
unfolding reconcile_orphaned_running_tasks
keeps_alive m max_age name lease disk there only alive no_final no_summary =
    reconcile_from-alive m max_age name lease disk.leases disk only alive no_final no_summary there

-- What a round leaves of a readable lease: it is gone where its run has a summary or a final.md, or
-- where it is orphaned.
abbrev pub IsOrphan : Machine → ℕ → Lease → Type 0
IsOrphan m max_age lease =
    (lease.run_dir ≢ "")
    × ((started_at : ℕ) × (lease.started_at ≡ some started_at) × (started_at + max_age ≤ m.now))
    × (pid_lives m lease.worker_pid ≡ false)
    × (m.process_contains lease.run_dir ≡ false)

some_injective : (x y : ℕ) → some x ≡ some y → x ≡ y
some_injective x y h = cc

orphaned_iff :
    (m : Machine) (max_age : ℕ) (lease : Lease) (disk : Disk)
    → among (dir_of lease) disk.summaries ≡ false
    → ((running_lease_is_orphaned m max_age lease disk).0 ≡ true) ↔ IsOrphan m max_age lease
unfolding running_lease_is_orphaned
orphaned_iff m max_age lease disk no_summary = elim (Option-cases lease.started_at) [
  | inl no_start ↦ (
    (λ h. absurd (ground (arith, h))),
    (λ (dir, (at, start, old), dead, gone). absurd (ground (arith, start))),
  )
  | inr (started_at, start) ↦ (
    (λ h. (
      ground (arith, h, eq_iff lease.run_dir ""),
      (started_at, start, ground (arith, h)),
      ground (arith, h),
      ground (arith, h),
    )),
    (λ (dir, (at, start_at, old), dead, gone).
        let same : at ≡ started_at = some_injective at started_at (sym start_at ∙ start) in
        ground (arith, dir, old, dead, gone, eq_iff lease.run_dir "")),
  )
]

lookup-remove_same :
    (name : String) (leases : List (String × Option Lease))
    → lookup name (remove name leases) ≡ none
unfolding lookup remove
lookup-remove_same name [] = refl
lookup-remove_same name (entry ∷ leases) = ground (arith, lookup-remove_same name leases)

-- A round takes the readable lease that it reads exactly where the lease is done, its run having a
-- summary or a final.md, or is orphaned: it names its run, it is old enough, and neither its process
-- id nor a process with its directory is there.
pub reconcile_one_iff :
    (m : Machine) (max_age : ℕ) (name : String) (lease : Lease) (disk : Disk)
    → lookup name disk.leases ≡ some (some lease)
    → (lookup name (reconcile_one m max_age name (some lease) disk).leases ≡ none) ↔ (
        (among (dir_of lease) disk.summaries ≡ true)
        ⊎ ((m.final_exists (dir_of lease) ≡ true) ⊎ IsOrphan m max_age lease))
unfolding reconcile_one archive interrupt_running_task
reconcile_one_iff m max_age name lease disk there =
    let gone = lookup-remove_same name disk.leases in
    elim (Bool-cases (among (dir_of lease) disk.summaries)) [
      | inl summary ↦ rw summary ((λ h. inl refl), (λ h. gone))
      | inr no_summary ↦ elim (Bool-cases (m.final_exists (dir_of lease))) [
        | inl final ↦ rw no_summary (rw final ((λ h. inr (inl refl)), (λ h. gone)))
        | inr no_final ↦
            let orphan = orphaned_iff m max_age lease disk no_summary in
            elim (Bool-cases (running_lease_is_orphaned m max_age lease disk).0) [
              | inl dead ↦
                  rw no_summary
                    (rw no_final (rw dead ((λ h. inr (inr (orphan.0 dead))), (λ h. gone))))
              | inr lives ↦ rw no_summary (
                  rw no_final (
                    rw lives (
                      (λ h. absurd (ground (arith, h, there))),
                      (λ h. elim h [
                        | inl bad ↦ absurd (false≢true bad)
                        | inr (inl bad) ↦ absurd (false≢true bad)
                        | inr (inr is_orphan) ↦ absurd (false≢true (sym lives ∙ orphan.1 is_orphan))
                      ]),
                    )))
            ]
      ]
    ]
