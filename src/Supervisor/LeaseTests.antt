-- ===== src/Supervisor/LeaseTests.antt =====
-- The leases on a concrete disk.
use a.Prelude.{◌≡◌, ◌↔◌, ◌⊎◌, inl, refl, true, false, none, some, [], ◌∷◌, ◌==◌, eq_iff}
use mathlib.Core.Bool.{false≢true}
use a.Prelude.Dict.{lookup}
use a.Supervisor.Leases.{
  Lease, Machine, Disk, among, dir_of, reconcile_one, reconcile_orphaned_running_tasks,
}
use a.Supervisor.Reconciled.{OnlyLease, IsOrphan, keeps_alive, reconcile_one_iff}

abbrev living : Lease
living = record { task_id = "t1"; run_dir = "runs/1"; started_at = some 0; worker_pid = some 7 }

abbrev dead : Lease
dead = record { task_id = "t2"; run_dir = "runs/2"; started_at = some 0; worker_pid = some 8 }

abbrev machine : Machine
machine = record {
  now = 1000;
  pid_alive = λ pid. pid == 7;
  process_contains = λ dir. false;
  final_exists = λ dir. false;
}

abbrev disk : Disk
disk = record {
  leases = ("t1", some living) ∷ ("t2", some dead) ∷ [];
  tasks = "t1" ∷ "t2" ∷ [];
  archived = [];
  summaries = [];
}

-- The dead worker's task is interrupted, the other one stays.
reconciled : (reconcile_orphaned_running_tasks machine 60 disk).leases ≡ ("t1", some living) ∷ []
unfolding reconcile_orphaned_running_tasks
reconciled = refl

disk-OnlyLease : OnlyLease "t1" living disk.leases
disk-OnlyLease = ((λ h. refl), ((λ h. absurd (false≢true ((eq_iff "t2" "t1").1 h))), tt))

keeps_alive_example :
    lookup "t1" (reconcile_orphaned_running_tasks machine 60 disk).leases ≡ some (some living)
unfolding lookup reconcile_orphaned_running_tasks
keeps_alive_example =
    keeps_alive machine 60 "t1" living disk refl disk-OnlyLease (inl refl) refl refl

reconcile_one_iff_example :
    (lookup "t2" (reconcile_one machine 60 "t2" (some dead) disk).leases ≡ none) ↔ (
      (among (dir_of dead) disk.summaries ≡ true)
      ⊎ ((machine.final_exists (dir_of dead) ≡ true) ⊎ IsOrphan machine 60 dead))
unfolding lookup
reconcile_one_iff_example = reconcile_one_iff machine 60 "t2" dead disk refl
