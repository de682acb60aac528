-- ===== src/Supervisor/Leases.antt =====
-- The leases of running tasks in scripts/a9_supervisor.py: running_lease_is_orphaned,
-- interrupt_running_task, archive_completed_running_lease and reconcile_orphaned_running_tasks. The
-- processes, the clock in seconds and the final.md of a run are parameters. A directory is its
-- path, "." for the empty text. Of the records that are written, their status and reason are kept.
use a.Prelude.{
  ℕ, ◌+◌, String, Bool, true, false, ◌||◌, Option, none, some, List, [], ◌∷◌, ◌++◌, ltb,
  if◌then◌else◌, str_eq,
}

-- A process id that is no positive number is `none`, and a start that cannot be read.
pub record Lease : Type 0 where
  pub task_id : String
  pub run_dir : String
  pub started_at : Option ℕ
  pub worker_pid : Option ℕ

pub record Machine : Type 0 where
  pub now : ℕ
  pub pid_alive : ℕ → Bool
  pub process_contains : String → Bool
  pub final_exists : String → Bool

-- What is moved to the directory of the interrupted tasks, with the task's text where it is there.
pub record Archived : Type 0 where
  pub name : String
  pub status : String
  pub reason : String
  pub has_task : Bool

-- `leases` and `tasks` are the files of the running tasks, a lease `none` where it is unreadable;
-- `summaries` the directories that have a summary.json.
pub record Disk : Type 0 where
  pub leases : List (String × Option Lease)
  pub tasks : List String
  pub archived : List Archived
  pub summaries : List String

abbrev pub among : String → List String → Bool
among x [] = false
among x (y ∷ ys) = str_eq y x || among x ys

unfoldable pub remove {ℓ} : {V : Type ℓ} → String → List (String × V) → List (String × V)
remove name [] = []
remove name (entry ∷ entries) =
    let rest = remove name entries in if str_eq entry.0 name then rest else entry ∷ rest

abbrev pub drop_name : String → List String → List String
drop_name name [] = []
drop_name name (x ∷ xs) = let rest = drop_name name xs in if str_eq x name then rest else x ∷ rest

abbrev pub dir_of : Lease → String
dir_of lease = if str_eq lease.run_dir "" then "." else lease.run_dir

abbrev pub pid_lives : Machine → Option ℕ → Bool
pid_lives m none = false
pid_lives m (some pid) = m.pid_alive pid

-- The reason, and whether the lease is orphaned.
unfoldable pub running_lease_is_orphaned : Machine → ℕ → Lease → Disk → Bool × String
running_lease_is_orphaned m max_age lease disk =
    if str_eq lease.run_dir ""
    then (false, "missing_run_dir")
    else if among lease.run_dir disk.summaries
    then (false, "summary_exists")
    else elim lease.started_at [
      | none ↦ (false, "missing_started_at")
      | some started_at ↦
          if ltb m.now (started_at + max_age)
          then (false, "lease_not_old_enough")
          else if pid_lives m lease.worker_pid
          then (false, "worker_pid_alive")
          else if m.process_contains lease.run_dir
          then (false, "worker_process_alive")
          else (true, "no_live_worker_process")
    ]

-- The lease and its task go to the interrupted ones.
unfoldable pub archive : String → String → String → Disk → Disk
unfolding remove
archive name status reason disk = record {
  leases = remove name disk.leases;
  tasks = drop_name name disk.tasks;
  archived =
      disk.archived
      ++ record { name = name; status = status; reason = reason; has_task = among name disk.tasks }
        ∷ [];
  summaries = disk.summaries;
}

-- Its run gets a summary as well.
unfoldable pub interrupt_running_task : String → Lease → String → Disk → Disk
unfolding archive
interrupt_running_task name lease reason disk =
    let moved = archive name "interrupted" reason disk in
    record moved { summaries = dir_of lease ∷ moved.summaries }

unfoldable pub reconcile_one : Machine → ℕ → String → Option Lease → Disk → Disk
unfolding running_lease_is_orphaned interrupt_running_task archive
reconcile_one m max_age name none disk = disk
reconcile_one m max_age name (some lease) disk =
    let verdict = running_lease_is_orphaned m max_age lease disk in
    if among (dir_of lease) disk.summaries
    then archive name "stale-running-archived" "summary_exists_stale_running_lease" disk
    else if m.final_exists (dir_of lease)
    then archive name "stale-running-archived" "final_exists_without_summary_stale_running_lease"
        disk
    else if verdict.0
    then interrupt_running_task name lease verdict.1 disk
    else disk

-- The loop over the leases that were there at its start.
unfoldable pub reconcile_from : Machine → ℕ → List (String × Option Lease) → Disk → Disk
unfolding reconcile_one
reconcile_from m max_age [] disk = disk
reconcile_from m max_age (entry ∷ entries) disk =
    reconcile_from m max_age entries (reconcile_one m max_age entry.0 entry.1 disk)

unfoldable pub reconcile_orphaned_running_tasks : Machine → ℕ → Disk → Disk
unfolding reconcile_from
reconcile_orphaned_running_tasks m max_age disk = reconcile_from m max_age disk.leases disk
