-- ===== src/Process/Terminate.antt =====
-- What `process_terminate` does.
use minios_grub_bootloader.Base.{
  test_of_eq, test_of_ne, ℕ, zero, suc, ◌+◌, ◌≡◌, refl, ◌≢◌, true, false, none, some, ◌==◌,
}
use minios_grub_bootloader.Vmm.{vmm_destroy_user_page_directory}
use minios_grub_bootloader.Process.{
  Process, System, unused, max_processes, put_process, slot, find_pid, process_terminate,
}

find_pid-other : (left i pid : ℕ) (s : System) → (slot s 0).pid ≢ pid → find_pid left i pid s ≡ none
unfolding find_pid
find_pid-other zero i pid s ne = refl
find_pid-other (suc left) i pid s ne =
    let test : ((slot s 0).pid == pid) ≡ false = test_of_ne (slot s 0).pid pid ne in
    rw (find_pid, test) (find_pid-other left (i + 1) pid s ne)

find_pid-first :
    (left pid : ℕ) (s : System) → (slot s 0).pid ≡ pid → find_pid (suc left) 0 pid s ≡ some 0
unfolding find_pid
find_pid-first left pid s e =
    let test : ((slot s 0).pid == pid) ≡ true = test_of_eq (slot s 0).pid pid e in
    rw (find_pid, test) refl

-- A process whose identifier is that of the first slot is taken out of the first slot and its directory
-- is destroyed; for every other process, wherever it stands in the table, `process_terminate` changes
-- nothing.
pub process_terminate_first :
    (proc : Process) (s : System)
    → ((slot s 0).pid ≡ proc.pid
        → process_terminate proc s
          ≡ record (put_process 0 (record (slot s 0) { state = unused }) s) {
            pmm = vmm_destroy_user_page_directory (slot s 0).page_directory s.pmm;
          })
      × ((slot s 0).pid ≢ proc.pid → process_terminate proc s ≡ s)
unfolding process_terminate
process_terminate_first proc s = (
  λ e. rw (process_terminate, find_pid-first 9 proc.pid s e) refl,
  λ ne. rw (process_terminate, find_pid-other max_processes 0 proc.pid s ne) refl,
)
