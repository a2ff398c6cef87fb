-- ===== src/Process/Create.antt =====
-- The results of `process_create`.
use minios_grub_bootloader.Base.{
  ℕ, ◌+◌, ◌-◌, ◌≡◌, refl, ap, ◌⊎◌, inl, inr, true, false, Option, none, some, arith, Bool-cases,
  Option-cases, u32, set, take,
}
use minios_grub_bootloader.Vmm.{
  kernel_stack_size, kernel_stack_base, vmm_create_user_page_directory, user,
}
use minios_grub_bootloader.Process.Free.{
  AllUsed, IsFirstFree, find_unused-none, find_unused-IsFirstFree,
}
use minios_grub_bootloader.Process.{
  zeroed_process, embryo, with_stack, process_create, Process, System, Result, panics, returns,
  unused, runnable, max_processes, user_program_base, context_size, give_up, finish, with_code,
  find_unused, clear_bytes,
}
use minios_grub_bootloader.Vmm.Walk.{vmm_mappage-Ends}
use minios_grub_bootloader.Pmm.{
  Outcome, failed_allocate_page_table, page_already_allocated, page_fault, returned, pmm_alloc_page,
  pmm_free_page,
}
use minios_grub_bootloader.Pmm

-- What the table of processes is after `process_create`: there is no free slot and nothing is changed,
-- or the first free slot `i` has been filled, or it has been tried and is free again.
pub data IsCreation (s : System) : Result (Option ℕ) → Type 0 where
  panicked : IsCreation s panics
  no_slot : AllUsed (take max_processes s.process) → IsCreation s (returns none s)
  refused :
      (i : ℕ) (p : Process) (s' : System)
      → IsFirstFree s.process i
      → p.state ≡ unused
      → p.pid ≡ s.next_pid
      → s'.process ≡ set s.process i p
      → s'.next_pid ≡ u32 (s.next_pid + 1)
      → IsCreation s (returns none s')
  created :
      (i : ℕ) (p : Process) (s' : System)
      → IsFirstFree s.process i
      → p.state ≡ runnable
      → p.pid ≡ s.next_pid
      → p.stack_pointer ≡ 0x10000FEC
      → p.context ≡ u32 (p.kernel_stack + 0xFEC)
      → s'.process ≡ set s.process i p
      → s'.next_pid ≡ u32 (s.next_pid + 1)
      → IsCreation s (returns (some i) s')

Outcome-cases :
    (o : Outcome)
    → ((o ≡ failed_allocate_page_table) ⊎ ((o ≡ page_already_allocated) ⊎ (o ≡ page_fault)))
      ⊎ (((m : Pmm.State) × (o ≡ returned none m))
          ⊎ ((page : ℕ) × (m : Pmm.State) × (o ≡ returned (some page) m)))
Outcome-cases failed_allocate_page_table = inl (inl refl)
Outcome-cases page_already_allocated = inl (inr (inl refl))
Outcome-cases page_fault = inl (inr (inr refl))
Outcome-cases (returned none m) = inr (inl (m, refl))
Outcome-cases (returned (some page) m) = inr (inr (page, m, refl))

module _ (s : System) (i : ℕ) (found : IsFirstFree s.process i) where
  -- A system on the way.
  record IsBegun (t : System) : Type 0 where
    same_table : t.process ≡ s.process
    numbered : t.next_pid ≡ u32 (s.next_pid + 1)

  give_up-IsCreation :
      (p : Process) (m : Pmm.State) (t : System)
      → p.pid ≡ s.next_pid
      → IsBegun t
      → IsCreation s (give_up i p m t)
  give_up-IsCreation p m t e b =
      refused i (record p { state = unused }) _ found refl e
        (ap (λ l. set l i (record p { state = unused })) b.same_table) b.numbered

  finish-IsCreation :
      (p : Process) (code program size : ℕ) (t : System)
      → p.pid ≡ s.next_pid
      → IsBegun t
      → IsCreation s (finish i p code program size t)
  unfolding finish
  finish-IsCreation p code program size t e b =
      let p' : Process = record p {
        context = u32 (p.kernel_stack + kernel_stack_size - context_size);
        stack_pointer = kernel_stack_base + kernel_stack_size - context_size;
        state = runnable;
      } in
      created i p' _ found refl e refl (ap u32 (omega arith)) (ap (λ l. set l i p') b.same_table)
        b.numbered

  with_code-IsCreation :
      (p : Process) (program size : ℕ) (t : System)
      → p.pid ≡ s.next_pid
      → IsBegun t
      → IsCreation s (with_code i p program size t)
  unfolding with_code
  with_code-IsCreation p program size t e b = elim (Outcome-cases (pmm_alloc_page t.pmm)) [
    | inl (inl q) ↦ rw (with_code, q) panicked
    | inl (inr (inl q)) ↦ rw (with_code, q) panicked
    | inl (inr (inr q)) ↦ rw (with_code, q) panicked
    | inr (inl (m, q)) ↦ rw (with_code, q) (give_up-IsCreation p _ t e b)
    | inr (inr (code, m, q)) ↦
        let (failed, m', ended) =
          vmm_mappage-Ends (user p.page_directory) user_program_base code true false false
            kernel_stack_size m (omega arith) in
        elim (Bool-cases failed) [
          | inl yes_failed ↦ rw (with_code, q, ended, yes_failed) (give_up-IsCreation p _ t e b)
          | inr not_failed ↦
              rw (with_code, q, ended, not_failed)
                (finish-IsCreation p code program size
                  (record t { pmm = m'; memory = clear_bytes code t.memory }) e
                  (record { same_table = b.same_table; numbered = b.numbered }))
        ]
  ]

  with_stack-IsCreation :
      (p : Process) (program size : ℕ) (t : System)
      → p.pid ≡ s.next_pid
      → IsBegun t
      → IsCreation s (with_stack i p program size t)
  unfolding with_stack
  with_stack-IsCreation p program size t e b = elim (Outcome-cases (pmm_alloc_page t.pmm)) [
    | inl (inl q) ↦ rw (with_stack, q) panicked
    | inl (inr (inl q)) ↦ rw (with_stack, q) panicked
    | inl (inr (inr q)) ↦ rw (with_stack, q) panicked
    | inr (inl (m, q)) ↦
        rw (with_stack, q) (give_up-IsCreation (record p { kernel_stack = 0 }) _ t e b)
    | inr (inr (stack, m, q)) ↦
        let (failed, m', ended) =
          vmm_mappage-Ends (user p.page_directory) kernel_stack_base stack true false false
            kernel_stack_size m (omega arith) in
        elim (Bool-cases failed) [
          | inl yes_failed ↦
              rw (with_stack, q, ended, yes_failed)
                (give_up-IsCreation (record p { kernel_stack = stack }) _ t e b)
          | inr not_failed ↦
              rw (with_stack, q, ended, not_failed)
                (with_code-IsCreation (record p { kernel_stack = stack }) program size
                  (record t { pmm = m'; memory = clear_bytes stack t.memory }) e
                  (record { same_table = b.same_table; numbered = b.numbered }))
        ]
  ]

-- `process_create` panics or faults in the page allocator or returns, whatever the state: with no free slot it
-- changes nothing; otherwise it takes the next number, puts it into the first free slot, and either fills
-- that slot with a runnable process, whose stack has room for its context and nothing else, or leaves it
-- free; no other slot is changed.
pub process_create-IsCreation :
    (kpage_table1 kpage_table2 program size : ℕ) (s : System)
    → IsCreation s (process_create kpage_table1 kpage_table2 program size s)
unfolding process_create
process_create-IsCreation kpage_table1 kpage_table2 program size s =
    elim (Option-cases (find_unused 0 (take max_processes s.process))) [
      | inl full ↦ rw (process_create, full) (no_slot (find_unused-none 0 _ full))
      | inr (i, found) ↦
          elim (Option-cases (vmm_create_user_page_directory kpage_table1 kpage_table2 s.pmm).0) [
            | inl none_left ↦
                rw (process_create, found, none_left)
                  (give_up-IsCreation s i (find_unused-IsFirstFree s.process i found)
                    (record zeroed_process { pid = s.next_pid; state = embryo })
                    (vmm_create_user_page_directory kpage_table1 kpage_table2 s.pmm).1
                    (record s { next_pid = u32 (s.next_pid + 1) }) refl
                    (record { same_table = refl; numbered = refl }))
            | inr (pgdir, page) ↦
                rw (process_create, found, page)
                  (with_stack-IsCreation s i (find_unused-IsFirstFree s.process i found) _ program
                    size _ refl (record { same_table = refl; numbered = refl }))
          ]
    ]
