-- ===== src/Process.antt =====
-- Processes, kernel/src/process.c. The state is that of the page allocator, the bytes of the pages that it
-- gives out, the table of processes and the number of the next one. The messages are not part of it.
pub mod Free
pub mod Create
pub mod Terminate
mod Examples
use minios_grub_bootloader.Base.{
  ℕ, zero, suc, ◌+◌, ◌-◌, ◌*◌, ◌/◌, ◌%◌, ◌^◌, ◌≤◌, ◌<◌, min, bit_and, bit_or, ◌≡◌, refl, sym, ap,
  ap₂, ◌∙◌, ◌≢◌, ◌↔◌, ◌⊎◌, inl, inr, Bool, true, false, not, ◌&&◌, ◌||◌, Option, none, some, List,
  [], ◌∷◌, ◌++◌, map, append-nil, append_assoc, arith, ltb, leb, ◌==◌, if◌then◌else◌, Bool-cases,
  Option-cases, u8, u16, u32, ◌<<<◌, ◌>>>◌, length, get_elem?, get_or, set, take, drop, replicate,
}
use minios_grub_bootloader.Vmm.{
  kernel_stack_size, kernel_stack_base, Directory, kernel, user, vmm_create_user_page_directory,
  vmm_destroy_user_page_directory, vmm_mappage,
}
use minios_grub_bootloader.Libc.Memory.{Bytes, memcpy, memset}
use minios_grub_bootloader.Pmm.{
  pmm_alloc_page, pmm_free_page, failed_allocate_page_table, page_already_allocated, page_fault,
  returned, page_size,
}
use minios_grub_bootloader.Pmm

abbrev pub max_processes : ℕ
max_processes = 10

abbrev pub user_program_base : ℕ
user_program_base = 0x80000000

pub data ProcessState : Type 0 where
  unused : ProcessState
  embryo : ProcessState
  runnable : ProcessState
  running : ProcessState

abbrev pub is_unused : ProcessState → Bool
is_unused unused = true
is_unused embryo = false
is_unused runnable = false
is_unused running = false

-- `process_t`, less its name and `kernel_stack_size`, which no function uses. A pointer is an address.
pub record Process : Type 0 where
  pub pid : ℕ
  pub state : ProcessState
  pub context : ℕ
  pub page_directory : ℕ
  pub stack_pointer : ℕ
  pub kernel_stack : ℕ

-- `memset(p, 0, sizeof(process_t))`
abbrev pub zeroed_process : Process
zeroed_process = record {
  pid = 0;
  state = unused;
  context = 0;
  page_directory = 0;
  stack_pointer = 0;
  kernel_stack = 0;
}

pub record System : Type 0 where
  pub pmm : Pmm.State
  pub memory : Bytes
  pub process : List Process
  pub next_pid : ℕ

-- `sizeof(process_context_t)`
abbrev pub context_size : ℕ
context_size = 20

-- A panic, a loop that does not end, or a return.
pub data Result (A : Type 0) : Type 0 where
  panics : Result A
  unending : Result A
  returns : A → System → Result A

-- The first slot that is not in use.
pub find_unused : ℕ → List Process → Option ℕ
find_unused i [] = none
find_unused i (p ∷ ps) =
    let rest = find_unused (i + 1) ps in if is_unused p.state then some i else rest

abbrev pub put_process : ℕ → Process → System → System
put_process i p s = record s { process = set s.process i p }

-- `p->state = PROCESS_STATE_UNUSED; return NULL;` with what is given back before.
abbrev pub give_up : ℕ → Process → Pmm.State → System → Result (Option ℕ)
give_up i p pmm s =
    returns none (put_process i (record p { state = unused }) (record s { pmm = pmm }))

-- The bytes of a page that has just been cleared.
abbrev pub clear_bytes : ℕ → Bytes → Bytes
clear_bytes page m = memset page 0 page_size m

-- The context at the top of the stack: zeros, and the address where the program starts.
abbrev pub put_context : ℕ → Bytes → Bytes
put_context sp m =
    let zeroed = memset sp 0 context_size m in λ a. if a == sp + 19 then 0x80 else zeroed a

-- The end of `process_create`, after the code page is mapped.
pub finish : ℕ → Process → ℕ → ℕ → ℕ → System → Result (Option ℕ)
finish i p code program size s =
    let sp_va = kernel_stack_base + kernel_stack_size - context_size in
    let sp_pa = u32 (p.kernel_stack + kernel_stack_size - context_size) in
    returns (some i) (
      put_process i (record p { context = sp_pa; stack_pointer = sp_va; state = runnable })
        (record s { memory = put_context sp_pa (memcpy code program size s.memory) }))

-- From the allocation of the code page on.
pub with_code : ℕ → Process → ℕ → ℕ → System → Result (Option ℕ)
with_code i p program size s = elim (pmm_alloc_page s.pmm) [
  | failed_allocate_page_table ↦ panics
  | page_already_allocated ↦ panics
  | page_fault ↦ panics
  | returned none pmm ↦
      give_up i p
        (vmm_destroy_user_page_directory p.page_directory (pmm_free_page p.kernel_stack pmm)) s
  | returned (some code) pmm ↦
      elim (vmm_mappage (user p.page_directory) user_program_base code true false false
        kernel_stack_size pmm) [
          | none ↦ unending
          | some (failed, pmm') ↦ elim failed [
            | true ↦
                give_up i p
                  (pmm_free_page code (
                    vmm_destroy_user_page_directory p.page_directory
                      (pmm_free_page p.kernel_stack pmm')))
                  s
            | false ↦
                finish i p code program size
                  (record s { pmm = pmm'; memory = clear_bytes code s.memory })
          ]
        ]
]

-- From the allocation of the kernel stack on.
pub with_stack : ℕ → Process → ℕ → ℕ → System → Result (Option ℕ)
with_stack i p program size s = elim (pmm_alloc_page s.pmm) [
  | failed_allocate_page_table ↦ panics
  | page_already_allocated ↦ panics
  | page_fault ↦ panics
  | returned none pmm ↦
      give_up i (record p { kernel_stack = 0 })
        (vmm_destroy_user_page_directory p.page_directory pmm) s
  | returned (some stack) pmm ↦
      let p' = record p { kernel_stack = stack } in
      elim (vmm_mappage (user p.page_directory) kernel_stack_base stack true false false
        kernel_stack_size pmm) [
          | none ↦ unending
          | some (failed, pmm') ↦ elim failed [
            | true ↦
                give_up i p'
                  (vmm_destroy_user_page_directory p.page_directory (pmm_free_page stack pmm')) s
            | false ↦
                with_code i p' program size
                  (record s { pmm = pmm'; memory = clear_bytes stack s.memory })
          ]
        ]
]

module _ (kpage_table1 kpage_table2 : ℕ) where
  -- The slot of the new process, or NULL; the changes of the slot on the way are collected.
  pub process_create : ℕ → ℕ → System → Result (Option ℕ)
  process_create program size s = elim (find_unused 0 (take max_processes s.process)) [
    | none ↦ returns none s
    | some i ↦
        let p = record zeroed_process { pid = s.next_pid; state = embryo } in
        let s' = record s { next_pid = u32 (s.next_pid + 1) } in
        let (page, pmm) = vmm_create_user_page_directory kpage_table1 kpage_table2 s.pmm in
        elim page [
          | none ↦ give_up i p pmm s'
          | some pgdir ↦
              with_stack i (record p { page_directory = pgdir }) program size
                (record s' { pmm = pmm })
        ]
  ]

-- A slot of the table.
abbrev pub slot : System → ℕ → Process
slot s i = get_or s.process i zeroed_process

-- `ptable.process->pid` is the identifier of the first slot in every turn, and `p` is the slot of the turn.
pub find_pid : ℕ → ℕ → ℕ → System → Option ℕ
find_pid zero i pid s = none
find_pid (suc left) i pid s =
    let rest = find_pid left (i + 1) pid s in if (slot s 0).pid == pid then some i else rest

-- Interrupts are off while the slot is given back.
pub process_terminate : Process → System → System
process_terminate proc s = elim (find_pid max_processes 0 proc.pid s) [
  | none ↦ s
  | some i ↦
      let p = slot s i in
      record (put_process i (record p { state = unused }) s) {
        pmm = vmm_destroy_user_page_directory p.page_directory s.pmm;
      }
]
