-- ===== src/Scheduler/Yield.antt =====
-- What `schedule` does while a process is current.
use minios_grub_bootloader.Base.{
  ℕ, zero, suc, ◌+◌, ◌≤◌, ◌<◌, ◌≡◌, refl, sym, ap, ◌∙◌, inl, inr, true, false, Option, some, arith,
  ◌==◌, if◌then◌else◌, Bool-cases, length, get_or-set_self, get_or-set_ne, eq_of_test, ne_of_test,
  length-set,
}
use minios_grub_bootloader.Scheduler.{
  returned, schedule, Scheduler, halted, is_runnable, choose, schedule_loop,
}
use minios_grub_bootloader.Process.{zeroed_process, max_processes, Process, running, slot}

-- A slot after every process that is ready has been marked as running.
abbrev pub marked : Process → Process
marked p = if is_runnable p.state then record p { state = running } else p

marked_ready : (p : Process) → is_runnable p.state ≡ true → marked p ≡ record p { state = running }
marked_ready p e = rw e refl

marked_other : (p : Process) → is_runnable p.state ≡ false → marked p ≡ p
marked_other p e = rw e refl

module _ (switch_context : ℕ → Scheduler → Option Scheduler) where
  schedule_loop-halted :
      (left i : ℕ) (s : Scheduler) (c : ℕ)
      → s.current_process ≡ some c
      → i + left ≤ length s.system.process
      → (s' : Scheduler) × (schedule_loop switch_context left i s ≡ halted s')
        × ((k : ℕ) → i ≤ k → k < i + left → slot s'.system k ≡ marked (slot s.system k))
        × ((k : ℕ) → k < i → slot s'.system k ≡ slot s.system k)
        × (s'.scheduler_running ≡ false)
  unfolding schedule_loop
  schedule_loop-halted zero i s c e fits = (
    record s { scheduler_running = false },
    refl,
    (λ k p q. absurd (omega arith)),
    (λ k p. refl),
    refl,
  )
  schedule_loop-halted (suc left) i s c e fits =
      elim (Bool-cases (is_runnable (slot s.system i).state)) [
        | inr waits ↦
            let (s', done, after, before, off) =
              schedule_loop-halted left (i + 1) s c e (omega arith) in
            (
              s',
              rw (schedule_loop, waits) done,
              (λ k p q. elim (Bool-cases (k == i)) [
                | inl here ↦
                    rw (eq_of_test k i here)
                      (before i (omega arith) ∙ sym (marked_other (slot s.system i) waits))
                | inr there ↦ after k (omega (arith, ne_of_test k i there)) (omega arith)
              ]),
              (λ k p. before k (omega arith)),
              off,
            )
        | inl ready ↦
            let p' : Process = record (slot s.system i) { state = running } in
            let long : length (choose i s).system.process ≡ length s.system.process =
              length-set s.system.process i p' in
            let (s', done, after, before, off) =
              schedule_loop-halted left (i + 1) (choose i s) i refl (omega (arith, long)) in
            (
              s',
              rw (schedule_loop, ready, e) done,
              (λ k p q. elim (Bool-cases (k == i)) [
                | inl here ↦ rw (eq_of_test k i here) (
                    before i (omega arith)
                    ∙ get_or-set_self s.system.process i p' zeroed_process (omega arith)
                    ∙ sym (marked_ready (slot s.system i) ready))
                | inr there ↦
                    after k (omega (arith, ne_of_test k i there)) (omega arith)
                    ∙ ap marked (
                        get_or-set_ne s.system.process i k p' zeroed_process
                          (λ z. ne_of_test k i there (sym z)))
              ]),
              (λ k p.
                  before k (omega arith)
                  ∙ get_or-set_ne s.system.process i k p' zeroed_process (λ z. omega (arith, z))),
              off,
            )
      ]

  -- With a full table of processes and a process that is current, `schedule` of a running
  -- scheduler, which is what `yield` calls, never switches: it marks every process of the table
  -- that is ready as running, changes no other slot, and halts the system.
  pub schedule_halts :
      (s : Scheduler) (c : ℕ)
      → s.scheduler_running ≡ true
      → s.current_process ≡ some c
      → length s.system.process ≡ max_processes
      → (s' : Scheduler) × (schedule switch_context s ≡ halted s')
        × ((k : ℕ) → k < max_processes → slot s'.system k ≡ marked (slot s.system k))
        × (s'.scheduler_running ≡ false)
  unfolding schedule
  schedule_halts s c on e full =
      let enters : schedule switch_context s ≡ schedule_loop switch_context max_processes 0 s =
        ap (λ b. if b then schedule_loop switch_context max_processes 0 s else returned s) on in
      let (s', done, after, before, off) =
        schedule_loop-halted max_processes 0 s c e (omega (arith, full)) in
      (s', enters ∙ done, (λ k p. after k (omega arith) (omega arith)), off)
