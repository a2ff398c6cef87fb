-- ===== src/Syscall/Read.antt =====
-- A key that is pressed reaches the process that reads.
use minios_grub_bootloader.Base.{
  ℕ, bit_and, ◌≡◌, refl, ap, ◌∙◌, true, Option, some, List, [], ◌∷◌, arith,
}
use minios_grub_bootloader.Keyboard.Queue.{
  slice, pending_count, IsValid, IsGot, waits, takes, pending, is_press, keyboard_getchar-IsGot,
  pending-keyboard_handler, keyboard_handler-IsValid,
}
use minios_grub_bootloader.Keyboard.{Keyboard, character, keyboard_handler, keyboard_getchar}
use minios_grub_bootloader.Tty.{tty_putchar}
use minios_grub_bootloader.Scheduler.{Scheduler}
use minios_grub_bootloader.Syscall.{
  Registers, Kernel, answered, syscall_read, syscalls, syscall_handler,
}

-- Exactly one character waits.
one_waits :
    (k : Keyboard) (c : ℕ) (o : Option (ℕ × Keyboard))
    → IsGot k o
    → pending k ≡ c ∷ []
    → (k' : Keyboard) × (o ≡ some (c, k')) × (pending k' ≡ [])
one_waits k c o (waits e) one = absurd (cc)
one_waits k c o (takes {c = c'} {k' = k'} e v) one =
    let same : c' ≡ c = cc in let rest : pending k' ≡ [] = cc in (k', rw same refl, rest)

-- A running read of the keyboard (call 0 with 0 in ebx), with the indices of the keyboard in its buffer and
-- no character waiting: after the interrupt of a key that is pressed, the call returns with the character
-- of that key in ecx, prints it, and leaves no character waiting.
pub syscall_handler-press :
    (switch_context : ℕ → Scheduler → Option Scheduler) (garbage : ℕ) (string_at : ℕ → List ℕ)
    (status keycode : ℕ) (regs : Registers) (k : Kernel)
    → IsValid k.keyboard
    → k.keyboard.read_index ≡ k.keyboard.write_index
    → is_press status keycode ≡ true
    → regs.eax ≡ 0
    → regs.ebx ≡ 0
    → (let c = character k.keyboard (bit_and keycode 0x7F) in
        (keyboard : Keyboard) × (syscall_handler switch_context garbage string_at regs
            (record k { keyboard = keyboard_handler status keycode k.keyboard })
          ≡ answered true
              (record regs { ecx = c })
              (record k { keyboard = keyboard; terminal = tty_putchar c k.terminal }))
        × (pending keyboard ≡ []))
unfolding syscall_handler syscalls syscall_read
syscall_handler-press switch_context garbage string_at status keycode regs k v idle press number
      source =
    let c = character k.keyboard (bit_and keycode 0x7F) in
    let after = keyboard_handler status keycode k.keyboard in
    let none_waits : pending_count k.keyboard ≡ 0 = omega (arith, idle, v.write_index) in
    let nothing : pending k.keyboard ≡ [] =
      ap (λ n. slice n k.keyboard.read_index k.keyboard.buffer) none_waits in
    let one : pending after ≡ c ∷ [] =
      pending-keyboard_handler status keycode k.keyboard v (omega (arith, none_waits))
      ∙ rw (press, nothing) refl in
    let (keyboard, taken, empty) =
      one_waits after c (keyboard_getchar after)
        (keyboard_getchar-IsGot after (keyboard_handler-IsValid status keycode k.keyboard v)) one in
    (keyboard, rw (syscall_handler, syscalls, syscall_read, number, source, taken) refl, empty)
