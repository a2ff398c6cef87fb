-- ===== src/Ports/Examples.antt =====
-- The cursor over a device that keeps what is written to its registers.
use minios_grub_bootloader.Base.{
  ℕ, ◌≡◌, refl, true, [], ◌==◌, if◌then◌else◌, test_of_eq, test_of_ne,
}
use minios_grub_bootloader.Ata.{Ports}
use minios_grub_bootloader.Ports.{IsIndexed}
use minios_grub_bootloader.Tty.{Terminal, tty_cursor_update}
use minios_grub_bootloader.Tty.Cursor.{
  tty_cursor_get_pos, send_cursor, tty_cursor_get_pos-tty_cursor_update,
}

-- The selected register and the registers.
abbrev Device : Type 0
Device = ℕ × (ℕ → ℕ)

abbrev indexed : ℕ → Ports Device
indexed index = record {
  inb = λ port s. (s.1 s.0, s);
  inw = λ port s. (s.1 s.0, s);
  outb = λ port v s. if port == index then (v, s.1) else (s.0, λ k. if k == s.0 then v else s.1 k);
  outw = λ port v s. s;
}

cursor-IsIndexed : IsIndexed (indexed 0x3D4) 0x3D4 0x3D5 (λ r. true)
cursor-IsIndexed = record {
  selected = λ s. s.0;
  register = λ s. s.1;
  selects = λ r s e. refl;
  select_keeps = λ r s k. refl;
  reads = λ s e. refl;
  read_keeps = λ s k. refl;
  read_selected = λ s. refl;
  writes = λ v s e p. rw (test_of_eq s.0 s.0 refl) refl;
  write_keeps = λ v s k ne. rw (test_of_ne k s.0 ne) refl;
}

abbrev zeros : Device
zeros = (0, λ k. 0)

abbrev terminal : Terminal
terminal = record { row = 0; column = 0; color = 7; buffer = []; cursor = 0 }

tty_cursor_get_pos-tty_cursor_update_example :
    (tty_cursor_get_pos (indexed 0x3D4) (send_cursor (indexed 0x3D4) 79 24 zeros)).0
    ≡ (tty_cursor_update 79 24 terminal).cursor
tty_cursor_get_pos-tty_cursor_update_example =
    tty_cursor_get_pos-tty_cursor_update cursor-IsIndexed refl refl 79 24 zeros terminal
