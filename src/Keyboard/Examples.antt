-- ===== src/Keyboard/Examples.antt =====
-- The theorems about keyboard.c on a ring whose indices are about to wrap.
use minios_grub_bootloader.Base.{ℕ, ◌<◌, ◌≡◌, [], ◌∷◌, ◌++◌, arith, replicate, length-replicate}
use minios_grub_bootloader.Keyboard.{Keyboard, character, keyboard_handler, keyboard_getchar}
use minios_grub_bootloader.Keyboard.Queue.{
  keyboard_getchar-IsGot, IsGot, IsValid, pending, pending-keyboard_handler,
}

abbrev ring : ℕ → Keyboard
ring read_index = record {
  caps = 0;
  capslock = 1;
  buffer = replicate 1024 0;
  write_index = 255;
  read_index = read_index;
}

ring-IsValid : (i : ℕ) → i < 256 → IsValid (ring i)
ring-IsValid i h = record {
  write_index = omega arith;
  read_index = h;
  room = length-replicate {A = ℕ} 1024 0;
}

pending-keyboard_handler_example :
    pending (keyboard_handler 1 30 (ring 254))
    ≡ pending (ring 254) ++ (character (ring 254) 30 ∷ [])
pending-keyboard_handler_example =
    pending-keyboard_handler 1 30 (ring 254) (ring-IsValid 254 (omega arith)) (omega arith)

keyboard_getchar-IsGot_example : IsGot (ring 254) (keyboard_getchar (ring 254))
keyboard_getchar-IsGot_example = keyboard_getchar-IsGot (ring 254) (ring-IsValid 254 (omega arith))
