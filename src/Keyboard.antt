-- ===== src/Keyboard.antt =====
-- The keyboard driver, kernel/src/drivers/keyboard.c with the tables of
-- kernel/include/drivers/keyboard.h. The two ports that the handler reads are its arguments.
pub mod Queue
mod Examples
use minios_grub_bootloader.Base.{
  ℕ, ◌+◌, ◌-◌, bit_and, not, ◌||◌, Option, none, some, List, [], ◌∷◌, ◌==◌, if◌then◌else◌, u8,
  get_or, set,
}

abbrev pub key_lshift : ℕ
key_lshift = 42

abbrev pub key_rshift : ℕ
key_rshift = 54

abbrev pub key_capslock : ℕ
key_capslock = 58

-- KEYBOARD_BUFFER_SIZE
abbrev pub buffer_size : ℕ
buffer_size = 1024

-- `keyboard_lowercase`; the C array is zero from the last initializer on.
abbrev pub lowercase : List ℕ
lowercase =
    0 ∷ 27 ∷ 49 ∷ 50 ∷ 51 ∷ 52 ∷ 53 ∷ 54 ∷ 55 ∷ 56 ∷ 57 ∷ 48 ∷ 45 ∷ 61 ∷ 8 ∷ 9 ∷ 113 ∷ 119 ∷ 101
    ∷ 114 ∷ 116 ∷ 121 ∷ 117 ∷ 105 ∷ 111 ∷ 112 ∷ 91 ∷ 93 ∷ 10 ∷ 0 ∷ 97 ∷ 115 ∷ 100 ∷ 102 ∷ 103 ∷ 104
    ∷ 106 ∷ 107 ∷ 108 ∷ 59 ∷ 39 ∷ 96 ∷ 0 ∷ 92 ∷ 122 ∷ 120 ∷ 99 ∷ 118 ∷ 98 ∷ 110 ∷ 109 ∷ 44 ∷ 46 ∷ 47
    ∷ 0 ∷ 42 ∷ 0 ∷ 32 ∷ 0 ∷ 0 ∷ 0 ∷ 0 ∷ 0 ∷ 0 ∷ 0 ∷ 0 ∷ 0 ∷ 0 ∷ 0 ∷ 0 ∷ 0 ∷ 0 ∷ 0 ∷ 0 ∷ 45 ∷ 0 ∷ 0
    ∷ 0 ∷ 43 ∷ 0 ∷ 0 ∷ 0 ∷ 0 ∷ 0 ∷ 0 ∷ 0 ∷ 0 ∷ 0 ∷ 0 ∷ 0 ∷ 0 ∷ 0 ∷ 0 ∷ 0 ∷ 0 ∷ 0 ∷ 0 ∷ 0 ∷ 0 ∷ 0 ∷ 0
    ∷ 0 ∷ 0 ∷ 0 ∷ 0 ∷ 0 ∷ 0 ∷ 0 ∷ 0 ∷ 0 ∷ 0 ∷ 0 ∷ 0 ∷ 0 ∷ 0 ∷ 0 ∷ 0 ∷ 0 ∷ 0 ∷ 0 ∷ 0 ∷ 0 ∷ 0 ∷ 0 ∷ 0
    ∷ 0 ∷ 0 ∷ 0 ∷ []

-- `keyboard_uppercase`
abbrev pub uppercase : List ℕ
uppercase =
    0 ∷ 27 ∷ 49 ∷ 50 ∷ 51 ∷ 52 ∷ 53 ∷ 54 ∷ 55 ∷ 56 ∷ 57 ∷ 48 ∷ 45 ∷ 61 ∷ 8 ∷ 9 ∷ 81 ∷ 87 ∷ 69 ∷ 82
    ∷ 84 ∷ 89 ∷ 85 ∷ 73 ∷ 79 ∷ 80 ∷ 91 ∷ 93 ∷ 10 ∷ 0 ∷ 65 ∷ 83 ∷ 68 ∷ 70 ∷ 71 ∷ 72 ∷ 74 ∷ 75 ∷ 76
    ∷ 59 ∷ 39 ∷ 96 ∷ 0 ∷ 92 ∷ 90 ∷ 88 ∷ 67 ∷ 86 ∷ 66 ∷ 78 ∷ 77 ∷ 44 ∷ 46 ∷ 47 ∷ 0 ∷ 42 ∷ 0 ∷ 32 ∷ 0
    ∷ 0 ∷ 0 ∷ 0 ∷ 0 ∷ 0 ∷ 0 ∷ 0 ∷ 0 ∷ 0 ∷ 0 ∷ 0 ∷ 0 ∷ 0 ∷ 0 ∷ 0 ∷ 45 ∷ 0 ∷ 0 ∷ 0 ∷ 43 ∷ 0 ∷ 0 ∷ 0
    ∷ 0 ∷ 0 ∷ 0 ∷ 0 ∷ 0 ∷ 0 ∷ 0 ∷ 0 ∷ 0 ∷ 0 ∷ 0 ∷ 0 ∷ 0 ∷ 0 ∷ 0 ∷ 0 ∷ 0 ∷ 0 ∷ 0 ∷ 0 ∷ 0 ∷ 0 ∷ 0 ∷ 0
    ∷ 0 ∷ 0 ∷ 0 ∷ 0 ∷ 0 ∷ 0 ∷ 0 ∷ 0 ∷ 0 ∷ 0 ∷ 0 ∷ 0 ∷ 0 ∷ 0 ∷ 0 ∷ 0 ∷ 0 ∷ 0 ∷ 0 ∷ 0 ∷ 0 ∷ 0 ∷ []

-- The static variables.
pub record Keyboard : Type 0 where
  pub caps : ℕ
  pub capslock : ℕ
  pub buffer : List ℕ
  pub write_index : ℕ
  pub read_index : ℕ

-- `keyboard_buffer[write_index] = c` and the step of the index, which is of type `uint8_t`.
pub push : ℕ → Keyboard → Keyboard
push c k = record k {
  buffer = set k.buffer k.write_index c;
  write_index = u8 (bit_and (k.write_index + 1) (buffer_size - 1));
}

-- The character of a key.
pub character : Keyboard → ℕ → ℕ
character k key =
    if not (k.caps == k.capslock) then get_or uppercase key 0 else get_or lowercase key 0

pub keyboard_handler : ℕ → ℕ → Keyboard → Keyboard
keyboard_handler status keycode k =
    let release = bit_and keycode 0x80 in
    let key = bit_and keycode 0x7F in
    if bit_and status 1 == 0
    then k
    else if key == key_capslock
    then (if release == 0 then record k { capslock = if k.capslock == 0 then 1 else 0 } else k)
    else if key == key_lshift || key == key_rshift
    then record k { caps = if release == 0 then 1 else 0 }
    else if not (release == 0)
    then k
    else push (character k key) k

-- One test of the waiting loop of `keyboard_getchar` and, where it ends, the rest of the function:
-- `none` is a further turn of the loop. The character is also printed.
pub keyboard_getchar : Keyboard → Option (ℕ × Keyboard)
keyboard_getchar k =
    if k.read_index == k.write_index
    then none
    else some (
      get_or k.buffer k.read_index 0,
      record k { read_index = u8 (bit_and (k.read_index + 1) (buffer_size - 1)) },
    )
