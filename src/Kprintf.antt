-- ===== src/Kprintf.antt =====
-- Formatted output, kernel/src/utils/kprintf.c with kernel/include/utils/kprintf.h, for the 32-bit
-- target: an argument is a word of 32 bits, `int` and `long` are one word, `long long` is two.
-- `none` is the divide error of the `divl` instruction, whose quotient has to fit 32 bits.
mod Digits
mod Signed
pub mod Panic
mod Examples
use minios_grub_bootloader.Base.{
  ℕ, zero, suc, ◌+◌, ◌-◌, ◌*◌, ◌/◌, ◌%◌, ◌^◌, Bool, true, false, ◌||◌, Option, none, some, List, [],
  ◌∷◌, ltb, ◌==◌, if◌then◌else◌, u8, get_or, drop,
}
use minios_grub_bootloader.Tty.{Terminal, tty_putchar, tty_puts, put_bytes}

-- PRINTF_LENGTH_*
pub data Length : Type 0 where
  default : Length
  short_short : Length
  short : Length
  long : Length
  long_long : Length

-- The remainder and the quotient.
pub div64_32 : ℕ → ℕ → Option (ℕ × ℕ)
div64_32 number divisor =
    if ltb (number / 2 ^ 32) divisor then some (number % divisor, number / divisor) else none

abbrev pub hex_chars : List ℕ
hex_chars = 48 ∷ 49 ∷ 50 ∷ 51 ∷ 52 ∷ 53 ∷ 54 ∷ 55 ∷ 56 ∷ 57 ∷ 97 ∷ 98 ∷ 99 ∷ 100 ∷ 101 ∷ 102 ∷ []

-- The loop that fills `buffer`, a list with the character written last at its head, while there is
-- room for `room` more characters; a character past that room is `none` too.
pub convert : ℕ → ℕ → ℕ → List ℕ → Option (List ℕ)
convert zero radix number buffer = none
convert (suc room) radix number buffer = elim (div64_32 number radix) [
  | none ↦ none
  | some r ↦
      let buffer' = get_or hex_chars r.0 0 ∷ buffer in
      elim (r.1 == 0) [ true ↦ some buffer' | false ↦ convert room radix r.1 buffer' ]
]

-- `n = -n` and the conversion to `unsigned long long`, for an `n` of `width` bits in two's
-- complement: the magnitude and whether `n` is negative.
pub magnitude : ℕ → ℕ → ℕ × Bool
magnitude width n =
    let negated = (2 ^ width - n) % 2 ^ width in
    if ltb n (2 ^ (width - 1))
    then (n, false)
    else if ltb negated (2 ^ (width - 1))
    then (negated, true)
    else (2 ^ 64 - 2 ^ width + negated, true)

-- The switch on `length`: the number, whether it is negative, and the words that `argp` moves.
pub read_number : List ℕ → Length → Bool → (ℕ × Bool) × ℕ
read_number argp long sign =
    (if sign then magnitude 32 (get_or argp 0 0) else (get_or argp 0 0, false), 2)
read_number argp long_long sign =
    let n = get_or argp 0 0 + get_or argp 1 0 * 2 ^ 32 in
    (if sign then magnitude 64 n else (n, false), 4)
read_number argp default sign =
    (if sign then magnitude 32 (get_or argp 0 0) else (get_or argp 0 0, false), 1)
read_number argp short sign =
    (if sign then magnitude 32 (get_or argp 0 0) else (get_or argp 0 0, false), 1)
read_number argp short_short sign =
    (if sign then magnitude 32 (get_or argp 0 0) else (get_or argp 0 0, false), 1)

-- The characters that `printf_number` prints, in the order of the printing, from the last written
-- on: the buffer has 32 places.
pub number_text : ℕ × Bool → ℕ → Option (List ℕ)
number_text (number, negative) radix = elim (convert 32 radix number []) [
  | none ↦ none
  | some buffer ↦ some (if negative then 45 ∷ buffer else buffer)
]

-- The terminal and the arguments that are left.
pub printf_number : List ℕ → Length → Bool → ℕ → Terminal → Option (List ℕ × Terminal)
printf_number argp size sign radix t =
    let (number, words) = read_number argp size sign in
    elim (number_text number radix) [
      | none ↦ none
      | some text ↦ some (drop words argp, put_bytes text t)
    ]

-- PRINTF_STATE_*
pub data Mode : Type 0 where
  normal : Mode
  length_state : Mode
  length_short : Mode
  length_long : Mode
  spec : Mode

-- The local variables of `kprintf` but the radix and the sign, which every conversion sets itself.
pub record Printer : Type 0 where
  pub mode : Mode
  pub size : Length
  pub argp : List ℕ
  pub terminal : Terminal

-- The end of a conversion: the state and the length are reset.
pub to_normal : List ℕ → Terminal → Printer
to_normal argp t = record { mode = normal; size = default; argp = argp; terminal = t }

-- A conversion that calls `printf_number`.
pub print_number : Bool → ℕ → Printer → Option Printer
print_number sign radix p = elim (printf_number p.argp p.size sign radix p.terminal) [
  | none ↦ none
  | some r ↦ some (to_normal r.0 r.1)
]

-- The code from the label PRINTF_STATE_SPEC_ on, where `string` reads a string at an address.
pub print_spec : (ℕ → List ℕ) → ℕ → Printer → Option Printer
print_spec string c p =
    let word = get_or p.argp 0 0 in
    if c == 99
    then some (to_normal (drop 1 p.argp) (tty_putchar (u8 word) p.terminal))
    else if c == 115
    then some (to_normal (drop 1 p.argp) (tty_puts (string word) p.terminal))
    else if c == 37
    then some (to_normal p.argp (tty_putchar 37 p.terminal))
    else if c == 100 || c == 105
    then print_number true 10 p
    else if c == 117
    then print_number false 10 p
    else if c == 88 || c == 120 || c == 112
    then print_number false 16 p
    else if c == 111
    then print_number false 8 p
    else some (to_normal p.argp p.terminal)

-- One turn of the loop, with the character `c` of the format.
pub print_step : (ℕ → List ℕ) → ℕ → Printer → Option Printer
print_step string c p = elim p.mode [
  | normal ↦
      if c == 37
      then some (record p { mode = length_state })
      else some (record p { terminal = tty_putchar c p.terminal })
  | length_state ↦
      if c == 104
      then some (record p { mode = length_short; size = short })
      else if c == 108
      then some (record p { mode = length_long; size = long })
      else print_spec string c p
  | length_short ↦
      if c == 104
      then some (record p { mode = spec; size = short_short })
      else print_spec string c p
  | length_long ↦
      if c == 108 then some (record p { mode = spec; size = long_long }) else print_spec string c p
  | spec ↦ print_spec string c p
]

-- The loop, over the bytes of the format up to its terminator.
pub print_all : (ℕ → List ℕ) → List ℕ → Printer → Option Printer
print_all string [] p = some p
print_all string (c ∷ fmt) p = elim (print_step string c p) [
  | none ↦ none
  | some p' ↦ print_all string fmt p'
]

pub kprintf : (ℕ → List ℕ) → List ℕ → List ℕ → Terminal → Option Terminal
kprintf string fmt args t =
    let end =
      print_all string fmt (record { mode = normal; size = default; argp = args; terminal = t }) in
    elim end [ none ↦ none | some p ↦ some p.terminal ]
