-- ===== src/Kprintf/Digits.antt =====
-- What the conversion of a number prints.
use minios_grub_bootloader.Base.{
  eq_of_test, ne_of_test, ℕ, zero, suc, ◌+◌, ◌-◌, ◌*◌, ◌/◌, ◌%◌, ◌^◌, ◌≤◌, ◌<◌, ◌≡◌, refl, ap, ◌∙◌,
  ◌≢◌, inl, inr, Bool, false, Option, none, some, List, [], ◌∷◌, arith, ltb, leb, true, ◌&&◌, ◌||◌,
  ◌==◌, if◌then◌else◌, Bool-cases, get_or,
}
use minios_grub_bootloader.Kprintf.{number_text, div64_32, hex_chars, convert}

-- The value of a digit character of `hex_chars`.
abbrev pub digit_value : ℕ → ℕ
digit_value c = if ltb c 58 then c - 48 else c - 87

-- The characters 0 to 9 and a to f.
abbrev pub is_digit : ℕ → Bool
is_digit c = (leb 48 c && ltb c 58) || (leb 97 c && ltb c 103)

-- A reader of numerals: the most significant digit comes first.
abbrev pub read_digits : ℕ → ℕ → List ℕ → ℕ
read_digits radix value [] = value
read_digits radix value (c ∷ text) = read_digits radix (value * radix + digit_value c) text

hex_chars_value : (d : ℕ) → d < 16 → digit_value (get_or hex_chars d 0) ≡ d
hex_chars_value d h = ground arith

hex_chars_digit : (d : ℕ) → d < 16 → is_digit (get_or hex_chars d 0) ≡ true
hex_chars_digit d h = ground arith

-- The radices that `kprintf` passes.
pub data IsRadix : ℕ → Type 0 where
  eight : IsRadix 8
  ten : IsRadix 10
  sixteen : IsRadix 16

div64_32_lem :
    {radix : ℕ}
    → IsRadix radix
    → (number : ℕ) → number < radix * 2 ^ 32
    → div64_32 number radix ≡ some (number % radix, number / radix)
unfolding div64_32
div64_32_lem eight number h = ground arith
div64_32_lem ten number h = ground arith
div64_32_lem sixteen number h = ground arith

-- The characters of digits below the radix.
abbrev pub AllDigits : ℕ → List ℕ → Type 0
AllDigits radix [] = Unit {0}
AllDigits radix (c ∷ text) = (is_digit c ≡ true) × (digit_value c < radix) × AllDigits radix text

-- `text` is the numeral of `number`: its value, its digits, a single 0 for 0, and no 0 in front of
-- another number.
pub record IsNumeral (radix number : ℕ) (text : List ℕ) : Type 0 where
  value : read_digits radix 0 text ≡ number
  digits : AllDigits radix text
  no_zero : number ≢ 0 → get_or text 0 48 ≢ 48
  at_zero : number ≡ 0 → text ≡ 48 ∷ []

-- What a turn of the loop gives, with the number that is left and the buffer so far.
record Converted (radix number : ℕ) (buffer : List ℕ) (out : Option (List ℕ)) : Type 0 where
  text : List ℕ
  is : out ≡ some text
  value : read_digits radix 0 text ≡ read_digits radix number buffer
  digits : AllDigits radix text
  no_zero : number ≢ 0 → get_or text 0 48 ≢ 48
  at_zero : number ≡ 0 → text ≡ 48 ∷ buffer

-- The remainder and the quotient by the radix.
record Divides (radix number room : ℕ) : Type 0 where
  digit : number % radix < radix
  small : number % radix < 16
  total : number / radix * radix + number % radix ≡ number
  bound : number / radix < radix * 2 ^ 32
  enough : number / radix < 8 ^ room
  last : number / radix ≡ 0 → number % radix ≡ number
  stays_zero : number ≡ 0 → number / radix ≡ 0

divides :
    {radix : ℕ}
    → IsRadix radix
    → (room number : ℕ) → number < radix * 2 ^ 32
    → number < 8 ^ suc room
    → Divides radix number room
divides eight room number h e = record {
  digit = omega arith;
  small = omega arith;
  total = omega arith;
  bound = omega arith;
  enough = omega arith;
  last = λ z. omega arith;
  stays_zero = λ z. omega arith;
}
divides ten room number h e = record {
  digit = omega arith;
  small = omega arith;
  total = omega arith;
  bound = omega arith;
  enough = omega arith;
  last = λ z. omega arith;
  stays_zero = λ z. omega arith;
}
divides sixteen room number h e = record {
  digit = omega arith;
  small = omega arith;
  total = omega arith;
  bound = omega arith;
  enough = omega arith;
  last = λ z. omega arith;
  stays_zero = λ z. omega arith;
}

positive : (room number : ℕ) → number ≢ 0 → number < 8 ^ room → 0 < room
positive zero number n h = absurd (n (omega arith))
positive (suc room) number n h = omega arith

convert_lem :
    {radix : ℕ}
    → IsRadix radix
    → (room number : ℕ) (buffer : List ℕ) → number < radix * 2 ^ 32
    → number < 8 ^ room
    → 0 < room
    → AllDigits radix buffer
    → Converted radix number buffer (convert room radix number buffer)
unfolding convert
convert_lem r zero number buffer h enough some_room a = absurd (omega arith)
convert_lem {radix} r (suc room) number buffer h enough some_room a =
    rw (convert, div64_32_lem r number h)
      (elim (Bool-cases (number / radix == 0)) [
        | inl stop ↦
            let z : number / radix ≡ 0 = eq_of_test _ _ stop in
            rw stop (record {
              text = digit ∷ buffer;
              is = refl;
              value = ap (λ k. read_digits radix k buffer) (omega (arith, same, d.last z));
              digits = (hex_chars_digit _ d.small, rw same d.digit, a);
              no_zero = λ ne e. ne (ground (arith, same, d.last z));
              at_zero = λ n. ap (λ k. get_or hex_chars k 0 ∷ buffer) (d.last z ∙ n);
            })
        | inr go ↦
            let more : number / radix ≢ 0 = ne_of_test _ _ go in
            let rest =
              convert_lem r room (number / radix) (digit ∷ buffer) d.bound d.enough
                (positive room (number / radix) more d.enough)
                (hex_chars_digit _ d.small, rw same d.digit, a) in
            rw go (record {
              text = rest.text;
              is = rest.is;
              value =
                  rest.value
                  ∙ ap (λ k. read_digits radix k buffer)
                      (ap (λ k. number / radix * radix + k) same ∙ d.total);
              digits = rest.digits;
              no_zero = λ ne. rest.no_zero more;
              at_zero = λ n. absurd (more (d.stays_zero n));
            })
      ])
  where
    d : Divides radix number room
    d = divides r room number h enough

    digit : ℕ
    digit = get_or hex_chars (number % radix) 0

    same : digit_value digit ≡ number % radix
    same = hex_chars_value (number % radix) d.small

-- For a radix of `kprintf`, a number whose quotient by the radix fits 32 bits is printed as its
-- numeral in that radix, without a zero in front of another digit and after a minus sign if it is
-- marked as negative; the 32 places of the buffer are enough.
pub number_text-IsNumeral :
    {radix : ℕ}
    → IsRadix radix
    → (number : ℕ) (negative : Bool) → number < radix * 2 ^ 32
    → (text : List ℕ) × ((number_text (number, negative) radix
          ≡ some (if negative then 45 ∷ text else text))
        × IsNumeral radix number text)
unfolding number_text
number_text-IsNumeral {radix} r number negative h =
    let c = convert_lem r 32 number [] h (bound r h) (omega arith) (record {}) in
    (
      c.text,
      (
        rw (number_text, c.is) refl,
        record { value = c.value; digits = c.digits; no_zero = c.no_zero; at_zero = c.at_zero },
      ),
    )
  where
    bound : {k : ℕ} → IsRadix k → number < k * 2 ^ 32 → number < 8 ^ 32
    bound eight l = omega arith
    bound ten l = omega arith
    bound sixteen l = omega arith

-- A number whose quotient by the radix does not fit 32 bits ends in the divide error.
pub number_text_overflow :
    (radix number : ℕ) (negative : Bool)
    → radix ≤ number / 2 ^ 32
    → number_text (number, negative) radix ≡ none
unfolding number_text convert div64_32
number_text_overflow radix number negative h =
    let overflows : ltb (number / 2 ^ 32) radix ≡ false = ground arith in
    rw (number_text, convert, div64_32, overflows) refl
