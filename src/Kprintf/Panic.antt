-- ===== src/Kprintf/Panic.antt =====
-- kernel/src/utils/kpanic.c, and the formats without a number.
use minios_grub_bootloader.Base.{
  ℕ, ◌≡◌, refl, sym, ap, ◌∙◌, inl, inr, Bool, true, false, Option, none, some, List, [], ◌∷◌, ◌++◌,
  append-nil, append_assoc, ◌==◌, if◌then◌else◌, Bool-cases, take, codes,
}
use minios_grub_bootloader.Kprintf.{to_normal, print_all, print_step, print_spec, kprintf}
use minios_grub_bootloader.Tty.{Terminal, tty_putchar, tty_puts, put_bytes}
use minios_grub_bootloader.Libc.Strings.{CString, strlen}

-- What is on the terminal when the endless loop of `kpanic` begins. The string lies at `address`.
pub kpanic : ℕ → CString → Terminal → Option Terminal
kpanic address text t = kprintf (λ a. text) (codes "Kernel panic!\nReason: %s\n") (address ∷ []) t

-- A text has no percent sign.
abbrev pub is_plain : List ℕ → Bool
is_plain [] = true
is_plain (c ∷ fmt) = if c == 37 then false else is_plain fmt

put_bytes-append :
    (xs ys : List ℕ) (t : Terminal) → put_bytes (xs ++ ys) t ≡ put_bytes ys (put_bytes xs t)
unfolding put_bytes
put_bytes-append [] ys t = refl
put_bytes-append (c ∷ xs) ys t = put_bytes-append xs ys (tty_putchar c t)

pub strlen_all : (s : CString) → take (strlen s) s ≡ s
unfolding strlen
strlen_all [] = refl
strlen_all (c ∷ s) = ap (λ r. c ∷ r) (strlen_all s)

module _ (string : ℕ → List ℕ) where
  -- A plain part of the format is printed as it is.
  print_all-plain :
      (fmt rest args : List ℕ) (t : Terminal)
      → is_plain fmt ≡ true
      → print_all string (fmt ++ rest) (to_normal args t)
        ≡ print_all string rest (to_normal args (put_bytes fmt t))
  unfolding print_all print_step put_bytes to_normal
  print_all-plain [] rest args t h = refl
  print_all-plain (c ∷ fmt) rest args t h = elim (Bool-cases (c == 37)) [
    | inl percent ↦ absurd (cc)
    | inr other ↦
        rw (print_all, other)
          (print_all-plain fmt rest args (tty_putchar c t)
            (sym (ap (λ b. if b then false else is_plain fmt) other) ∙ h))
  ]

  -- The conversion `%s`.
  print_all-string :
      (rest args : List ℕ) (address : ℕ) (t : Terminal)
      → print_all string (37 ∷ 115 ∷ rest) (to_normal (address ∷ args) t)
        ≡ print_all string rest (to_normal args (tty_puts (string address) t))
  unfolding print_all print_step print_spec to_normal
  print_all-string rest args address t = refl

  printed :
      (before after args : List ℕ) (address : ℕ) (t : Terminal)
      → is_plain before ≡ true
      → is_plain after ≡ true
      → print_all string (before ++ (37 ∷ 115 ∷ after)) (to_normal (address ∷ args) t)
        ≡ some (to_normal args (put_bytes (before ++ (string address ++ after)) t))
  unfolding print_all tty_puts
  printed before after args address t p q =
      print_all-plain before (37 ∷ 115 ∷ after) (address ∷ args) t p
      ∙ print_all-string after args address (put_bytes before t)
      ∙ ap (λ s. print_all string after (to_normal args (put_bytes s (put_bytes before t))))
          (strlen_all (string address))
      ∙ ap
          (λ f.
            print_all string f (to_normal args (put_bytes (string address) (put_bytes before t))))
          (sym (append-nil after))
      ∙ print_all-plain after [] args (put_bytes (string address) (put_bytes before t)) q
      ∙ ap (λ u. some (to_normal args u))
          (ap (put_bytes after) (sym (put_bytes-append before (string address) t))
            ∙ sym (put_bytes-append (before ++ string address) after t)
            ∙ ap (λ b. put_bytes b t) (append_assoc before (string address) after))

  -- For formats of plain text around one `%s`: `kprintf` puts the text before it, the string at
  -- the address that is its argument and the text after it on the terminal, byte by byte, and
  -- returns.
  pub kprintf-put_bytes :
      (before after args : List ℕ) (address : ℕ) (t : Terminal)
      → is_plain before ≡ true
      → is_plain after ≡ true
      → kprintf string (before ++ (37 ∷ 115 ∷ after)) (address ∷ args) t
        ≡ some (put_bytes (before ++ (string address ++ after)) t)
  unfolding kprintf to_normal
  kprintf-put_bytes before after args address t p q =
      ap (λ o. elim o [ none ↦ none | some p' ↦ some p'.terminal ])
        (printed before after args address t p q)

-- `kpanic` puts "Kernel panic!", the reason and a line end on the terminal; the printing returns.
pub kpanic-put_bytes :
    (address : ℕ) (text : CString) (t : Terminal)
    → kpanic address text t
      ≡ some (put_bytes (codes "Kernel panic!\nReason: " ++ (text ++ (10 ∷ []))) t)
unfolding kpanic
kpanic-put_bytes address text t =
    kprintf-put_bytes (λ a. text) (codes "Kernel panic!\nReason: ") (10 ∷ []) [] address t refl refl

-- Calls of `kprintf` without arguments, one after the other.
pub kprintf_all : List CString → Terminal → Option Terminal
kprintf_all [] t = some t
kprintf_all (format ∷ formats) t = elim (kprintf (λ a. []) format [] t) [
  | none ↦ none
  | some t' ↦ kprintf_all formats t'
]

-- The text of formats that have no conversion.
pub kprintf-plain :
    (format : CString) (t : Terminal)
    → is_plain format ≡ true
    → kprintf (λ a. []) format [] t ≡ some (put_bytes format t)
unfolding kprintf to_normal print_all
kprintf-plain format t p =
    ap (λ o. elim o [ none ↦ none | some p' ↦ some p'.terminal ])
      (ap (λ f. print_all (λ a. []) f (to_normal [] t)) (sym (append-nil format))
        ∙ print_all-plain (λ a. []) format [] [] t p)

pub kprintf_all-plain :
    (a b : CString) (t : Terminal)
    → is_plain a ≡ true
    → is_plain b ≡ true
    → kprintf_all (a ∷ b ∷ []) t ≡ some (put_bytes (a ++ b) t)
unfolding kprintf_all
kprintf_all-plain a b t p q =
    rw (kprintf_all, kprintf-plain a t p, kprintf-plain b (put_bytes a t) q)
      (ap some (sym (put_bytes-append a b t)))
