-- ===== src/Fat32/Names/Padded.antt =====
-- The padded fields of a short name, and what the readers of an entry make of their bytes.
use minios_grub_bootloader.Base.{
  ℕ, zero, suc, ◌-◌, ◌≤◌, ◌<◌, min, ◌≡◌, refl, ap, ◌≢◌, none, some, [], ◌∷◌, ◌++◌, arith, length,
  replicate, take-append, take_all, length-append, length-replicate,
}
use minios_grub_bootloader.Libc.Ctype.{toupper}
use minios_grub_bootloader.Libc.Ctype.Case.{toupper_lem}
use minios_grub_bootloader.Libc.Strings.{until_nul, CString, strlen, strchr}
use minios_grub_bootloader.Fat32.Names.{str_to_upper, until_space, padded, name_field}

-- The characters of a short name: printable ASCII, but no space and no dot.
abbrev pub IsName : CString → Type 0
IsName [] = Unit {0}
IsName (c ∷ s) = ((32 < c) × (c < 127) × (c ≢ 46)) × IsName s

strlen-length : (s : CString) → strlen s ≡ length s
unfolding strlen
strlen-length [] = refl
strlen-length (c ∷ s) = ap suc (strlen-length s)

length-str_to_upper : (s : CString) → length (str_to_upper s) ≡ length s
unfolding str_to_upper
length-str_to_upper [] = refl
length-str_to_upper (c ∷ s) = ap suc (length-str_to_upper s)

pub str_to_upper-append : (s t : CString) → str_to_upper (s ++ t) ≡ str_to_upper s ++ str_to_upper t
unfolding str_to_upper
str_to_upper-append [] t = refl
str_to_upper-append (c ∷ s) t = ap (λ r. toupper c ∷ r) (str_to_upper-append s t)

pub toupper-range : (c : ℕ) → 32 < c → c < 127 → (32 < toupper c) × (toupper c < 127)
toupper-range c low high = ground (arith, toupper_lem c)

pub until_space-padded :
    (s : CString) (n : ℕ)
    → IsName s
    → until_space (str_to_upper s ++ replicate n 32) ≡ str_to_upper s
unfolding until_space str_to_upper
until_space-padded [] zero h = refl
until_space-padded [] (suc n) h = refl
until_space-padded (c ∷ s) n (h, hs) =
    let range = toupper-range c h.0 h.1 in ground (arith, until_space-padded s n hs, range)

pub until_nul-name :
    (s t : CString) → IsName s → until_nul (str_to_upper s ++ t) ≡ str_to_upper s ++ until_nul t
unfolding until_nul str_to_upper
until_nul-name [] t h = refl
until_nul-name (c ∷ s) t (h, hs) =
    let range = toupper-range c h.0 h.1 in ground (arith, until_nul-name s t hs, range)

strchr-name : (s t : CString) → IsName s → strchr (s ++ (46 ∷ t)) 46 ≡ some (46 ∷ t)
unfolding strchr
strchr-name [] t h = refl
strchr-name (c ∷ s) t (h, hs) = ground (arith, strchr-name s t hs)

strchr-none : (s : CString) → IsName s → strchr s 46 ≡ none
unfolding strchr
strchr-none [] h = refl
strchr-none (c ∷ s) (h, hs) = ground (arith, strchr-none s hs)

pub padded-name :
    (n : ℕ) (s : CString)
    → length s ≤ n
    → padded n s ≡ str_to_upper s ++ replicate (n - length s) 32
unfolding padded
padded-name n s h =
    let all : min n (strlen s) ≡ length s = omega (arith, strlen-length s) in
    rw (all, take_all (length s) s (omega arith)) refl

pub length-padded : (n : ℕ) (s : CString) → length s ≤ n → length (padded n s) ≡ n
length-padded n s h =
    rw
      (
        padded-name n s h,
        length-append (str_to_upper s) (replicate (n - length s) 32),
        length-str_to_upper s,
        length-replicate {A = ℕ} (n - length s) 32,
      )
      (omega arith)

-- The field of a name with an extension.
pub name_field-dot :
    (base extension : CString)
    → IsName base
    → name_field (base ++ (46 ∷ extension)) ≡ padded 8 base ++ padded 3 extension
unfolding name_field
name_field-dot base extension h =
    let before : strlen (base ++ (46 ∷ extension)) - strlen (46 ∷ extension) ≡ length base = omega (
      arith,
      strlen-length (base ++ (46 ∷ extension)),
      strlen-length (46 ∷ extension),
      length-append base (46 ∷ extension),
    ) in
    rw
      (
        name_field,
        strchr-name base extension h,
        before,
        take-append (length base) base (46 ∷ extension) refl,
      )
      refl

pub name_field-plain :
    (base : CString) → IsName base → name_field base ≡ padded 8 base ++ replicate 3 32
unfolding name_field
name_field-plain base h = rw (name_field, strchr-none base h) refl
