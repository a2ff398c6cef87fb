-- ===== src/Fat32/Names/Short.antt =====
-- A short name survives its 8.3 form.
use minios_grub_bootloader.Base.{
  ℕ, ◌-◌, ◌≤◌, ◌<◌, ◌≡◌, refl, sym, ap, ap₂, ◌∙◌, true, false, List, [], ◌∷◌, ◌++◌, append-nil,
  append_assoc, arith, if◌then◌else◌, length, take, drop, replicate, take-append, drop-append,
  get_or-append_right, byte_at, length-append,
}
use minios_grub_bootloader.Libc.Ctype.{toupper}
use minios_grub_bootloader.Libc.Ctype.Case.{toupper_lem}
use minios_grub_bootloader.Libc.Strings.{until_nul, CString}
use minios_grub_bootloader.Fat32.Names.{
  DirEntry, char_is, str_to_upper, until_space, entry_name, padded, name_field,
}
use minios_grub_bootloader.Fat32.Names.Padded.{
  IsName, str_to_upper-append, toupper-range, until_space-padded, until_nul-name, padded-name,
  length-padded, name_field-dot, name_field-plain,
}

-- The base that the readers of an entry find.
base-padded :
    (s : CString) (t : List ℕ)
    → IsName s
    → length s ≤ 8
    → until_space (take 8 (padded 8 s ++ t)) ≡ str_to_upper s
base-padded s t h short =
    rw (take-append 8 (padded 8 s) t (sym (length-padded 8 s short)), padded-name 8 s short)
      (until_space-padded s (8 - length s) h)

after-padded : (s : CString) (t : List ℕ) → length s ≤ 8 → drop 8 (padded 8 s ++ t) ≡ t
after-padded s t short = drop-append 8 (padded 8 s) t (sym (length-padded 8 s short))

extension-padded :
    (s : CString) (t : List ℕ)
    → IsName s
    → length s ≤ 3
    → until_space (take 3 (padded 3 s ++ t)) ≡ str_to_upper s
extension-padded s t h short =
    rw (take-append 3 (padded 3 s) t (sym (length-padded 3 s short)), padded-name 3 s short)
      (until_space-padded s (3 - length s) h)

-- The head of a field that is not empty is no space.
head-padded :
    (s : CString) (t : List ℕ)
    → IsName s
    → 0 < length s
    → length s ≤ 3
    → char_is (byte_at (padded 3 s ++ t) 0) 32 ≡ false
unfolding str_to_upper
head-padded [] t h some_char short = absurd (omega arith)
head-padded (c ∷ s) t (h, hs) some_char short =
    let range = toupper-range c h.0 h.1 in rw (padded-name 3 (c ∷ s) short) (ground (arith, range))

entry_name-fields :
    (e : DirEntry) (base extension : CString)
    → char_is (byte_at e 8) 32 ≡ false
    → until_space (take 8 e) ≡ base
    → until_space (take 3 (drop 8 e)) ≡ extension
    → entry_name e ≡ until_nul (base ++ (46 ∷ extension))
unfolding entry_name
entry_name-fields e base extension h hb he =
    let step : entry_name e
        ≡ until_nul (
            if false
            then until_space (take 8 e)
            else until_space (take 8 e) ++ (46 ∷ until_space (take 3 (drop 8 e)))) =
      ap
        (λ b. until_nul (
          if b
          then until_space (take 8 e)
          else until_space (take 8 e) ++ (46 ∷ until_space (take 3 (drop 8 e)))))
        h in
    step ∙ ap₂ (λ x y. until_nul (x ++ (46 ∷ y))) hb he

entry_name-base :
    (e : DirEntry) (base : CString)
    → char_is (byte_at e 8) 32 ≡ true
    → until_space (take 8 e) ≡ base
    → entry_name e ≡ until_nul base
unfolding entry_name
entry_name-base e base h hb =
    let step : entry_name e ≡ until_nul (until_space (take 8 e)) =
      ap
        (λ b. until_nul (
          if b
          then until_space (take 8 e)
          else until_space (take 8 e) ++ (46 ∷ until_space (take 3 (drop 8 e)))))
        h in
    step ∙ ap until_nul hb

until_nul-nil : until_nul [] ≡ []
unfolding until_nul
until_nul-nil = refl

until_nul-dot : (t : CString) → until_nul (46 ∷ t) ≡ 46 ∷ until_nul t
unfolding until_nul
until_nul-dot t = refl

str_to_upper-dot :
    (s t : CString) → str_to_upper (s ++ (46 ∷ t)) ≡ str_to_upper s ++ (46 ∷ str_to_upper t)
unfolding str_to_upper
str_to_upper-dot s t =
    let dot : toupper 46 ≡ 46 = ground (arith, toupper_lem 46) in
    str_to_upper-append s (46 ∷ t) ∙ ap (λ c. str_to_upper s ++ (c ∷ str_to_upper t)) dot

until_nul-all : (s : CString) → IsName s → until_nul (str_to_upper s) ≡ str_to_upper s
until_nul-all s h =
    let e : str_to_upper s ++ [] ≡ str_to_upper s = append-nil (str_to_upper s) in
    let step : until_nul (str_to_upper s ++ []) ≡ str_to_upper s ++ until_nul [] =
      until_nul-name s [] h in
    sym (ap until_nul e) ∙ step ∙ ap (λ r. str_to_upper s ++ r) (until_nul-nil) ∙ e

-- The head of the field behind the base.
byte-behind : (s : CString) (t : List ℕ) → length s ≤ 8 → byte_at (padded 8 s ++ t) 8 ≡ byte_at t 0
byte-behind s t short =
    get_or-append_right (padded 8 s) t 8 0 0 (omega (arith, length-padded 8 s short))

entry_name-name_field :
    (base extension rest : CString)
    → IsName base
    → IsName extension
    → length base ≤ 8
    → 0 < length extension
    → length extension ≤ 3
    → entry_name (name_field (base ++ (46 ∷ extension)) ++ rest)
      ≡ str_to_upper (base ++ (46 ∷ extension))
entry_name-name_field base extension rest hb he short some_char short_extension =
    let behind = padded 3 extension ++ rest in
    let fields : name_field (base ++ (46 ∷ extension)) ++ rest ≡ padded 8 base ++ behind =
      rw (name_field-dot base extension hb)
        (append_assoc (padded 8 base) (padded 3 extension) rest) in
    let head : char_is (byte_at (padded 8 base ++ behind) 8) 32 ≡ false =
      rw (byte-behind base behind short)
        (head-padded extension rest he some_char short_extension) in
    let tail : until_space (take 3 (drop 8 (padded 8 base ++ behind))) ≡ str_to_upper extension =
      rw (after-padded base behind short) (extension-padded extension rest he short_extension) in
    ap entry_name fields
    ∙ entry_name-fields (padded 8 base ++ behind) (str_to_upper base) (str_to_upper extension) head
        (base-padded base behind hb short) tail
    ∙ until_nul-name base (46 ∷ str_to_upper extension) hb
    ∙ ap (λ r. str_to_upper base ++ r)
        (until_nul-dot (str_to_upper extension) ∙ ap (λ r. 46 ∷ r) (until_nul-all extension he))
    ∙ sym (str_to_upper-dot base extension)

entry_name-plain :
    (base rest : CString)
    → IsName base
    → length base ≤ 8
    → entry_name (name_field base ++ rest) ≡ str_to_upper base
entry_name-plain base rest hb short =
    let behind : List ℕ = replicate 3 32 ++ rest in
    let fields : name_field base ++ rest ≡ padded 8 base ++ behind =
      rw (name_field-plain base hb) (append_assoc (padded 8 base) (replicate 3 32) rest) in
    ap entry_name fields
    ∙ entry_name-base (padded 8 base ++ behind) (str_to_upper base)
        (ap (λ c. char_is c 32) (byte-behind base behind short)) (base-padded base behind hb short)
    ∙ until_nul-all base hb

-- A name of at most eight characters, or one with a dot and an extension of one to three characters.
pub data ShortName : CString → Type 0 where
  plain : (base : CString) → IsName base → length base ≤ 8 → ShortName base
  dotted :
      (base extension : CString)
      → IsName base
      → IsName extension
      → length base ≤ 8
      → 0 < length extension
      → length extension ≤ 3
      → ShortName (base ++ (46 ∷ extension))

-- A short name is read back from the name field that `create_direntry` makes of it, whatever bytes
-- follow, as the name in capitals.
pub entry_name-short :
    (name rest : CString)
    → ShortName name
    → entry_name (name_field name ++ rest) ≡ str_to_upper name
entry_name-short name rest (plain base h short) = entry_name-plain base rest h short
entry_name-short name rest (dotted base extension hb he short some_char short_extension) =
    entry_name-name_field base extension rest hb he short some_char short_extension

pub length-name_field : (name : CString) → ShortName name → length (name_field name) ≡ 11
length-name_field name (plain base h short) =
    rw (name_field-plain base h)
      (omega (arith, length-append (padded 8 base) (replicate 3 32), length-padded 8 base short))
length-name_field name (dotted base extension hb he short some_char short_extension) =
    rw (name_field-dot base extension hb) (
      omega (
        arith,
        length-append (padded 8 base) (padded 3 extension),
        length-padded 8 base short,
        length-padded 3 extension short_extension,
      ))

first-padded :
    (s : CString) (t : List ℕ)
    → IsName s
    → length s ≤ 8
    → char_is (byte_at (padded 8 s ++ t) 0) 0 ≡ false
unfolding str_to_upper
first-padded [] t h short = rw (padded-name 8 [] short) refl
first-padded (c ∷ s) t (h, hs) short =
    let range = toupper-range c h.0 h.1 in rw (padded-name 8 (c ∷ s) short) (ground (arith, range))

-- A field is never that of an unused entry.
pub name_field_used :
    (name rest : CString) → ShortName name → char_is (byte_at (name_field name ++ rest) 0) 0 ≡ false
name_field_used name rest (plain base h short) =
    rw (name_field-plain base h, append_assoc (padded 8 base) (replicate 3 32) rest)
      (first-padded base (replicate 3 32 ++ rest) h short)
name_field_used name rest (dotted base extension hb he short some_char short_extension) =
    rw (name_field-dot base extension hb, append_assoc (padded 8 base) (padded 3 extension) rest)
      (first-padded base (padded 3 extension ++ rest) hb short)
