-- ===== src/Config/Fields.antt =====
-- The fields of a line `key=value`, as `config_get_str` takes it apart.
use minios_grub_bootloader.Base.{
  ℕ, zero, suc, ◌+◌, ◌<◌, ◌≡◌, refl, sym, ap, ◌≢◌, ◌⊎◌, inl, inr, true, none, some, List, [], ◌∷◌,
  ◌++◌, arith, length, ℤ, pos, negsuc, test_of_ne,
}
use minios_grub_bootloader.Libc.Strings.{
  CString, IsText, until_nul, strcmp, strtok, is_delim, strchr,
}
use minios_grub_bootloader.Libc.Strings.Order.{strcmp-zero_iff}
use minios_grub_bootloader.Libc.Strings.Tokens.{All, not_delim, strtok_at, strtok_whole}
use minios_grub_bootloader.Fat32.File.Line.{copy_line}
use minios_grub_bootloader.Config.{key_and_value, value_of}

pub record Entry : Type 0 where
  pub key : CString
  pub value : CString

-- The bytes of a key or a value: no NUL, no line feed and no sign of equality.
abbrev pub IsPlain : CString → Type 0
IsPlain [] = Unit {0}
IsPlain (c ∷ s) = ((0 < c) × (c ≢ 10) × (c ≢ 61)) × IsPlain s

-- An entry that fits a buffer of 512 bytes, with its line feed and the NUL.
pub record IsEntry (e : Entry) : Type 0 where
  pub key_plain : IsPlain e.key
  pub value_plain : IsPlain e.value
  pub has_key : 0 < length e.key
  pub fits : length e.key + length e.value < 510

abbrev pub AllEntries : List Entry → Type 0
AllEntries [] = Unit {0}
AllEntries (e ∷ es) = IsEntry e × AllEntries es

abbrev pub entry_line : Entry → List ℕ
entry_line e = e.key ++ (61 ∷ e.value)

-- No byte of a line but the last is a line feed.
abbrev pub InLine : List ℕ → Type 0
InLine [] = Unit {0}
InLine (c ∷ s) = ((0 < c) × (c ≢ 10)) × InLine s

InLine-plain : (s : CString) → IsPlain s → InLine s
InLine-plain [] p = tt
InLine-plain (c ∷ s) p = ((p.0.0, p.0.1), InLine-plain s p.1)

InLine-append : (s t : List ℕ) → InLine s → InLine t → InLine (s ++ t)
InLine-append [] t p q = q
InLine-append (c ∷ s) t p q = (p.0, InLine-append s t p.1 q)

pub entry_line-InLine : (e : Entry) → IsEntry e → InLine (entry_line e)
entry_line-InLine e i =
    InLine-append e.key (61 ∷ e.value) (InLine-plain e.key i.key_plain)
      ((omega arith, λ h. omega (arith, h)), InLine-plain e.value i.value_plain)

pub copy_line-InLine :
    (room : ℕ) (s rest : List ℕ)
    → InLine s
    → length s < room
    → copy_line room (s ++ (10 ∷ rest)) ≡ (s ++ (10 ∷ []), true)
unfolding copy_line
copy_line-InLine zero s rest p h = absurd (omega arith)
copy_line-InLine (suc room) [] rest p h = refl
copy_line-InLine (suc room) (c ∷ s) rest p h =
    let more = copy_line-InLine room s rest p.1 (omega arith) in
    rw (test_of_ne c 10 p.0.1, more) refl

pub until_nul-InLine : (s : List ℕ) → InLine s → until_nul (s ++ (10 ∷ (0 ∷ []))) ≡ s ++ (10 ∷ [])
unfolding until_nul
until_nul-InLine [] p = refl
until_nul-InLine (c ∷ s) p =
    rw (test_of_ne c 0 (λ h. omega (arith, h, p.0.0)), until_nul-InLine s p.1) refl

plain-IsText : (s : CString) → IsPlain s → IsText s
plain-IsText [] p = tt
plain-IsText (c ∷ s) p = (p.0.0, plain-IsText s p.1)

strchr-equals : (c : ℕ) → 0 < c → c ≢ 61 → strchr (61 ∷ []) c ≡ none
unfolding strchr
strchr-equals c p ne =
    rw (test_of_ne 61 c (λ h. ne (sym h)), test_of_ne 0 c (λ h. omega (arith, h, p))) refl

not_delim-equals : (c : ℕ) → 0 < c → c ≢ 61 → not_delim (61 ∷ []) c ≡ true
unfolding is_delim
not_delim-equals c p ne = rw (is_delim, strchr-equals c p ne) refl

All-plain : (s : CString) → IsPlain s → All (not_delim (61 ∷ [])) s
All-plain [] p = tt
All-plain (c ∷ s) p = (not_delim-equals c p.0.0 p.0.2, All-plain s p.1)

equals-is_delim : is_delim (61 ∷ []) 61 ≡ true
unfolding is_delim strchr
equals-is_delim = refl

All-value : (s : CString) → IsPlain s → All (not_delim (61 ∷ [])) (s ++ (10 ∷ []))
All-value [] p = (not_delim-equals 10 (omega arith) (λ h. omega (arith, h)), tt)
All-value (c ∷ s) p = (not_delim-equals c p.0.0 p.0.2, All-value s p.1)

value_token :
    (s : CString)
    → IsPlain s
    → (strtok none (61 ∷ []) (some (s ++ (10 ∷ [])))).0 ≡ some (s ++ (10 ∷ []))
value_token [] p = ap (λ r. r.0) (strtok_whole (61 ∷ []) 10 [] (All-value [] p))
value_token (c ∷ s) p =
    ap (λ r. r.0) (strtok_whole (61 ∷ []) c (s ++ (10 ∷ [])) (All-value (c ∷ s) p))

key_token :
    (k rest : CString)
    → IsPlain k
    → 0 < length k
    → strtok (some (k ++ (61 ∷ rest))) (61 ∷ []) none ≡ (some k, some rest)
key_token [] rest p h = absurd (omega arith)
key_token (a ∷ s) rest p h =
    strtok_at (61 ∷ []) a s 61 rest none (All-plain (a ∷ s) p) equals-is_delim

key_and_value-line :
    (e : Entry)
    → IsEntry e
    → key_and_value (e.key ++ (61 ∷ (e.value ++ (10 ∷ []))))
      ≡ (some e.key, some (e.value ++ (10 ∷ [])))
unfolding key_and_value
key_and_value-line e i =
    rw (key_token e.key (e.value ++ (10 ∷ [])) i.key_plain i.has_key)
      (ap (λ v. (some e.key, v)) (value_token e.value i.value_plain))

ℤ-cases : (z : ℤ) → (z ≡ pos 0) ⊎ (((n : ℕ) × (z ≡ pos (suc n))) ⊎ ((n : ℕ) × (z ≡ negsuc n)))
ℤ-cases (pos zero) = inl refl
ℤ-cases (pos (suc n)) = inr (inl (n, refl))
ℤ-cases (negsuc n) = inr (inr (n, refl))

pub value_of-line :
    (key : CString) (e : Entry)
    → IsText key
    → IsEntry e
    → ((e.key ≡ key)
        × (value_of key (e.key ++ (61 ∷ (e.value ++ (10 ∷ [])))) ≡ some (e.value ++ (10 ∷ []))))
      ⊎ ((e.key ≢ key) × (value_of key (e.key ++ (61 ∷ (e.value ++ (10 ∷ [])))) ≡ none))
unfolding value_of
value_of-line key e text i =
    let same = strcmp-zero_iff e.key key (plain-IsText e.key i.key_plain) text in
    let split = key_and_value-line e i in
    elim (ℤ-cases (strcmp e.key key)) [
      | inl z ↦ inl (same.0 z, rw (value_of, split, split, z) refl)
      | inr (inl (n, z)) ↦
          inr (λ k. let h = same.1 k in absurd (cc), rw (value_of, split, split, z) refl)
      | inr (inr (n, z)) ↦
          inr (λ k. let h = same.1 k in absurd (cc), rw (value_of, split, split, z) refl)
    ]
