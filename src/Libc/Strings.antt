-- ===== src/Libc/Strings.antt =====
-- libc/src/string.c. A `char*` to a string is the list of the bytes before its NUL: reading at the
-- end of the list reads the NUL. A pointer into a string is the list of the bytes from there on.
-- A `char` is compared as its unsigned byte; equality of two chars is equality of their bytes.
pub mod Order
pub mod Search
pub mod Tokens
use minios_grub_bootloader.Base.{
  ◌<◌, ℕ, zero, suc, List, [], ◌∷◌, ◌++◌, Option, none, some, Bool, true, false, ◌==◌,
  if◌then◌else◌, ℤ, pos, sub_ℕ, replicate,
}
use minios_grub_bootloader.Libc.Ctype.{tolower}

abbrev pub CString : Type 0
CString = List ℕ

-- The bytes of a string are not NUL.
abbrev pub IsText : CString → Type 0
IsText [] = Unit {0}
IsText (c ∷ s) = (0 < c) × IsText s

-- `*s`
abbrev pub first : CString → ℕ
first [] = 0
first (c ∷ s) = c

-- The string that begins at the head of an array.
unfoldable pub until_nul : List ℕ → CString
until_nul [] = []
until_nul (c ∷ l) = let rest = until_nul l in if c == 0 then [] else c ∷ rest

unfoldable pub strlen : CString → ℕ
strlen [] = 0
strlen (c ∷ s) = suc (strlen s)

pub strcmp : CString → CString → ℤ
strcmp [] t = sub_ℕ 0 (first t)
strcmp (a ∷ s) [] = sub_ℕ a 0
strcmp (a ∷ s) (b ∷ t) = let rest = strcmp s t in if a == b then rest else sub_ℕ a b

pub strncmp : CString → CString → ℕ → ℤ
strncmp s t zero = pos 0
strncmp [] t (suc n) = sub_ℕ 0 (first t)
strncmp (a ∷ s) [] (suc n) = sub_ℕ a 0
strncmp (a ∷ s) (b ∷ t) (suc n) = let rest = strncmp s t n in if a == b then rest else sub_ℕ a b

pub strcasecmp : CString → CString → ℤ
strcasecmp [] t = sub_ℕ 0 (first t)
strcasecmp (a ∷ s) [] = sub_ℕ a 0
strcasecmp (a ∷ s) (b ∷ t) =
    let rest = strcasecmp s t in if tolower a == tolower b then rest else sub_ℕ a b

-- The answer points at the first `c`; at the NUL if `c` is 0.
unfoldable pub strchr : CString → ℕ → Option CString
strchr [] c = if 0 == c then some [] else none
strchr (a ∷ s) c = let rest = strchr s c in if a == c then some (a ∷ s) else rest

-- The loop of `strrchr`, with the variable `last`.
strrchr_loop : CString → ℕ → Option CString → Option CString
strrchr_loop [] c last = if 0 == c then some [] else last
strrchr_loop (a ∷ s) c last = strrchr_loop s c (if a == c then some (a ∷ s) else last)

pub strrchr : CString → ℕ → Option CString
strrchr s c = strrchr_loop s c none

-- The bytes that `strcpy` stores, and where its answer points, counted from the start of `dst`.
pub strcpy : CString → List ℕ × ℤ
strcpy src = (src ++ (0 ∷ []), sub_ℕ (strlen src) 1)

-- The `n` bytes that `strncpy` stores: the string's, and then NULs.
pub strncpy : CString → ℕ → List ℕ
strncpy src zero = []
strncpy [] (suc n) = 0 ∷ strncpy [] n
strncpy (c ∷ s) (suc n) = c ∷ strncpy s n

unfoldable pub is_delim : CString → ℕ → Bool
is_delim delim c = elim (strchr delim c) [ none ↦ false | some p ↦ true ]

-- `while (*next && strchr(delim, *next)) next++;`
skip_delims : CString → CString → CString
skip_delims delim [] = []
skip_delims delim (c ∷ s) =
    let rest = skip_delims delim s in if is_delim delim c then rest else c ∷ s

-- `while (*next && !strchr(delim, *next)) next++;`: the token, and `next` after the NUL is written.
cut_token : CString → CString → CString × CString
cut_token delim [] = ([], [])
cut_token delim (c ∷ s) =
    let rest = cut_token delim s in if is_delim delim c then ([], s) else (c ∷ rest.0, rest.1)

tok_from : CString → CString → Option CString × Option CString
tok_from delim [] = (none, some [])
tok_from delim (c ∷ s) = let (token, rest) = cut_token delim (c ∷ s) in (some token, some rest)

-- The static `next` is an argument, and the second result its new value.
pub strtok : Option CString → CString → Option CString → Option CString × Option CString
unfolding tok_from
strtok (some s) delim saved = tok_from delim (skip_delims delim s)
strtok none delim none = (none, none)
strtok none delim (some s) = tok_from delim (skip_delims delim s)
