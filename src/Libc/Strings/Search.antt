-- ===== src/Libc/Strings/Search.antt =====
-- Where `strchr` and `strrchr` point.
use minios_grub_bootloader.Base.{
  ne_of_test, eq_of_test, test_of_ne, ℕ, ◌<◌, ◌≡◌, refl, ap, ◌≢◌, ◌⊎◌, inl, inr, Option, none, some,
  [], ◌∷◌, ◌++◌, arith, ◌==◌, Bool-cases,
}
use minios_grub_bootloader.Libc.Strings.{CString, strchr, strrchr_loop, strrchr}

-- The string does not hold the byte.
abbrev pub Lacks : ℕ → CString → Type 0
Lacks c [] = Unit {0}
Lacks c (a ∷ s) = (a ≢ c) × Lacks c s

pub data Found (s : CString) (c : ℕ) : Option CString → Type 0 where
  found :
      (before after : CString)
      → s ≡ before ++ (c ∷ after)
      → Lacks c before
      → Found s c (some (c ∷ after))
  absent : Lacks c s → Found s c none

Found-cons :
    {s : CString} {c : ℕ} {o : Option CString} (a : ℕ) → a ≢ c → Found s c o → Found (a ∷ s) c o
Found-cons a ne (found before after e l) = found (a ∷ before) after (ap (λ r. a ∷ r) e) (ne, l)
Found-cons a ne (absent l) = absent (ne, l)

-- For a byte that is not NUL, `strchr` points at the first such byte, and answers NULL exactly
-- when there is none.
pub strchr-Found : (s : CString) (c : ℕ) → 0 < c → Found s c (strchr s c)
unfolding strchr
strchr-Found [] c h = rw (test_of_ne 0 c (omega arith)) (absent tt)
strchr-Found (a ∷ s) c h = elim (Bool-cases (a == c)) [
  | inl e ↦ rw (e, eq_of_test a c e) (found [] s refl tt)
  | inr e ↦ rw e (Found-cons a (ne_of_test a c e) (strchr-Found s c h))
]

-- The answer when the string holds the byte: it points at the last one.
pub record IsLast (s : CString) (c : ℕ) (answer : Option CString) : Type 0 where
  pub before : CString
  pub after : CString
  pub splits : s ≡ before ++ (c ∷ after)
  pub last : Lacks c after
  pub points : answer ≡ some (c ∷ after)

IsLast-cons : {s : CString} {c : ℕ} {o : Option CString} (a : ℕ) → IsLast s c o → IsLast (a ∷ s) c o
IsLast-cons a l = record {
  before = a ∷ l.before;
  after = l.after;
  splits = ap (λ r. a ∷ r) l.splits;
  last = l.last;
  points = l.points;
}

strrchr_loop-IsLast :
    (s : CString) (c : ℕ) (last : Option CString)
    → 0 < c
    → (Lacks c s × (strrchr_loop s c last ≡ last)) ⊎ IsLast s c (strrchr_loop s c last)
unfolding strrchr_loop
strrchr_loop-IsLast [] c last h = rw (test_of_ne 0 c (omega arith)) (inl (tt, refl))
strrchr_loop-IsLast (a ∷ s) c last h = elim (Bool-cases (a == c)) [
  | inl e ↦
      rw (e, eq_of_test a c e)
        (elim (strrchr_loop-IsLast s c (some (c ∷ s)) h) [
          | inl none_left ↦ inr (record {
            before = [];
            after = s;
            splits = refl;
            last = none_left.0;
            points = none_left.1;
          })
          | inr l ↦ inr (IsLast-cons c l)
        ])
  | inr e ↦ rw e (elim (strrchr_loop-IsLast s c last h) [
    | inl none_left ↦ inl ((ne_of_test a c e, none_left.0), none_left.1)
    | inr l ↦ inr (IsLast-cons a l)
  ])
]

-- For a byte that is not NUL, `strrchr` answers NULL if the string lacks it, and otherwise points
-- at the last one.
pub strrchr-IsLast :
    (s : CString) (c : ℕ) → 0 < c → (Lacks c s × (strrchr s c ≡ none)) ⊎ IsLast s c (strrchr s c)
unfolding strrchr
strrchr-IsLast s c h = strrchr_loop-IsLast s c none h
