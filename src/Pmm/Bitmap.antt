-- ===== src/Pmm/Bitmap.antt =====
-- The bitmap as a set of pages.
use native.Mathlib.Decide.{ℕ_discrete, dec_lt}
use minios_grub_bootloader.Base.{
  length-set, bit_of-ones, ap, ap₂, ◌∙◌, ne_of_test, eq_of_test, get_or-set_self, get_or-set_ne, ℕ,
  zero, suc, ◌+◌, ◌-◌, ◌*◌, ◌/◌, ◌%◌, ◌^◌, ◌≤◌, ◌<◌, bit_and, bit_or, ◌≡◌, refl, inl, inr, Option,
  none, some, List, arith, ◌==◌, if◌then◌else◌, Bool-cases, length, get_or, bit_of, bit_of-bit_or,
  bit_of-bit_and, bit_of-pow, bit_of-not_pow, bit_and_mask,
}
use minios_grub_bootloader.Pmm.{find_bit, find_word, find_first_page, bitmap_set, bitmap_clear}

-- 1 if the page is taken.
abbrev pub taken : List ℕ → ℕ → ℕ
taken bitmap page = bit_of (get_or bitmap (page / 32) 0) (page % 32)

-- The words are 32-bit words.
abbrev pub IsBitmap : List ℕ → Type 0
IsBitmap bitmap = (i : ℕ) → get_or bitmap i 0 < 2 ^ 32

pub length-bitmap_set :
    (bitmap : List ℕ) (page : ℕ) → length (bitmap_set bitmap page) ≡ length bitmap
unfolding bitmap_set
length-bitmap_set bitmap page = length-set bitmap _ _

-- `bitmap_set` takes its page and changes no other.
pub taken-bitmap_set :
    (bitmap : List ℕ) (page other : ℕ)
    → page / 32 < length bitmap
    → taken (bitmap_set bitmap page) other ≡ (if other == page then 1 else taken bitmap other)
unfolding bitmap_set
taken-bitmap_set bitmap page other h = ground (
  arith,
  get_or-set_self bitmap (page / 32) (bit_or (get_or bitmap (page / 32) 0) (2 ^ (page % 32))) 0,
  get_or-set_ne bitmap (page / 32) (other / 32)
      (bit_or (get_or bitmap (page / 32) 0) (2 ^ (page % 32))) 0,
  bit_of-bit_or (other % 32) (get_or bitmap (page / 32) 0) (2 ^ (page % 32)),
  bit_of-pow (page % 32) (other % 32),
)

-- `bitmap_clear` frees its page and changes no other.
pub taken-bitmap_clear :
    (bitmap : List ℕ) (page other : ℕ)
    → page / 32 < length bitmap
    → taken (bitmap_clear bitmap page) other ≡ (if other == page then 0 else taken bitmap other)
unfolding bitmap_clear
taken-bitmap_clear bitmap page other h = ground (
  arith,
  get_or-set_self bitmap (page / 32)
      (bit_and (get_or bitmap (page / 32) 0) (2 ^ 32 - 1 - 2 ^ (page % 32))) 0,
  get_or-set_ne bitmap (page / 32) (other / 32)
      (bit_and (get_or bitmap (page / 32) 0) (2 ^ 32 - 1 - 2 ^ (page % 32))) 0,
  bit_of-bit_and (other % 32) (get_or bitmap (page / 32) 0) (2 ^ 32 - 1 - 2 ^ (page % 32)),
  bit_of-not_pow (page % 32) (other % 32),
)

-- The answer of the search: the first free page below `limit`, or none.
pub data IsFirstFree (bitmap : List ℕ) (limit : ℕ) : Option ℕ → Type 0 where
  first :
      {page : ℕ}
      → page < limit
      → taken bitmap page ≡ 0
      → ((p : ℕ) → p < page → taken bitmap p ≡ 1)
      → IsFirstFree bitmap limit (some page)
  full : ((p : ℕ) → p < limit → taken bitmap p ≡ 1) → IsFirstFree bitmap limit none

-- A search over the pages from `from` on, of which none is free up to `to` or up to the answer.
data Scan (bitmap : List ℕ) (from to : ℕ) : Option ℕ → Type 0 where
  hit :
      {page : ℕ}
      → from ≤ page
      → page < to
      → taken bitmap page ≡ 0
      → ((p : ℕ) → from ≤ p → p < page → taken bitmap p ≡ 1)
      → Scan bitmap from to (some page)
  miss : ((p : ℕ) → from ≤ p → p < to → taken bitmap p ≡ 1) → Scan bitmap from to none

-- The bits of one word from `j` on.
data ScanBits (word j to : ℕ) : Option ℕ → Type 0 where
  hit :
      {b : ℕ}
      → j ≤ b
      → b < to
      → bit_of word b ≡ 0
      → ((c : ℕ) → j ≤ c → c < b → bit_of word c ≡ 1)
      → ScanBits word j to (some b)
  miss : ((c : ℕ) → j ≤ c → c < to → bit_of word c ≡ 1) → ScanBits word j to none

ScanBits-cons :
    {word j to : ℕ} {o : Option ℕ}
    → bit_of word j ≡ 1
    → ScanBits word (j + 1) to o
    → ScanBits word j to o
ScanBits-cons {j} e (hit lo hi z before) =
    hit (omega arith) hi z (λ c p q. elim (ℕ_discrete c j) [
      | yes same ↦ rw same e
      | no differ ↦ before c (omega arith) q
    ])
ScanBits-cons {j} e (miss all) =
    miss
      (λ c p q. elim (ℕ_discrete c j) [ yes same ↦ rw same e | no differ ↦ all c (omega arith) q ])

find_bit-ScanBits : (left j to word : ℕ) → j + left ≡ to → ScanBits word j to (find_bit left j word)
unfolding find_bit
find_bit-ScanBits zero j to word e = miss (λ c p q. absurd (omega arith))
find_bit-ScanBits (suc left) j to word e =
    rw (bit_and_mask 1 (word / 2 ^ j)) (elim (Bool-cases (bit_of word j == 0)) [
      | inl clear ↦
          rw clear
            (hit (omega arith) (omega arith) (eq_of_test _ 0 clear) (λ c p q. absurd (omega arith)))
      | inr set_bit ↦ rw set_bit (
          ScanBits-cons (let ne = ne_of_test _ 0 set_bit in omega arith)
            (find_bit-ScanBits left (j + 1) to word (omega arith)))
    ])

-- The bits of word `i` are its pages.
taken_at :
    (bitmap : List ℕ) (i b : ℕ) → b < 32 → taken bitmap (i * 32 + b) ≡ bit_of (get_or bitmap i 0) b
taken_at bitmap i b h = ap₂ (λ k o. bit_of (get_or bitmap k 0) o) (omega arith) (omega arith)

-- A page of word `i`, from the bit that it is.
of_bits :
    (bitmap : List ℕ) (i v p : ℕ) (to : ℕ)
    → ((c : ℕ) → 0 ≤ c → c < to → bit_of (get_or bitmap i 0) c ≡ v)
    → to ≤ 32
    → i * 32 ≤ p
    → p < i * 32 + to
    → taken bitmap p ≡ v
of_bits bitmap i v p to all le lo hi =
    ap (taken bitmap) (omega arith)
    ∙ taken_at bitmap i (p - i * 32) (omega arith)
    ∙ all (p - i * 32) (omega arith) (omega arith)

Scan-skip :
    {bitmap : List ℕ} (i : ℕ) {to : ℕ} {o : Option ℕ}
    → ((p : ℕ) → i * 32 ≤ p → p < i * 32 + 32 → taken bitmap p ≡ 1)
    → Scan bitmap ((i + 1) * 32) to o
    → Scan bitmap (i * 32) to o
Scan-skip i word (hit lo hi z before) = hit (omega arith) hi z (λ p q r.
    elim (dec_lt p (i * 32 + 32)) [
      | yes here ↦ word p q here
      | no later ↦ before p (omega arith) r
    ])
Scan-skip i word (miss all) = miss (λ p q r. elim (dec_lt p (i * 32 + 32)) [
  | yes here ↦ word p q here
  | no later ↦ all p (omega arith) r
])

after_word :
    (bitmap : List ℕ) (i : ℕ) {to : ℕ} {o rest : Option ℕ}
    → i * 32 + 32 ≤ to
    → ScanBits (get_or bitmap i 0) 0 32 o
    → Scan bitmap ((i + 1) * 32) to rest
    → Scan bitmap (i * 32) to (elim o [ none ↦ rest | some j ↦ some (i * 32 + j) ])
after_word bitmap i le (hit {b} lo hi z before) rest =
    hit (omega arith) (omega arith) (taken_at bitmap i b hi ∙ z)
      (λ p q r. of_bits bitmap i 1 p b before (omega arith) q r)
after_word bitmap i le (miss all) rest =
    Scan-skip i (λ p q r. of_bits bitmap i 1 p 32 all (omega arith) q r) rest

find_word-Scan :
    (bitmap : List ℕ) (left i to : ℕ)
    → (i + left) * 32 ≡ to
    → Scan bitmap (i * 32) to (find_word left i bitmap)
unfolding find_word
find_word-Scan bitmap zero i to e = miss (λ p q r. absurd (omega arith))
find_word-Scan bitmap (suc left) i to e =
    let rest = find_word-Scan bitmap left (i + 1) to (omega arith) in
    elim (Bool-cases (get_or bitmap i 0 == 0xFFFFFFFF)) [
      | inl ones ↦
          rw (find_word, ones)
            (Scan-skip i
              (λ p q r.
                of_bits bitmap i 1 p 32
                  (λ c u v. rw (eq_of_test _ 0xFFFFFFFF ones) (bit_of-ones c v)) (omega arith) q r)
              rest)
      | inr other ↦
          rw (find_word, other)
            (after_word bitmap i (omega arith) (find_bit-ScanBits 32 0 32 (get_or bitmap i 0) refl)
              rest)
    ]

-- `find_first_page` answers the lowest page that is not taken, among the pages of the whole words
-- below `count`, and -1 exactly when all of those are taken.
pub find_first_page-IsFirstFree :
    (bitmap : List ℕ) (count : ℕ)
    → IsFirstFree bitmap (count / 32 * 32) (find_first_page bitmap count)
unfolding find_first_page
find_first_page-IsFirstFree bitmap count =
    finish (find_word-Scan bitmap (count / 32) 0 (count / 32 * 32) (omega arith))
  where
    finish :
        {o : Option ℕ} → Scan bitmap 0 (count / 32 * 32) o → IsFirstFree bitmap (count / 32 * 32) o
    finish (hit lo hi z before) = first hi z (λ p q. before p (omega arith) q)
    finish (miss all) = full (λ p q. all p (omega arith) q)
