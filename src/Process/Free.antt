-- ===== src/Process/Free.antt =====
-- The slot of the table that `find_unused` of process.c finds.
use minios_grub_bootloader.Base.{
  ℕ, zero, suc, ◌+◌, ◌<◌, ◌≡◌, ◌≢◌, ◌⊎◌, inl, inr, refl, sym, ap, ◌∙◌, false, none, some, List, [],
  ◌∷◌, ◌++◌, append_assoc, arith, length, take, drop, length-append, length-take,
}
use minios_grub_bootloader.Process.{
  Process, ProcessState, unused, embryo, runnable, running, is_unused, max_processes, find_unused,
}

-- No process of the list has a free slot.
abbrev pub AllUsed : List Process → Type 0
AllUsed [] = Unit {0}
AllUsed (p ∷ ps) = (p.state ≢ unused) × AllUsed ps

-- Slot `i` is the first free one of the table, with the processes before and behind it.
pub record IsFirstFree (table : List Process) (i : ℕ) : Type 0 where
  pub before : List Process
  pub after : List Process
  pub tenant : Process
  pub splits : table ≡ before ++ (tenant ∷ after)
  pub at : length before ≡ i
  pub in_table : i < max_processes
  pub used : AllUsed before
  pub free : tenant.state ≡ unused

unused-cases : (p : ProcessState) → (p ≡ unused) ⊎ ((p ≢ unused) × (is_unused p ≡ false))
unused-cases unused = inl refl
unused-cases embryo = inr ((λ e. absurd (cc)), refl)
unused-cases runnable = inr ((λ e. absurd (cc)), refl)
unused-cases running = inr ((λ e. absurd (cc)), refl)

take-drop : (n : ℕ) (xs : List Process) → take n xs ++ drop n xs ≡ xs
take-drop zero xs = refl
take-drop (suc n) [] = refl
take-drop (suc n) (x ∷ xs) = ap (λ l. x ∷ l) (take-drop n xs)

pub find_unused-none :
    (start : ℕ) (table : List Process) → find_unused start table ≡ none → AllUsed table
unfolding find_unused
find_unused-none start [] e = tt
find_unused-none start (p ∷ ps) e = elim (unused-cases p.state) [
  | inl free ↦ absurd (let found = rw (find_unused, free) at e in cc)
  | inr (ne, busy) ↦ (ne, find_unused-none (start + 1) ps (rw (find_unused, busy) at e))
]

-- What `find_unused` finds in a part of the table.
record IsFound (start : ℕ) (table : List Process) (i : ℕ) : Type 0 where
  before : List Process
  after : List Process
  tenant : Process
  splits : table ≡ before ++ (tenant ∷ after)
  at : start + length before ≡ i
  used : AllUsed before
  free : tenant.state ≡ unused

find_unused-IsFound :
    (start : ℕ) (table : List Process) (i : ℕ)
    → find_unused start table ≡ some i
    → IsFound start table i
unfolding find_unused
find_unused-IsFound start [] i e = absurd (cc)
find_unused-IsFound start (p ∷ ps) i e = elim (unused-cases p.state) [
  | inl free ↦ record {
    before = [];
    after = ps;
    tenant = p;
    splits = refl;
    at =
        (let found = rw (find_unused, free) at e in
          let same : start ≡ i = cc in omega (arith, same));
    used = tt;
    free = free;
  }
  | inr (ne, busy) ↦
      let more = find_unused-IsFound (start + 1) ps i (rw (find_unused, busy) at e) in
      record {
        before = p ∷ more.before;
        after = more.after;
        tenant = more.tenant;
        splits = ap (λ l. p ∷ l) more.splits;
        at = omega (arith, more.at);
        used = (ne, more.used);
        free = more.free;
      }
]

pub find_unused-IsFirstFree :
    (table : List Process) (i : ℕ)
    → find_unused 0 (take max_processes table) ≡ some i
    → IsFirstFree table i
find_unused-IsFirstFree table i e =
    let f = find_unused-IsFound 0 (take max_processes table) i e in
    record {
      before = f.before;
      after = f.after ++ drop max_processes table;
      tenant = f.tenant;
      splits =
          sym (take-drop max_processes table)
          ∙ ap (λ l. l ++ drop max_processes table) f.splits
          ∙ append_assoc f.before (f.tenant ∷ f.after) (drop max_processes table);
      at = omega (arith, f.at);
      in_table = omega (
        arith,
        f.at,
        ap length f.splits,
        length-append f.before (f.tenant ∷ f.after),
        length-take max_processes table,
      );
      used = f.used;
      free = f.free;
    }
