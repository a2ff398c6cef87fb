-- ===== src/Fat32/Io.antt =====
-- The operations of fat32.c that change the disk: state passing with two ways not to return, a panic
-- and a loop that has used up the turns it was given.
use minios_grub_bootloader.Base.{◌≡◌, ap, Bool, true, false, Option, none, some}
use minios_grub_bootloader.Disk.{Disk}

pub data Outcome (A : Type 0) : Type 0 where
  done : A → Disk → Outcome A
  panics : Outcome A
  unfinished : Outcome A

abbrev pub Io : Type 0 → Type 0
Io A = Disk → Outcome A

abbrev pub return : {A : Type 0} → A → Io A
return a d = done a d

infixl 5 ◌>>=◌ ◌>>◌
abbrev pub ◌>>=◌ : {A B : Type 0} → Io A → (A → Io B) → Io B
◌>>=◌ m f d = elim (m d) [ done a d' ↦ f a d' | panics ↦ panics | unfinished ↦ unfinished ]

abbrev pub ◌>>◌ : {A B : Type 0} → Io A → Io B → Io B
m >> k = m >>= λ _. k

-- A value that depends on the disk.
abbrev pub gets : {A : Type 0} → (Disk → A) → Io A
gets f d = done (f d) d

-- An operation that returns its answer with the disk.
abbrev pub lift : {A : Type 0} → (Disk → A × Disk) → Io A
lift f d = let (a, d') = f d in done a d'

-- `kpanic` in place of a value.
abbrev pub or_panic : {A : Type 0} → Option A → Io A
or_panic none d = panics
or_panic (some a) d = done a d

-- An early `return false`.
abbrev pub unless_failed : Bool → Io Bool → Io Bool
unless_failed true rest = rest
unless_failed false rest = return false

pub bind-done :
    {A B : Type 0} (m : Io A) (f : A → Io B) (d d' : Disk) (a : A)
    → m d ≡ done a d'
    → (m >>= f) d ≡ f a d'
bind-done m f d d' a e =
    ap (λ o. elim o [ done x d'' ↦ f x d'' | panics ↦ panics | unfinished ↦ unfinished ]) e
