-- ===== src/Libc/Strings/Tokens.antt =====
-- What `strtok` cuts off.
use minios_grub_bootloader.Base.{
  ℕ, ◌≡◌, refl, sym, ap, ◌∙◌, ◌≢◌, ◌⊎◌, inl, inr, Bool, true, false, not, Option, none, some, [],
  ◌∷◌, ◌++◌, append-nil, Bool-cases,
}
use minios_grub_bootloader.Libc.Strings.{
  CString, is_delim, skip_delims, cut_token, strtok, tok_from,
}

abbrev pub All : (ℕ → Bool) → CString → Type 0
All p [] = Unit {0}
All p (c ∷ s) = (p c ≡ true) × All p s

abbrev pub not_delim : CString → ℕ → Bool
not_delim delim c = not (is_delim delim c)

-- What `strtok` answers on the string `s`: the string is delimiters, then the token, then either
-- its end or one more delimiter and the rest, from which the next call starts.
pub record IsToken (delim s token rest : CString) : Type 0 where
  pub skipped : CString
  pub tail : CString
  pub splits : s ≡ skipped ++ (token ++ tail)
  pub ended :
      ((tail ≡ []) × (rest ≡ [])) ⊎ ((c : ℕ) × (tail ≡ c ∷ rest) × (is_delim delim c ≡ true))
  pub delims : All (is_delim delim) skipped
  pub clean : All (not_delim delim) token
  pub nonempty : token ≢ []

record IsCut (delim s token rest : CString) : Type 0 where
  tail : CString
  splits : s ≡ token ++ tail
  ended : ((tail ≡ []) × (rest ≡ [])) ⊎ ((c : ℕ) × (tail ≡ c ∷ rest) × (is_delim delim c ≡ true))
  clean : All (not_delim delim) token

cut_token-IsCut : (delim s : CString) → IsCut delim s (cut_token delim s).0 (cut_token delim s).1
unfolding cut_token
cut_token-IsCut delim [] = record { tail = []; splits = refl; ended = inl (refl, refl); clean = tt }
cut_token-IsCut delim (c ∷ s) = elim (Bool-cases (is_delim delim c)) [
  | inl e ↦ rw e (record { tail = c ∷ s; splits = refl; ended = inr (c, refl, e); clean = tt })
  | inr e ↦
      let more = cut_token-IsCut delim s in
      rw e (record {
        tail = more.tail;
        splits = ap (λ r. c ∷ r) more.splits;
        ended = more.ended;
        clean = (rw e, more.clean);
      })
]

record IsSkip (delim s rest : CString) : Type 0 where
  skipped : CString
  splits : s ≡ skipped ++ rest
  delims : All (is_delim delim) skipped
  stops : (rest ≡ []) ⊎ ((c : ℕ) × (t : CString) × (rest ≡ c ∷ t) × (is_delim delim c ≡ false))

skip_delims-IsSkip : (delim s : CString) → IsSkip delim s (skip_delims delim s)
unfolding skip_delims
skip_delims-IsSkip delim [] = record { skipped = []; splits = refl; delims = tt; stops = inl refl }
skip_delims-IsSkip delim (c ∷ s) = elim (Bool-cases (is_delim delim c)) [
  | inl e ↦
      let more = skip_delims-IsSkip delim s in
      rw e (record {
        skipped = c ∷ more.skipped;
        splits = ap (λ r. c ∷ r) more.splits;
        delims = (e, more.delims);
        stops = more.stops;
      })
  | inr e ↦ rw e (record { skipped = []; splits = refl; delims = tt; stops = inr (c, s, refl, e) })
]

-- The outcomes of `strtok` on a string.
pub data Cuts (delim s : CString) : Option CString × Option CString → Type 0 where
  only_delims : All (is_delim delim) s → Cuts delim s (none, some [])
  token : {t rest : CString} → IsToken delim s t rest → Cuts delim s (some t, some rest)

cut_token-nonempty :
    (delim : CString) (c : ℕ) (s : CString)
    → is_delim delim c ≡ false
    → (cut_token delim (c ∷ s)).0 ≢ []
unfolding cut_token
cut_token-nonempty delim c s e = rw e (cc)

tok_from-Cuts : (delim s rest : CString) → IsSkip delim s rest → Cuts delim s (tok_from delim rest)
unfolding tok_from
tok_from-Cuts delim s [] k = only_delims (rw (k.splits, append-nil) k.delims)
tok_from-Cuts delim s (c ∷ t) k =
    let cut = cut_token-IsCut delim (c ∷ t) in
    token (record {
      skipped = k.skipped;
      tail = cut.tail;
      splits = k.splits ∙ ap (λ r. k.skipped ++ r) cut.splits;
      ended = cut.ended;
      delims = k.delims;
      clean = cut.clean;
      nonempty = elim k.stops [
        | inl e ↦ absurd (cc)
        | inr (d, u, e, h) ↦ cut_token-nonempty delim c t (let same : d ≡ c = cc in rw same at h)
      ];
    })

-- `strtok` started on a string cuts off the first longest run of bytes that are not delimiters,
-- keeps what follows the delimiter after it, and answers NULL exactly on a string of delimiters.
pub strtok-Cuts :
    (s delim : CString) (saved : Option CString) → Cuts delim s (strtok (some s) delim saved)
unfolding strtok
strtok-Cuts s delim saved = tok_from-Cuts delim s (skip_delims delim s) (skip_delims-IsSkip delim s)

false_of_not : (b : Bool) → not b ≡ true → b ≡ false
false_of_not true e = sym e
false_of_not false e = refl

cut_token_at :
    (delim s : CString) (c : ℕ) (rest : CString)
    → All (not_delim delim) s
    → is_delim delim c ≡ true
    → cut_token delim (s ++ (c ∷ rest)) ≡ (s, rest)
unfolding cut_token
cut_token_at delim [] c rest clean e = rw e refl
cut_token_at delim (a ∷ s) c rest clean e =
    let more = cut_token_at delim s c rest clean.1 e in
    let not_here : is_delim delim a ≡ false = false_of_not _ clean.0 in rw (not_here, more) refl

cut_token_whole : (delim s : CString) → All (not_delim delim) s → cut_token delim s ≡ (s, [])
unfolding cut_token
cut_token_whole delim [] clean = refl
cut_token_whole delim (a ∷ s) clean =
    let more = cut_token_whole delim s clean.1 in
    let not_here : is_delim delim a ≡ false = false_of_not _ clean.0 in rw (not_here, more) refl

-- The first call on a token, a delimiter and more: the next call starts behind the delimiter.
pub strtok_at :
    (delim : CString) (a : ℕ) (s : CString) (c : ℕ) (rest : CString) (saved : Option CString)
    → All (not_delim delim) (a ∷ s)
    → is_delim delim c ≡ true
    → strtok (some ((a ∷ s) ++ (c ∷ rest))) delim saved ≡ (some (a ∷ s), some rest)
unfolding strtok tok_from skip_delims
strtok_at delim a s c rest saved clean e =
    rw (false_of_not _ clean.0, cut_token_at delim (a ∷ s) c rest clean e) refl

-- A later call, when no delimiter is left.
pub strtok_whole :
    (delim : CString) (a : ℕ) (s : CString)
    → All (not_delim delim) (a ∷ s)
    → strtok none delim (some (a ∷ s)) ≡ (some (a ∷ s), some [])
unfolding strtok tok_from skip_delims
strtok_whole delim a s clean = rw (false_of_not _ clean.0, cut_token_whole delim (a ∷ s) clean) refl
