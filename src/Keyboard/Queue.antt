-- ===== src/Keyboard/Queue.antt =====
-- The ring of the keyboard driver as a queue of characters.
use minios_grub_bootloader.Base.{
  Bool, not, ◌&&◌, ◌||◌, bit_and, ℕ, zero, suc, ◌+◌, ◌-◌, ◌<◌, ◌≡◌, refl, ap, ap₂, ◌∙◌, ◌≢◌, inl,
  inr, Option, none, some, List, [], ◌∷◌, ◌++◌, arith, ◌==◌, if◌then◌else◌, Bool-cases, u8, length,
  get_or, set, bit_and_mask, eq_of_test, ne_of_test, get_or-set_self, get_or-set_ne, length-set,
}
use minios_grub_bootloader.Keyboard.{
  character, keyboard_handler, Keyboard, push, buffer_size, keyboard_getchar,
}

-- `n` characters of the buffer from index `i` on, where the index is of 8 bits.
abbrev pub slice : ℕ → ℕ → List ℕ → List ℕ
slice zero i buffer = []
slice (suc n) i buffer = get_or buffer i 0 ∷ slice n (u8 (i + 1)) buffer

abbrev pub pending_count : Keyboard → ℕ
pending_count k = u8 (k.write_index + 256 - k.read_index)

-- The characters that are written and not read.
abbrev pub pending : Keyboard → List ℕ
pending k = slice (pending_count k) k.read_index k.buffer

pub record IsValid (k : Keyboard) : Type 0 where
  pub write_index : k.write_index < 256
  pub read_index : k.read_index < 256
  pub room : length k.buffer ≡ buffer_size

advance_index : (i : ℕ) → i < 256 → u8 (bit_and (i + 1) (buffer_size - 1)) ≡ u8 (i + 1)
advance_index i h = ground (arith, bit_and_mask 10 (i + 1))

slice-set :
    (n i w c : ℕ) (b : List ℕ)
    → ((j : ℕ) → j < n → u8 (i + j) ≢ w)
    → i < 256
    → slice n i (set b w c) ≡ slice n i b
slice-set zero i w c b h l = refl
slice-set (suc n) i w c b h l =
    ap₂ ◌∷◌ (get_or-set_ne b w i c 0 (λ e. h 0 (omega arith) (omega arith))) (
      slice-set n (u8 (i + 1)) w c b (λ j lt e. h (suc j) (omega arith) (omega arith))
        (omega arith))

slice-last :
    (n i : ℕ) (b : List ℕ)
    → i < 256
    → slice (suc n) i b ≡ slice n i b ++ (get_or b (u8 (i + n)) 0 ∷ [])
slice-last zero i b l = ap (λ k. get_or b k 0 ∷ []) (omega arith)
slice-last (suc n) i b l =
    ap (λ r. get_or b i 0 ∷ r)
      (slice-last n (u8 (i + 1)) b (omega arith)
        ∙ ap (λ k. slice n (u8 (i + 1)) b ++ (get_or b k 0 ∷ [])) (omega arith))

length-slice : (n i : ℕ) (b : List ℕ) → length (slice n i b) ≡ n
length-slice zero i b = refl
length-slice (suc n) i b = ap suc (length-slice n (u8 (i + 1)) b)

push-IsValid : (c : ℕ) (k : Keyboard) → IsValid k → IsValid (push c k)
unfolding push
push-IsValid c k v = record {
  write_index = omega arith;
  read_index = v.read_index;
  room = length-set k.buffer k.write_index c ∙ v.room;
}

-- While fewer than 255 characters wait, a character that is pushed is put behind them.
pub pending-push :
    (c : ℕ) (k : Keyboard)
    → IsValid k
    → pending_count k < 255
    → pending (push c k) ≡ pending k ++ (c ∷ [])
unfolding push
pending-push c k v h =
    let more : u8 (u8 (bit_and (k.write_index + 1) (buffer_size - 1)) + 256 - k.read_index)
        ≡ suc (pending_count k) =
      omega (arith, advance_index k.write_index v.write_index, v.read_index, v.write_index, h) in
    rw more (
      slice-last (pending_count k) k.read_index (set k.buffer k.write_index c) v.read_index
      ∙ ap₂ (λ l x. l ++ (x ∷ []))
          (slice-set (pending_count k) k.read_index k.write_index c k.buffer
            (λ j lt e. ground (arith, v.write_index, v.read_index, h)) v.read_index)
          (ap (λ i. get_or (set k.buffer k.write_index c) i 0)
              (omega (arith, v.write_index, v.read_index))
            ∙ get_or-set_self k.buffer k.write_index c 0 (omega (arith, v.room, v.write_index))))

-- With the indices in the buffer and 255 characters waiting, one more character makes the buffer
-- look empty.
pub pending-push_full :
    (c : ℕ) (k : Keyboard) → IsValid k → pending_count k ≡ 255 → pending (push c k) ≡ []
unfolding push
pending-push_full c k v h =
    let none_left : u8 (u8 (bit_and (k.write_index + 1) (buffer_size - 1)) + 256 - k.read_index)
        ≡ 0 =
      omega (arith, advance_index k.write_index v.write_index, v.read_index, v.write_index, h) in
    rw none_left refl

-- What a turn of `keyboard_getchar` gives for the characters that wait.
pub data IsGot (k : Keyboard) : Option (ℕ × Keyboard) → Type 0 where
  waits : pending k ≡ [] → IsGot k none
  takes : {c : ℕ} {k' : Keyboard} → pending k ≡ c ∷ pending k' → IsValid k' → IsGot k (some (c, k'))

-- With the indices in the buffer, `keyboard_getchar` takes the character that has waited longest
-- and keeps the others in their order, and waits where there is none.
pub keyboard_getchar-IsGot : (k : Keyboard) → IsValid k → IsGot k (keyboard_getchar k)
unfolding keyboard_getchar
keyboard_getchar-IsGot k v = elim (Bool-cases (k.read_index == k.write_index)) [
  | inl e ↦
      let nothing : pending_count k ≡ 0 = omega (arith, eq_of_test _ _ e, v.write_index) in
      rw e (waits (ap (λ n. slice n k.read_index k.buffer) nothing))
  | inr e ↦ rw e (
      takes (pop (ne_of_test _ _ e))
        (record { write_index = v.write_index; read_index = omega arith; room = v.room }))
]
  where
    pop :
        k.read_index ≢ k.write_index
        → pending k
          ≡ get_or k.buffer k.read_index 0
            ∷ pending (record k { read_index = u8 (bit_and (k.read_index + 1) (buffer_size - 1)) })
    pop ne =
        let step = advance_index k.read_index v.read_index in
        let one_more : pending_count k ≡ suc (u8 (k.write_index + 256 - u8 (k.read_index + 1))) =
          omega (arith, v.write_index, v.read_index, ne) in
        rw step (ap (λ n. slice n k.read_index k.buffer) one_more)

-- An interrupt for a key that is pressed and gives a character.
abbrev pub is_press : ℕ → ℕ → Bool
is_press status keycode =
    let key = bit_and keycode 0x7F in
    not (bit_and status 1 == 0)
    && (not (key == 58) && (not (key == 42 || key == 54) && (bit_and keycode 0x80 == 0)))

-- While fewer than 255 characters wait and the indices are in the buffer, the handler puts the
-- character of a key that is pressed behind the waiting ones, and leaves the waiting characters
-- alone at every other interrupt.
pub pending-keyboard_handler :
    (status keycode : ℕ) (k : Keyboard)
    → IsValid k
    → pending_count k < 255
    → pending (keyboard_handler status keycode k) ≡ (
        if is_press status keycode
        then pending k ++ (character k (bit_and keycode 0x7F) ∷ [])
        else pending k)
unfolding keyboard_handler
pending-keyboard_handler status keycode k v h =
    ground (arith, pending-push (character k (bit_and keycode 0x7F)) k v h)

-- The handler keeps the indices in the buffer.
pub keyboard_handler-IsValid :
    (status keycode : ℕ) (k : Keyboard) → IsValid k → IsValid (keyboard_handler status keycode k)
unfolding keyboard_handler
keyboard_handler-IsValid status keycode k v = record {
  write_index = ground (arith, p.write_index, v.write_index);
  read_index = ground (arith, p.read_index, v.read_index);
  room = ground (arith, p.room, v.room);
}
  where
    p : IsValid (push (character k (bit_and keycode 0x7F)) k)
    p = push-IsValid (character k (bit_and keycode 0x7F)) k v
