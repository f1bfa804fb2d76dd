-- ===== src/Stats/Bytes.antt =====
-- Bytes that were copied into the array are read back.
use ross.Prelude.{
  ℕ, zero, suc, ◌+◌, ◌-◌, ◌<◌, ◌≤◌, ◌≡◌, refl, ap, ◌∙◌, List, [], ◌∷◌, ◌++◌, ◌==◌, length, arith,
  true, false,
}
use ross.Stats.{write_bytes, read_bytes, take, drop}

pub write_bytes-below :
    (b : ℕ → ℕ) (p : ℕ) (xs : List ℕ) (j : ℕ) → j < p → write_bytes b p xs j ≡ b j
unfolding write_bytes
write_bytes-below b p [] j h = refl
write_bytes-below b p (x ∷ xs) j h =
    let other : (j == p) ≡ false = ground arith in
    rw other (write_bytes-below b (p + 1) xs j (omega arith))

pub read_bytes-same :
    (b c : ℕ → ℕ) (p n : ℕ)
    → ((j : ℕ) → p ≤ j → j < p + n → b j ≡ c j)
    → read_bytes b p n ≡ read_bytes c p n
unfolding read_bytes
read_bytes-same b c p zero h = refl
read_bytes-same b c p (suc n) h =
    ap (λ x. x ∷ read_bytes b (p + 1) n) (h p (omega arith) (omega arith))
    ∙ ap (λ xs. c p ∷ xs) (read_bytes-same b c (p + 1) n (λ j l m. h j (omega arith) (omega arith)))

pub read_bytes-write_bytes :
    (b : ℕ → ℕ) (p : ℕ) (xs : List ℕ) → read_bytes (write_bytes b p xs) p (length xs) ≡ xs
unfolding read_bytes write_bytes
read_bytes-write_bytes b p [] = refl
read_bytes-write_bytes b p (x ∷ xs) =
    let same : (p == p) ≡ true = ground arith in
    let rest : ℕ → ℕ = write_bytes b (p + 1) xs in
    let later : (j : ℕ) → p + 1 ≤ j → j < p + 1 + length xs → write_bytes b p (x ∷ xs) j ≡ rest j =
      λ j l m. (let other : (j == p) ≡ false = ground arith in rw other refl) in
    rw same (
      ap (λ ys. x ∷ ys)
        (read_bytes-same (write_bytes b p (x ∷ xs)) rest (p + 1) (length xs) later
          ∙ read_bytes-write_bytes b (p + 1) xs))

pub read_bytes-add :
    (b : ℕ → ℕ) (p m n : ℕ) → read_bytes b p (m + n) ≡ read_bytes b p m ++ read_bytes b (p + m) n
unfolding read_bytes
read_bytes-add b p zero n =
    let none_read : 0 + n ≡ n = omega arith in
    let start : p + 0 ≡ p = omega arith in rw (none_read, start) refl
read_bytes-add b p (suc m) n =
    let first : suc m + n ≡ suc (m + n) = omega arith in
    let start : p + suc m ≡ p + 1 + m = omega arith in
    rw (first, start) (ap (λ ys. b p ∷ ys) (read_bytes-add b (p + 1) m n))

pub length-take : (n : ℕ) (xs : List ℕ) → n ≤ length xs → length (take n xs) ≡ n
length-take zero xs h = refl
length-take (suc n) [] h = absurd (omega arith)
length-take (suc n) (x ∷ xs) h = ap suc (length-take n xs (omega arith))

pub length-drop : (n : ℕ) (xs : List ℕ) → length (drop n xs) ≡ length xs - n
length-drop zero xs = omega arith
length-drop (suc n) [] = omega arith
length-drop (suc n) (x ∷ xs) = length-drop n xs ∙ omega arith
