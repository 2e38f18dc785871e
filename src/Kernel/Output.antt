-- ===== src/Kernel/Output.antt =====
-- The tail of the kernel's output (`cappedBuffer` of mihomotui/mihomo_process.go). A byte is an element.
use mathlib.Core.List.{append-nil, append_assoc}
use mihomo_tui.Base.{
  ℕ, zero, suc, ◌+◌, ◌-◌, ◌≤◌, ◌≡◌, refl, sym, ap, ◌∙◌, List, [], ◌∷◌, ◌++◌, arith, length,
  length-append, ltb, if◌then◌else◌, Bool-cases, inl, inr,
}

module _ {ℓ} {A : Type ℓ} where
  -- `xs[n:]`
  abbrev pub drop : ℕ → List A → List A
  drop n [] = []
  drop zero (x ∷ xs) = x ∷ xs
  drop (suc n) (x ∷ xs) = drop n xs

  -- `cappedBuffer.Write`, on the bytes of the buffer
  unfoldable pub write : ℕ → List A → List A → List A
  write limit buf p =
      let joined = buf ++ p in
      if ltb limit (length joined) then drop (length joined - limit) joined else joined

  -- Several writes, one after the other.
  unfoldable pub write_all : ℕ → List A → List (List A) → List A
  unfolding write
  write_all limit buf [] = buf
  write_all limit buf (p ∷ ps) = write_all limit (write limit buf p) ps

  -- The last bytes, as many as the limit allows.
  abbrev pub last_bytes : ℕ → List A → List A
  last_bytes limit xs = drop (length xs - limit) xs

  abbrev pub concat_writes : List (List A) → List A
  concat_writes [] = []
  concat_writes (p ∷ ps) = p ++ concat_writes ps

module _ {ℓ} {A : Type ℓ} where
  drop-zero : (xs : List A) → drop 0 xs ≡ xs
  drop-zero [] = refl
  drop-zero (x ∷ xs) = refl

  length-drop : (n : ℕ) (xs : List A) → length (drop n xs) ≡ length xs - n
  length-drop n [] = omega arith
  length-drop zero (x ∷ xs) = omega arith
  length-drop (suc n) (x ∷ xs) = length-drop n xs ∙ omega arith

  drop-append : (n : ℕ) (xs ys : List A) → n ≤ length xs → drop n (xs ++ ys) ≡ drop n xs ++ ys
  drop-append zero [] ys h = drop-zero ys
  drop-append (suc n) [] ys h = absurd (omega (arith, h))
  drop-append zero (x ∷ xs) ys h = refl
  drop-append (suc n) (x ∷ xs) ys h = drop-append n xs ys (omega arith)

  drop-drop : (m n : ℕ) (xs : List A) → drop m (drop n xs) ≡ drop (n + m) xs
  drop-drop m n [] = refl
  drop-drop m zero (x ∷ xs) = let same : m ≡ 0 + m = omega arith in ap (λ k. drop k (x ∷ xs)) same
  drop-drop m (suc n) (x ∷ xs) =
      let same : suc (n + m) ≡ suc n + m = omega arith in
      drop-drop m n xs ∙ ap (λ k. drop k (x ∷ xs)) same

  write-last_bytes : (limit : ℕ) (buf p : List A) → write limit buf p ≡ last_bytes limit (buf ++ p)
  unfolding write
  write-last_bytes limit buf p = elim (Bool-cases (ltb limit (length (buf ++ p)))) [
    | inl e ↦ simp e refl
    | inr e ↦
        let none_gone : length (buf ++ p) - limit ≡ 0 = ground (arith, e) in
        simp e (sym (ap (λ k. drop k (buf ++ p)) none_gone ∙ drop-zero (buf ++ p)))
  ]

  -- What the limit has cut off does not matter to what is kept later.
  last_bytes-append :
      (limit : ℕ) (xs ys : List A)
      → last_bytes limit (last_bytes limit xs ++ ys) ≡ last_bytes limit (xs ++ ys)
  last_bytes-append limit xs ys =
      let cut = length xs - limit in
      let joined = sym (drop-append cut xs ys (omega arith)) in
      let left = length (drop cut (xs ++ ys)) - limit in
      let same : cut + left ≡ length (xs ++ ys) - limit =
        omega (arith, length-drop cut (xs ++ ys), length-append xs ys) in
      ap (last_bytes limit) joined
      ∙ drop-drop left cut (xs ++ ys)
      ∙ ap (λ k. drop k (xs ++ ys)) same

  write_all-last_bytes :
      (limit : ℕ) (buf : List A) (ps : List (List A))
      → write_all limit (last_bytes limit buf) ps ≡ last_bytes limit (buf ++ concat_writes ps)
  unfolding write_all
  write_all-last_bytes limit buf [] = ap (last_bytes limit) (sym (append-nil buf))
  write_all-last_bytes limit buf (p ∷ ps) =
      ap (λ b. write_all limit b ps)
        (write-last_bytes limit (last_bytes limit buf) p ∙ last_bytes-append limit buf p)
      ∙ write_all-last_bytes limit (buf ++ p) ps
      ∙ ap (last_bytes limit) (append_assoc buf p (concat_writes ps))

  -- After any writes to an empty buffer, it holds the last bytes of all that was written, no more of
  -- them than its limit.
  pub write_all_lem :
      (limit : ℕ) (ps : List (List A))
      → (write_all limit [] ps ≡ last_bytes limit (concat_writes ps))
        × (length (write_all limit [] ps) ≤ limit)
  write_all_lem limit ps =
      let same = write_all-last_bytes limit [] ps in
      let all = concat_writes ps in
      (same, omega (arith, ap length same, length-drop (length all - limit) all))
