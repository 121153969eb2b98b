-- ===== src/Secondary/Logs.antt =====
-- crates/node/src/secondary/logs.rs: the ring buffer of log lines. A line is of any type; the
-- broadcast to followers is left out.
use mill.Prelude.{
  inr, inl, Bool-cases, ◌≤◌, ap, arith, ◌∙◌, sym, refl, ◌≡◌, Bool, true, false, ◌∷◌, [], List, ℕ,
  zero, suc, ◌-◌, leb, if◌then◌else◌, string_key, nat_key, ◌++◌, length, take, drop, length-append,
}

-- `MAX_LINES`
abbrev pub max_lines : ℕ
max_lines = 10000

module _ {L : Type 0} where
  unfoldable pub push : List L → L → List L
  push buf line = (if leb max_lines (length buf) then drop 1 buf else buf) ++ (line ∷ [])

  abbrev pub reverse : List L → List L
  reverse [] = []
  reverse (x ∷ xs) = reverse xs ++ (x ∷ [])

  -- `iter().rev().take(n).rev()`
  unfoldable pub tail : List L → ℕ → List L
  tail buf n = reverse (take n (reverse buf))

  -- The lines that a forwarder pushes, in order.
  unfoldable pub push_all : List L → List L → List L
  push_all buf [] = buf
  push_all buf (line ∷ lines) = push_all (push buf line) lines

  append_assoc : (xs ys zs : List L) → (xs ++ ys) ++ zs ≡ xs ++ (ys ++ zs)
  append_assoc [] ys zs = refl
  append_assoc (x ∷ xs) ys zs = ap (λ l. x ∷ l) (append_assoc xs ys zs)

  append_nil : (xs : List L) → xs ++ [] ≡ xs
  append_nil [] = refl
  append_nil (x ∷ xs) = ap (λ l. x ∷ l) (append_nil xs)

  drop_zero : (n : ℕ) (xs : List L) → n ≡ 0 → drop n xs ≡ xs
  drop_zero n xs h = ap (λ k. drop k xs) h

  length-push :
      (buf : List L) (line : L) → length buf ≤ max_lines → length (push buf line) ≤ max_lines
  unfolding push
  length-push [] line h = ground arith
  length-push (b ∷ bs) line h =
      ground (arith, length-append (b ∷ bs) (line ∷ []), length-append bs (line ∷ []))

  -- The newest `max_lines` of the lines.
  abbrev pub newest : List L → List L
  newest lines = drop (length lines - max_lines) lines

  drop_one : (b : L) (ls : List L) → max_lines ≤ length ls → newest ls ≡ newest (b ∷ ls)
  drop_one b ls h = ap (λ n. drop n (b ∷ ls)) (shift (length ls) h)
    where
      shift : (n : ℕ) → max_lines ≤ n → suc (n - max_lines) ≡ suc n - max_lines
      shift n h = omega (arith, h)

  newest-push :
      (buf : List L) (line : L) (lines : List L)
      → length buf ≤ max_lines
      → newest (push buf line ++ lines) ≡ newest (buf ++ line ∷ lines)
  unfolding push
  newest-push [] line lines h = ground arith
  newest-push (b ∷ bs) line lines h = go (leb max_lines (length (b ∷ bs))) refl
    where
      full : leb max_lines (suc (length bs)) ≡ true → max_lines ≤ length (bs ++ line ∷ lines)
      full e = ground (arith, e, length-append bs (line ∷ lines))

      go :
          (t : Bool)
          → leb max_lines (length (b ∷ bs)) ≡ t
          → newest (((if t then bs else b ∷ bs) ++ (line ∷ [])) ++ lines)
            ≡ newest (b ∷ bs ++ line ∷ lines)
      go true e =
          ap newest (append_assoc bs (line ∷ []) lines) ∙ drop_one b (bs ++ line ∷ lines) (full e)
      go false e = ap newest (append_assoc (b ∷ bs) (line ∷ []) lines)

  push_all_from :
      (buf lines : List L) → length buf ≤ max_lines → push_all buf lines ≡ newest (buf ++ lines)
  unfolding push_all
  push_all_from buf [] h = sym (
      drop_zero (length (buf ++ []) - max_lines) (buf ++ [])
        (omega (arith, h, length-append buf []))
      ∙ append_nil buf)
  push_all_from buf (line ∷ lines) h =
      push_all_from (push buf line) lines (length-push buf line h) ∙ newest-push buf line lines h

  -- The buffer holds the newest 10,000 of the lines that were pushed, in their order.
  pub push_all_exact : (lines : List L) → push_all [] lines ≡ newest lines
  push_all_exact lines = push_all_from [] lines (omega arith)

  length-reverse : (xs : List L) → length (reverse xs) ≡ length xs
  length-reverse [] = refl
  length-reverse (x ∷ xs) = omega (arith, length-reverse xs, length-append (reverse xs) (x ∷ []))

  take_front : (n : ℕ) (xs ys : List L) → n ≤ length xs → take n (xs ++ ys) ≡ take n xs
  take_front zero xs ys h = refl
  take_front (suc n) [] ys h = absurd (omega (arith, h))
  take_front (suc n) (x ∷ xs) ys h = ap (λ l. x ∷ l) (take_front n xs ys (omega (arith, h)))

  take_all : (n : ℕ) (xs : List L) → length xs ≤ n → take n xs ≡ xs
  take_all zero [] h = refl
  take_all zero (x ∷ xs) h = absurd (omega (arith, h))
  take_all (suc n) [] h = refl
  take_all (suc n) (x ∷ xs) h = ap (λ l. x ∷ l) (take_all n xs (omega (arith, h)))

  reverse-append : (xs : List L) (y : L) → reverse (xs ++ (y ∷ [])) ≡ y ∷ reverse xs
  reverse-append [] y = refl
  reverse-append (x ∷ xs) y = ap (λ l. l ++ (x ∷ [])) (reverse-append xs y)

  reverse-reverse : (xs : List L) → reverse (reverse xs) ≡ xs
  reverse-reverse [] = refl
  reverse-reverse (x ∷ xs) = reverse-append (reverse xs) x ∙ ap (λ l. x ∷ l) (reverse-reverse xs)

  -- `tail` gives the last lines of the buffer, all of them if there are fewer, in their order.
  pub tail_exact : (buf : List L) (n : ℕ) → tail buf n ≡ drop (length buf - n) buf
  unfolding tail
  tail_exact [] n =
      ap reverse (take_all n [] (omega arith)) ∙ sym (drop_zero (0 - n) [] (omega arith))
  tail_exact (x ∷ xs) n = elim (Bool-cases (leb n (length xs))) [
    | inl few ↦
        ap reverse (take_front n (reverse xs) (x ∷ []) (ground (arith, few, length-reverse xs)))
        ∙ tail_exact xs n
        ∙ ap (λ k. drop k (x ∷ xs)) (later few)
    | inr all ↦
        ap reverse (take_all n (reverse (x ∷ xs)) (ground (arith, all, length-reverse (x ∷ xs))))
        ∙ reverse-reverse (x ∷ xs)
        ∙ sym (drop_zero (suc (length xs) - n) (x ∷ xs) (ground (arith, all)))
  ]
    where
      later : leb n (length xs) ≡ true → suc (length xs - n) ≡ suc (length xs) - n
      later few = ground (arith, few)
