-- ===== src/PathNames/Reversal.antt =====
-- The loop of `basename_ts` that swaps reverses the buffer.
use tlpi_exercises.Prelude.{
  ℕ, zero, suc, ◌+◌, ◌-◌, ◌≤◌, ◌≡◌, refl, sym, ap, ◌∙◌, [], ◌∷◌, ◌++◌, Bytes, length, set, ltb,
  ◌==◌, append_assoc, append-nil, length-append, arith, true, false,
}
use mathlib.Core.List.{reverse, reverse-append}
use tlpi_exercises.PathNames.{byte_at, swap_loop, reverse_buf}

pub byte_at-append : (a b : Bytes) (x i : ℕ) → i ≡ length a → byte_at (a ++ (x ∷ b)) i ≡ x
byte_at-append [] b x i e = rw e refl
byte_at-append (y ∷ a) b x zero e = absurd (omega arith)
byte_at-append (y ∷ a) b x (suc i) e = byte_at-append a b x i (omega arith)

set-append : (a b : Bytes) (x v i : ℕ) → i ≡ length a → set (a ++ (x ∷ b)) i v ≡ a ++ (v ∷ b)
set-append [] b x v i e = rw e refl
set-append (y ∷ a) b x v zero e = absurd (omega arith)
set-append (y ∷ a) b x v (suc i) e = ap (λ t. y ∷ t) (set-append a b x v i (omega arith))

-- A list of at least two elements has a first, a last and those between.
ends :
    (x y : ℕ) (xs : Bytes)
    → (mid : Bytes) × (z : ℕ) × (x ∷ y ∷ xs ≡ x ∷ (mid ++ z ∷ [])) × (length mid ≡ length xs)
ends x y [] = ([], y, refl, refl)
ends x y (w ∷ xs) = let (mid, z, e, l) = ends y w xs in (y ∷ mid, z, ap (λ t. x ∷ t) e, omega arith)

reverse-ends : (x z : ℕ) (mid : Bytes) → reverse (x ∷ (mid ++ z ∷ [])) ≡ z ∷ (reverse mid ++ x ∷ [])
reverse-ends x z mid =
    reverse-append (x ∷ []) (mid ++ z ∷ []) ∙ ap (λ t. t ++ x ∷ []) (reverse-append mid (z ∷ []))

regroup : (a mid b : Bytes) (x z : ℕ) → (a ++ x ∷ mid) ++ (z ∷ b) ≡ a ++ (x ∷ (mid ++ (z ∷ b)))
regroup a mid b x z = append_assoc a (x ∷ mid) (z ∷ b)

-- One round of the loop.
swap_loop-step :
    (f : ℕ) (a mid b : Bytes) (x z start end start' end' : ℕ)
    → start ≡ length a
    → end ≡ length a + length mid + 1
    → start' ≡ start + 1
    → end' ≡ end - 1
    → swap_loop (suc f) start end (a ++ (x ∷ (mid ++ (z ∷ b))))
      ≡ swap_loop f start' end' (a ++ (z ∷ (mid ++ (x ∷ b))))
unfolding swap_loop
swap_loop-step f a mid b x z start end start' end' s e s' e' =
    let more : ltb start end ≡ true = ground arith in
    let at_end : end ≡ length (a ++ x ∷ mid) = omega (arith, length-append a (x ∷ mid)) in
    let at_end' : end ≡ length (a ++ z ∷ mid) = omega (arith, length-append a (z ∷ mid)) in
    let last : byte_at (a ++ (x ∷ (mid ++ (z ∷ b)))) end ≡ z =
      ap (λ t. byte_at t end) (sym (regroup a mid b x z))
      ∙ byte_at-append (a ++ x ∷ mid) b z end at_end in
    let first : byte_at (a ++ (x ∷ (mid ++ (z ∷ b)))) start ≡ x =
      byte_at-append a (mid ++ (z ∷ b)) x start s in
    let stored : set (a ++ (x ∷ (mid ++ (z ∷ b)))) start z ≡ a ++ (z ∷ (mid ++ (z ∷ b))) =
      set-append a (mid ++ (z ∷ b)) x z start s in
    let swapped : set (a ++ (z ∷ (mid ++ (z ∷ b)))) end x ≡ a ++ (z ∷ (mid ++ (x ∷ b))) =
      ap (λ t. set t end x) (sym (regroup a mid b z z))
      ∙ set-append (a ++ z ∷ mid) b z x end at_end'
      ∙ regroup a mid b z x in
    rw (more, last, first, stored, swapped, s', e') refl

swap_loop-reverse :
    (f : ℕ) (a mid b : Bytes) (start end : ℕ)
    → length mid ≤ f
    → start ≡ length a
    → end + 1 ≡ length a + length mid
    → swap_loop f start end (a ++ (mid ++ b)) ≡ a ++ (reverse mid ++ b)
unfolding swap_loop
swap_loop-reverse zero a [] b start end h s e = refl
swap_loop-reverse zero a (x ∷ mid) b start end h s e = absurd (omega arith)
swap_loop-reverse (suc f) a [] b start end h s e =
    let over : ltb start end ≡ false = ground arith in rw over refl
swap_loop-reverse (suc f) a (x ∷ []) b start end h s e =
    let over : ltb start end ≡ false = ground arith in rw over refl
swap_loop-reverse (suc f) a (x ∷ y ∷ xs) b start end h s e =
    let (mid, z, split, l) = ends x y xs in
    let m : Bytes = reverse mid in
    ap (λ t. swap_loop (suc f) start end (a ++ (t ++ b))) split
    ∙ ap (λ t. swap_loop (suc f) start end (a ++ (x ∷ t))) (append_assoc mid (z ∷ []) b)
    ∙ swap_loop-step f a mid b x z start end (start + 1) (end - 1) s (omega arith) refl refl
    ∙ ap (λ t. swap_loop f (start + 1) (end - 1) t) (sym (append_assoc a (z ∷ []) (mid ++ (x ∷ b))))
    ∙ swap_loop-reverse f (a ++ z ∷ []) mid (x ∷ b) (start + 1) (end - 1) (omega arith)
        (omega (arith, length-append a (z ∷ []))) (omega (arith, length-append a (z ∷ [])))
    ∙ append_assoc a (z ∷ []) (m ++ (x ∷ b))
    ∙ ap (λ t. a ++ (z ∷ t)) (sym (append_assoc m (x ∷ []) b))
    ∙ ap (λ t. a ++ (t ++ b)) (sym (reverse-ends x z mid))
    ∙ ap (λ t. a ++ (reverse t ++ b)) (sym split)

pub reverse_buf-reverse : (buf : Bytes) → reverse_buf buf ≡ reverse buf
unfolding reverse_buf
reverse_buf-reverse [] = refl
reverse_buf-reverse (x ∷ xs) =
    let some_byte : (length (x ∷ xs) == 0) ≡ false = ground arith in
    rw some_byte (
      ap (λ t. swap_loop (length (x ∷ xs)) 0 (length (x ∷ xs) - 1) t) (sym (append-nil (x ∷ xs)))
      ∙ swap_loop-reverse (length (x ∷ xs)) [] (x ∷ xs) [] 0 (length (x ∷ xs) - 1) (omega arith)
          refl (omega arith)
      ∙ append-nil (reverse (x ∷ xs)))
