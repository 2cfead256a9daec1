-- ===== src/VectorIo/Transfer.antt =====
-- The bytes of several buffers, and their sum.
use tlpi_exercises.Prelude.{
  ℕ, zero, suc, ◌+◌, ◌≤◌, ◌≡◌, refl, sym, ap, ◌∙◌, List, [], ◌∷◌, ◌++◌, Bytes, length, take, drop,
  done, arith, append_assoc, length-append, take-append,
}
use tlpi_exercises.VectorIo.{DataBuffer, ssize_max, total_bytes, store}

-- The buffers one behind the other.
abbrev pub gather : List DataBuffer → Bytes
gather [] = []
gather (b ∷ bs) = b.buf ++ gather bs

abbrev pub Fit : List DataBuffer → Type 0
Fit [] = Unit
Fit (b ∷ bs) = (length b.buf ≡ b.len) × Fit bs

pub total_bytes-length :
    (total : ℕ) (bs : List DataBuffer)
    → Fit bs
    → total + length (gather bs) ≤ ssize_max
    → total_bytes total bs ≡ done (total + length (gather bs))
unfolding total_bytes
total_bytes-length total [] v h = ap done (omega arith)
total_bytes-length total (b ∷ bs) v h =
    let e = length-append b.buf (gather bs) in
    ground (arith, total_bytes-length (total + b.len) bs v.1)

pub take-append_more : (xs ys : Bytes) (k : ℕ) → take (length xs + k) (xs ++ ys) ≡ xs ++ take k ys
take-append_more [] ys k = ap (λ n. take n ys) (omega arith)
take-append_more (x ∷ xs) ys k =
    let e : length (x ∷ xs) + k ≡ suc (length xs + k) = omega arith in
    rw e (ap (λ t. x ∷ t) (take-append_more xs ys k))

pub take-append_less : (xs ys : Bytes) (k : ℕ) → k ≤ length xs → take k (xs ++ ys) ≡ take k xs
take-append_less xs ys zero h = refl
take-append_less [] ys (suc k) h = absurd (omega arith)
take-append_less (x ∷ xs) ys (suc k) h = ap (λ t. x ∷ t) (take-append_less xs ys k (omega arith))

drop_all : (xs ys : Bytes) → length ys ≡ length xs → drop (length xs) ys ≡ []
drop_all [] [] h = refl
drop_all [] (y ∷ ys) h = absurd (omega arith)
drop_all (x ∷ xs) [] h = refl
drop_all (x ∷ xs) (y ∷ ys) h = drop_all xs ys (omega arith)

-- `m` bytes have gone from the file to the start of the buffers.
pub record Moved (before after : Bytes) (total k : ℕ) (bs : List DataBuffer) : Type 0 where
  pub more : ℕ
  pub counted : k ≡ total + more
  pub within : more ≤ length (gather bs)
  pub moved : before ≡ take more (gather bs) ++ after

take-store :
    (bytes d g : Bytes) (m : ℕ)
    → take (length bytes + m) ((bytes ++ d) ++ g) ≡ bytes ++ take m (d ++ g)
take-store bytes d g m =
    ap (λ t. take (length bytes + m) t) (append_assoc bytes d g) ∙ take-append_more bytes (d ++ g) m

-- The first buffer is full, and the others are filled.
pub Moved-full :
    {before middle after : Bytes} {total k : ℕ} (bytes : Bytes) (b : DataBuffer)
    (bs : List DataBuffer)
    → length b.buf ≡ length bytes
    → before ≡ bytes ++ middle
    → Moved middle after (total + length bytes) k bs
    → Moved before after total k (store bytes b ∷ bs)
Moved-full {after = after} bytes b bs e first m =
    let d = drop_all bytes b.buf e in
    let g = gather bs in
    let joined : (bytes ++ drop (length bytes) b.buf) ++ g ≡ bytes ++ g =
      ap (λ t. (bytes ++ t) ++ g) d ∙ append_assoc bytes [] g in
    record {
      more = length bytes + m.more;
      counted = omega (arith, m.counted);
      within = rw joined (omega (arith, m.within, length-append bytes g));
      moved =
          first
          ∙ ap (λ t. bytes ++ t) m.moved
          ∙ sym (append_assoc bytes (take m.more g) after)
          ∙ ap (λ t. t ++ after)
              (sym (
                ap (λ t. take (length bytes + m.more) t) joined ∙ take-append_more bytes g m.more));
    }

-- The first buffer got the last bytes.
pub Moved-part :
    {before after : Bytes} (total : ℕ) (bytes : Bytes) (b : DataBuffer) (bs : List DataBuffer)
    → before ≡ bytes ++ after
    → Moved before after total (total + length bytes) (store bytes b ∷ bs)
Moved-part {after = after} total bytes b bs first =
    let rest = drop (length bytes) b.buf ++ gather bs in
    let joined = append_assoc bytes (drop (length bytes) b.buf) (gather bs) in
    record {
      more = length bytes;
      counted = refl;
      within = rw joined (omega (arith, length-append bytes rest));
      moved =
          first
          ∙ ap (λ t. t ++ after)
              (sym (ap (λ t. take (length bytes) t) joined ∙ take-append bytes rest));
    }
