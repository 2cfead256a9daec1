-- ===== src/VectorIo/Tests.antt =====
-- A file that is its bytes, read and written without interruption, and the theorems at it.
use tlpi_exercises.Prelude.{
  ℕ, zero, suc, ◌≤◌, ◌≡◌, refl, sym, ap, ◌∙◌, Option, some, List, [], ◌∷◌, ◌++◌, Bytes, codes,
  length, take, drop, done, arith, replicate, append-nil, take-append, take-append-drop,
}
use mathlib.Core.Option.{get_or}
use tlpi_exercises.VectorIo.{
  DataBuffer, Scattered, Gathered, total_bytes, readv_loop, readv_clone, writev_loop, writev_clone,
}
use tlpi_exercises.VectorIo.Transfer.{gather}
use tlpi_exercises.VectorIo.Scattering.{IsRead, Transfers, readv_clone-moves}
use tlpi_exercises.VectorIo.Gathering.{IsWrite, Wrote, writev_clone-Wrote}

abbrev read : Bytes → ℕ → Bytes × Option Bytes
read f n = (drop n f, some (take n f))

abbrev write : Bytes → Bytes → Bytes × Option ℕ
write f bytes = (f ++ bytes, some (length bytes))

abbrev same : Bytes → Bytes
same f = f

length-take_le : (n : ℕ) (f : Bytes) → length (take n f) ≤ n
length-take_le zero f = omega arith
length-take_le (suc n) [] = omega arith
length-take_le (suc n) (x ∷ f) = omega (arith, length-take_le n f)

read-IsRead : IsRead same read
read-IsRead = record {
  given = λ f n bytes e.
      let taken : take n f ≡ bytes = ap (λ o. get_or o []) e in
      rw (← taken) (sym (take-append-drop n f), length-take_le n f);
}

write-IsWrite : IsWrite same write
write-IsWrite = record {
  taken = λ f bytes n e.
      let count : length bytes ≡ n = ap (λ o. get_or o 0) e in
      rw (← count) (
        omega arith,
        ap (λ t. f ++ t)
            (sym (ap (λ t. take (length bytes) t) (sym (append-nil bytes)) ∙ take-append bytes [])),
      );
  refused = λ f bytes e. cc;
}

abbrev hello : List DataBuffer
hello = record { len = 3; buf = codes "Hel" } ∷ record { len = 2; buf = codes "lo" } ∷ []

abbrev room : List DataBuffer
room = record { len = 2; buf = replicate 2 0 } ∷ record { len = 4; buf = replicate 4 0 } ∷ []

hello_written : writev_clone write hello [] ≡ done (record { value = some 5; file = codes "Hello" })
unfolding writev_clone writev_loop total_bytes
hello_written = refl

hello_read :
    readv_clone read room (codes "Hello")
    ≡ done (record {
      value = some 5;
      buffers =
          record { len = 2; buf = codes "He" }
          ∷ record { len = 4; buf = codes "llo" ++ 0 ∷ [] }
          ∷ [];
      file = [];
    })
unfolding readv_clone readv_loop total_bytes
hello_read = refl

readv_clone-moves_example :
    (r : Scattered Bytes) × (readv_clone read room (codes "Hello") ≡ done r)
    × (length (gather r.buffers) ≡ length (gather room))
    × Transfers same read read-IsRead (codes "Hello") 6 r
readv_clone-moves_example =
    readv_clone-moves same read read-IsRead room (codes "Hello") (refl, (refl, tt)) (omega arith)
      (omega arith)

writev_clone-Wrote_example :
    (r : Gathered Bytes) × (writev_clone write hello (codes "!") ≡ done r)
    × Wrote same write (codes "!") 0 hello r
writev_clone-Wrote_example =
    writev_clone-Wrote same write write-IsWrite hello (codes "!") (refl, (refl, tt)) (omega arith)
      (omega arith)
