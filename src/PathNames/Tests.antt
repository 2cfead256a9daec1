-- ===== src/PathNames/Tests.antt =====
-- Paths, and the theorems at them.
use tlpi_exercises.Prelude.{
  ℕ, ◌≡◌, refl, ◌⊎◌, true, Option, none, some, List, [], ◌∷◌, ◌++◌, Bytes, codes, arith, length,
  done,
}
use tlpi_exercises.PathNames.{slash, dirname_ts, basename_ts, copy_loop, base_loop}
use tlpi_exercises.PathNames.Splitting.{NoSlash, dirname_ts-basename_ts}
use tlpi_exercises.PathNames.Specific
use tlpi_exercises.PathNames.Specific.{Thread, start, buffer, assign, basename_ts-after_dirname_ts}

abbrev path : Bytes
path = codes "yeet//hello"

split_path : (dirname_ts path ≡ some (codes "yeet/")) × (basename_ts path ≡ some (codes "hello"))
unfolding dirname_ts basename_ts
split_path = (refl, refl)

dirname_ts-basename_ts_example :
    (d b : Bytes) × (dirname_ts path ≡ some d)
    × (basename_ts path ≡ some b)
    × NoSlash b
    × ((path ≡ d ++ (slash ∷ b)) ⊎ (d ≡ []) × (path ≡ b))
dirname_ts-basename_ts_example = dirname_ts-basename_ts path (omega arith) (omega arith)

-- The first key is 0.
abbrev create : List ℕ → Option ℕ
create keys = some (length keys)

abbrev after_dirname : Thread
after_dirname = record {
  once = true;
  dirname_key = 0;
  basename_key = 0;
  keys = 0 ∷ [];
  buffers = assign (assign (λ k. none) 0 []) 0 (codes "yeet/");
}

first_call : Specific.dirname_ts create true start path ≡ done (buffer 0, some after_dirname)
unfolding Specific.dirname_ts copy_loop base_loop
first_call = refl

basename_ts-after_dirname_ts_example : Specific.OneBuffer create true after_dirname path 0
basename_ts-after_dirname_ts_example =
    basename_ts-after_dirname_ts create true true path path 0 after_dirname first_call refl refl
