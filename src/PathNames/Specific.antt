-- ===== src/PathNames/Specific.antt =====
-- `dirname_ts` and `basename_ts` of 31_Thread_Safety_Storage/dirbase_name_tsd.c, in one thread.
--
-- Both functions call `pthread_once` with the same control, so only the first call of either makes a
-- key. `create` is `pthread_key_create`, from the keys that there are, with `none` for an error; a
-- key that was not made is 0, as static variables are. `pthread_getspecific` of a number that is no
-- key is undefined behaviour, `fault`. `memory` says whether `malloc(256)` succeeds, and
-- `pthread_setspecific` does. `errExit` is `exited`.
use tlpi_exercises.Prelude.{
  ℕ, zero, suc, ◌-◌, ◌≡◌, refl, sym, Bool, true, false, Option, none, some, List, [], ◌∷◌, Bytes,
  length, ltb, ◌==◌, if◌then◌else◌, Outcome, done, fault, ◌>>=◌, arith,
}
use mathlib.Core.Path.{subst}
use tlpi_exercises.PathNames.{base_loop, copy_loop, back_loop, reverse_buf}

-- What stands behind a key: nothing, or a buffer with the string in it.
pub record Thread : Type 0 where
  pub once : Bool
  pub dirname_key : ℕ
  pub basename_key : ℕ
  pub keys : List ℕ
  pub buffers : ℕ → Option Bytes

abbrev pub start : Thread
start = record { once = false; dirname_key = 0; basename_key = 0; keys = []; buffers = λ k. none }

pub data Result : Type 0 where
  exited : Result
  -- the literal ""
  empty : Result
  null : Result
  -- the buffer of a key
  buffer : ℕ → Result

abbrev pub contains : List ℕ → ℕ → Bool
contains [] k = false
contains (j ∷ js) k = if j == k then true else contains js k

abbrev pub assign : (ℕ → Option Bytes) → ℕ → Bytes → ℕ → Option Bytes
assign f k bytes j = if j == k then some bytes else f j

module _ (create : List ℕ → Option ℕ) where
  unfoldable pub create_key_dirname : Thread → Option Thread
  create_key_dirname t = elim (create t.keys) [
    | none ↦ none
    | some k ↦ some (record t { once = true; dirname_key = k; keys = k ∷ t.keys })
  ]

  unfoldable pub create_key_basename : Thread → Option Thread
  create_key_basename t = elim (create t.keys) [
    | none ↦ none
    | some k ↦ some (record t { once = true; basename_key = k; keys = k ∷ t.keys })
  ]

  -- The buffer of a key, made where there is none; `none` where there is no memory.
  unfoldable pub get_buffer : Bool → ℕ → Thread → Outcome (Option Thread)
  get_buffer memory k t =
      if contains t.keys k
      then done (elim (t.buffers k) [
        | some b ↦ some t
        | none ↦ if memory then some (record t { buffers = assign t.buffers k [] }) else none
      ])
      else fault

  -- What follows: the string is written to the buffer.
  unfoldable pub write_name :
      (Bytes → Bytes) → ℕ → Bytes → Option Thread → Outcome (Result × Option Thread)
  write_name name k path none = done (exited, none)
  write_name name k path (some t) =
      if length path == 0
      then done (empty, some t)
      else if ltb 255 (length path)
      then done (null, some t)
      else done (buffer k, some (record t { buffers = assign t.buffers k (name path) }))

  unfoldable pub dirname_ts : Bool → Thread → Bytes → Outcome (Result × Option Thread)
  unfolding create_key_dirname get_buffer write_name
  dirname_ts memory t path = elim (if t.once then some t else create_key_dirname t) [
    | none ↦ done (exited, none)
    | some t' ↦
        get_buffer memory t'.dirname_key t'
        >>= write_name (λ p. copy_loop p (length p - base_loop p (length p) 0) 0 []) t'.dirname_key
            path
  ]

  unfoldable pub basename_ts : Bool → Thread → Bytes → Outcome (Result × Option Thread)
  unfolding create_key_basename get_buffer write_name
  basename_ts memory t path = elim (if t.once then some t else create_key_basename t) [
    | none ↦ done (exited, none)
    | some t' ↦
        get_buffer memory t'.basename_key t'
        >>= write_name (λ p. reverse_buf (back_loop p (length p) [])) t'.basename_key path
  ]

  -- The state that a first call leaves.
  abbrev first : ℕ → Bytes → Thread
  first k name = record {
    once = true;
    dirname_key = k;
    basename_key = 0;
    keys = k ∷ [];
    buffers = assign (assign (λ j. none) k []) k name;
  }

  dirname_ts-first :
      (m : Bool) (path : Bytes) (k : ℕ) (t : Thread)
      → dirname_ts m start path ≡ done (buffer k, some t)
      → t ≡ first k (copy_loop path (length path - base_loop path (length path) 0) 0 [])
  unfolding dirname_ts
  dirname_ts-first m path k t e = ground arith

  -- A call of `basename_ts` in that state.
  abbrev pub OneBuffer : Bool → Thread → Bytes → ℕ → Type 0
  OneBuffer memory t path' (suc k) = basename_ts memory t path' ≡ fault
  OneBuffer memory t path' zero =
      (t' : Thread) × (basename_ts memory t path' ≡ done (buffer 0, some t'))
      × (t'.buffers 0 ≡ some (reverse_buf (back_loop path' (length path') [])))

  basename_ts-first :
      (memory : Bool) (path' name : Bytes) (k : ℕ)
      → (length path' == 0) ≡ false
      → ltb 255 (length path') ≡ false
      → OneBuffer memory (first k name) path' k
  unfolding basename_ts
  basename_ts-first memory path' name (suc k) some_byte small =
      let other : (suc k == 0) ≡ false = ground arith in rw other refl
  basename_ts-first memory path' name zero some_byte small = (
    record (first 0 name) {
      buffers = assign (first 0 name).buffers 0 (reverse_buf (back_loop path' (length path') []));
    },
    rw (some_byte, small) refl,
    refl,
  )

  -- After a first call of `dirname_ts` that returned a name in the buffer of the key `k`, `basename_ts` of
  -- a path of 1 to 255 bytes has no key of its own: if `k` is not 0 it is undefined behaviour, and if `k`
  -- is 0 it returns the buffer that `dirname_ts` returned, with its own name written over the other.
  pub basename_ts-after_dirname_ts :
      (m memory : Bool) (path path' : Bytes) (k : ℕ) (t : Thread)
      → dirname_ts m start path ≡ done (buffer k, some t)
      → (length path' == 0) ≡ false
      → ltb 255 (length path') ≡ false
      → OneBuffer memory t path' k
  basename_ts-after_dirname_ts m memory path path' k t e some_byte small =
      subst (λ u. OneBuffer memory u path' k) (sym (dirname_ts-first m path k t e))
        (basename_ts-first memory path' _ k some_byte small)
