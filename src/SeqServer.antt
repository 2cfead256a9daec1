-- ===== src/SeqServer.antt =====
-- The server of sequence numbers of 44_Pipes_And_FIFOs/fifo_sq_sv.c.
--
-- What the calls of a round of the main loop give is an `Input`, and a round that ends the program
-- is marked. Arguments are `show`, the text that `%d` makes of an `int`, and `strtol`, the value that the
-- C library's function reads, what it leaves, and whether it sets `ERANGE`. `getNum` of lib/utils.h is
-- `get_num`, `none` where it ends the program. Calls that are repeated while a signal interrupts
-- them give what the last one gives. The set-up of signals and FIFOs, and what is printed, is left out.
pub mod Numbers
pub mod Restart
pub mod Messages
pub mod Tests
use tlpi_exercises.Prelude.{
  ℕ, zero, suc, ◌+◌, ◌-◌, ◌%◌, ◌^◌, ℤ, pos, negsuc, pos_part, neg_part, ◌+ℤ◌, Bool, true, false,
  not, ◌||◌, Option, none, some, List, [], ◌∷◌, ◌++◌, Bytes, take, ltb, if◌then◌else◌,
}
use mathlib.Core.Option

abbrev pub max_digits : ℕ
max_digits = 9

abbrev pub max_size : ℕ
max_size = 999_999_999

-- A response, with the request that it answers.
pub record Served : Type 0 where
  pub pid : ℕ
  pub seq_num : ℤ
  pub seq_len : ℤ

pub record Server : Type 0 where
  pub seq_num : ℤ
  -- the backup file
  pub backup : Bytes
  -- the responses that were written to a client, in their order
  pub served : List Served

-- A call of `write` to the FIFO of a client.
pub data Written : Type 0 where
  whole : Written
  broken_pipe : Written
  failed : Written

pub record Input : Type 0 where
  pub stop_requested : Bool
  -- `none` where not a whole request is read
  pub request : Option (ℕ × ℤ)
  pub dummy_opens : Bool
  pub client_opens : Bool
  pub writes : ℕ → Written
  pub truncates : Bool
  pub seeks : Bool
  -- how many bytes of a text `write` to the backup file takes, `none` for -1
  pub backs_up : Bytes → Option ℕ

-- How a round ends: with the next round, by a signal, or by `errExit`.
pub data Round : Type 0 where
  next : Server → Round
  stopped : Server → Round
  ended : Server → Round

-- Whether the response is written, in the tries that are left.
unfoldable pub write_loop : ℕ → ℕ → (ℕ → Written) → Bool
write_loop zero retry_count writes = false
write_loop (suc tries) retry_count writes = elim (writes retry_count) [
  | whole ↦ true
  | failed ↦ false
  | broken_pipe ↦ write_loop tries (retry_count + 1) writes
]

-- Whether the sum is above `MAX_SIZE` or below `-MAX_SIZE`.
abbrev pub too_large : ℤ → Bool
too_large n = ltb max_size (pos_part n) || ltb max_size (neg_part n)

-- The number after a request.
abbrev pub advance : ℤ → ℤ → ℤ
advance seq_num seq_len = if too_large (seq_len +ℤ seq_num) then seq_num else seq_num +ℤ seq_len

abbrev pub record_served : Bool → Served → List Served → List Served
record_served true r served = served ++ r ∷ []
record_served false r served = served

module _ (show : ℤ → Bytes) where
  -- The three calls on the backup file; each may end the program.
  unfoldable pub back_up : Input → Server → Round
  back_up i s =
      if not i.truncates
      then ended s
      else if not i.seeks
      then ended (record s { backup = [] })
      else elim (i.backs_up (take max_digits (show s.seq_num))) [
        | none ↦ ended (record s { backup = [] })
        | some n ↦ next (record s { backup = take n (take max_digits (show s.seq_num)) })
      ]

  unfoldable pub serve : Input → Server → Round
  unfolding write_loop back_up
  serve i s = if i.stop_requested then stopped s else elim i.request [
    | none ↦ next s
    | some (pid, seq_len) ↦
        if not i.dummy_opens
        then next s
        else if not i.client_opens
        then next s
        else back_up i (record s {
          seq_num = advance s.seq_num seq_len;
          served =
              record_served (write_loop 3 1 i.writes)
                (record { pid = pid; seq_num = s.seq_num; seq_len = seq_len }) s.served;
        })
  ]

  unfoldable pub serve_all : List Input → Server → Round
  unfolding serve
  serve_all [] s = next s
  serve_all (i ∷ inputs) s = elim (serve i s) [
    | ended s' ↦ ended s'
    | stopped s' ↦ stopped s'
    | next s' ↦ serve_all inputs s'
  ]

-- `long` to `int`
abbrev pub to_int : ℤ → ℤ
to_int (pos n) =
    if ltb (n % 2 ^ 32) (2 ^ 31) then pos (n % 2 ^ 32) else negsuc (2 ^ 32 - 1 - n % 2 ^ 32)
to_int (negsuc n) =
    if ltb (n % 2 ^ 32) (2 ^ 31) then negsuc (n % 2 ^ 32) else pos (2 ^ 32 - 1 - n % 2 ^ 32)

abbrev pub is_empty : Bytes → Bool
is_empty [] = true
is_empty (c ∷ cs) = false

unfoldable pub get_num : (strtol : Bytes → ℤ × Bytes × Bool) → Bytes → Option ℤ
get_num strtol num_str =
    let parsed = strtol num_str in
    if parsed.2 then none else if not (is_empty parsed.1) then none else some (to_int parsed.0)

-- The number at the start, from the backup file.
unfoldable pub start : (strtol : Bytes → ℤ × Bytes × Bool) → Bytes → Option Server
unfolding get_num
start strtol [] = some (record { seq_num = pos 0; backup = []; served = [] })
start strtol (c ∷ cs) =
    Option.map (λ n. record { seq_num = n; backup = c ∷ cs; served = [] })
      (get_num strtol (take max_digits (c ∷ cs)))
