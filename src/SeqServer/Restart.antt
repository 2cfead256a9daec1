-- ===== src/SeqServer/Restart.antt =====
-- A server that is started again goes on with its number.
use tlpi_exercises.Prelude.{
  ℕ, zero, suc, ◌+◌, ◌≤◌, ◌≡◌, refl, sym, ap, ◌∙◌, ℤ, pos, negsuc, ◌+ℤ◌, ◌≤ℤ◌, Bool, true, false,
  Option, none, some, List, [], ◌∷◌, Bytes, not, if◌then◌else◌, take, length, ltb, arith,
  Bool-cases, inl, inr,
}
use mathlib.Core.Option
use mathlib.Core.Option.{get_or}
use tlpi_exercises.SeqServer.{
  max_digits, max_size, Server, Input, Round, next, stopped, ended, write_loop, advance,
  record_served, back_up, serve, serve_all, start, get_num, is_empty, to_int,
}
use tlpi_exercises.SeqServer.Numbers.{AsksSome, AllAskSome}

-- The number that a server would start with, and the one that it has.
abbrev pub number_of : Option Server → Option ℤ
number_of o = Option.map (λ s. s.seq_num) o

-- What the program relies on: a number of at most nine digits is shown as a text of one to nine
-- bytes, which `strtol` reads to its end.
pub record IsShow (show : ℤ → Bytes) (strtol : Bytes → ℤ × Bytes × Bool) : Type 0 where
  pub first : ℤ → ℕ
  pub others : ℤ → Bytes
  pub shown : (n : ℕ) → n ≤ 999_999_999 → show (pos n) ≡ first (pos n) ∷ others (pos n)
  pub short : (n : ℕ) → n ≤ 999_999_999 → length (show (pos n)) ≤ 9
  pub read_again : (n : ℕ) → n ≤ 999_999_999 → strtol (show (pos n)) ≡ (pos n, [], false)

get_num-read :
    (strtol : Bytes → ℤ × Bytes × Bool) (bs : Bytes) (n : ℕ)
    → n ≤ 999_999_999
    → strtol bs ≡ (pos n, [], false)
    → get_num strtol bs ≡ some (pos n)
unfolding get_num
get_num-read strtol bs n small e =
    ap (λ r. if r.2 then none else if not (is_empty r.1) then none else some (to_int r.0)) e
    ∙ ap some (to_int-small n small)
  where
    to_int-small : (n : ℕ) → n ≤ 999_999_999 → to_int (pos n) ≡ pos n
    to_int-small n small = ground arith

-- `write` takes the whole text or fails.
abbrev pub WritesWhole : (Bytes → Option ℕ) → Type 0
WritesWhole backs_up = (text : Bytes) (n : ℕ) → backs_up text ≡ some n → n ≡ length text

abbrev pub AllWriteWhole : List Input → Type 0
AllWriteWhole [] = Unit
AllWriteWhole (i ∷ inputs) = WritesWhole i.backs_up × AllWriteWhole inputs

take_all : (k : ℕ) (bs : Bytes) → length bs ≤ k → take k bs ≡ bs
take_all zero [] h = refl
take_all zero (b ∷ bs) h = absurd (omega arith)
take_all (suc k) [] h = refl
take_all (suc k) (b ∷ bs) h = ap (λ t. b ∷ t) (take_all k bs (omega arith))

module _ (show : ℤ → Bytes) (strtol : Bytes → ℤ × Bytes × Bool) (h : IsShow show strtol) where
  start_cons :
      (cs : Bytes) (c n : ℕ)
      → length (c ∷ cs) ≤ max_digits
      → get_num strtol (c ∷ cs) ≡ some (pos n)
      → number_of (start strtol (c ∷ cs)) ≡ some (pos n)
  unfolding start
  start_cons cs c n fits parsed =
      ap
        (λ bs. number_of (
          Option.map (λ m. record { seq_num = m; backup = c ∷ cs; served = [] })
            (get_num strtol bs)))
        (take_all max_digits (c ∷ cs) fits)
      ∙ ap
          (λ o.
            number_of (Option.map (λ m. record { seq_num = m; backup = c ∷ cs; served = [] }) o))
          parsed

  start-show :
      (n : ℕ)
      → n ≤ max_size
      → number_of (start strtol (take max_digits (show (pos n)))) ≡ some (pos n)
  start-show n small =
      let e = h.shown n small in
      ap (λ bs. number_of (start strtol bs))
        (take_all max_digits (show (pos n)) (h.short n small) ∙ e)
      ∙ start_cons (h.others (pos n)) (h.first (pos n)) n
          (omega (arith, h.short n small, ap length e))
          (ap (get_num strtol) (sym e)
            ∙ get_num-read strtol (show (pos n)) n small (h.read_again n small))

  -- The backup file holds the number.
  pub record InStep (s : Server) : Type 0 where
    pub count : ℕ
    pub is_count : s.seq_num ≡ pos count
    pub small : count ≤ max_size
    pub restarts : number_of (start strtol s.backup) ≡ some s.seq_num

  abbrev pub NextInStep : Round → Type 0
  NextInStep (next s) = InStep s
  NextInStep (stopped s) = InStep s
  NextInStep (ended s) = Unit

  advance_pos :
      (n : ℕ) (k : ℤ)
      → pos 0 ≤ℤ k
      → n ≤ max_size
      → (m : ℕ) × (advance (pos n) k ≡ pos m) × (m ≤ max_size)
  unfolding ◌+ℤ◌
  advance_pos n (negsuc k) h small = absurd (omega arith)
  advance_pos n (pos k) h small = elim (Bool-cases (ltb max_size (k + n))) [
    | inl large ↦ (n, ground arith, small)
    | inr fine ↦ (n + k, ground arith, ground arith)
  ]

  back_up-InStep :
      (i : Input) (s : Server) (n : ℕ)
      → s.seq_num ≡ pos n
      → n ≤ max_size
      → WritesWhole i.backs_up
      → NextInStep (back_up show i s)
  unfolding back_up
  back_up-InStep i s n e small whole = by_calls i.truncates i.seeks i.backs_up whole
    where
      text : Bytes
      text = take max_digits (show s.seq_num)

      by_write :
          (o : Option ℕ)
          → ((m : ℕ) → o ≡ some m → m ≡ length text)
          → NextInStep (elim o [
            | none ↦ ended (record s { backup = [] })
            | some m ↦ next (record s { backup = take m text })
          ])
      by_write none all = tt
      by_write (some m) all = record {
        count = n;
        is_count = e;
        small = small;
        restarts =
            ap (λ bs. number_of (start strtol bs)) (take_all m text (omega (arith, all m refl)))
            ∙ ap (λ m. number_of (start strtol (take max_digits (show m)))) e
            ∙ start-show n small
            ∙ ap some (sym e);
      }

      by_calls :
          (t k : Bool) (b : Bytes → Option ℕ)
          → WritesWhole b
          → NextInStep (back_up show (record i { truncates = t; seeks = k; backs_up = b }) s)
      by_calls false k b all = tt
      by_calls true false b all = tt
      by_calls true true b all = by_write (b text) (all text)

  serve-InStep :
      (i : Input) (s : Server)
      → InStep s
      → AsksSome i.request
      → WritesWhole i.backs_up
      → NextInStep (serve show i s)
  unfolding serve
  serve-InStep i s w asks whole =
      by_request i.stop_requested i.request i.dummy_opens i.client_opens asks
    where
      by_request :
          (stop : Bool) (o : Option (ℕ × ℤ)) (d c : Bool)
          → AsksSome o
          → NextInStep (
              serve show
                (record i { stop_requested = stop; request = o; dummy_opens = d; client_opens = c })
                s)
      by_request true o d c asks = w
      by_request false none d c asks = w
      by_request false (some (pid, k)) false c asks = w
      by_request false (some (pid, k)) true false asks = w
      by_request false (some (pid, k)) true true asks =
          let (m, e, small) = advance_pos w.count k asks w.small in
          back_up-InStep
            (record i {
              stop_requested = false;
              request = some (pid, k);
              dummy_opens = true;
              client_opens = true;
            })
            (record s {
              seq_num = advance s.seq_num k;
              served =
                  record_served (write_loop 3 1 i.writes)
                    (record { pid = pid; seq_num = s.seq_num; seq_len = k }) s.served;
            })
            m (ap (λ n. advance n k) w.is_count ∙ e) small whole

  -- If a number of at most nine digits is shown as a text of one to nine bytes that `strtol` reads to
  -- its end, no request asks for a negative number of numbers, each `write` to the backup file takes the
  -- whole text or fails, and the backup file holds the number at the beginning, then after any rounds,
  -- unless a call on the backup file failed, the backup file holds the number: a server that is started
  -- on the file, after a signal or at any moment between two rounds, begins with that number.
  pub serve_all-InStep :
      (inputs : List Input) (s : Server)
      → InStep s
      → AllAskSome inputs
      → AllWriteWhole inputs
      → NextInStep (serve_all show inputs s)
  unfolding serve_all
  serve_all-InStep [] s w asks whole = w
  serve_all-InStep (i ∷ inputs) s w asks whole =
      by_round (serve show i s) (serve-InStep i s w asks.0 whole.0)
        (λ s' w'. serve_all-InStep inputs s' w' asks.1 whole.1)
    where
      by_round :
          (r : Round)
          → NextInStep r
          → ((s' : Server) → InStep s' → NextInStep (serve_all show inputs s'))
          → NextInStep (elim r [
            | ended s' ↦ ended s'
            | stopped s' ↦ stopped s'
            | next s' ↦ serve_all show inputs s'
          ])
      by_round (ended s') w' rest = tt
      by_round (stopped s') w' rest = w'
      by_round (next s') w' rest = rest s' w'
