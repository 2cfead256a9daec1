-- ===== src/SeqServer/Tests.antt =====
-- A client that asks for ten numbers, and the theorems at it.
use tlpi_exercises.Prelude.{
  ℕ, ◌≡◌, refl, sym, ap, length, Bool, false, ℤ, pos, negsuc, ◌+ℤ◌, true, none, some, [], ◌∷◌,
  Bytes, arith,
}
use mathlib.Core.Option.{get_or}
use tlpi_exercises.SeqServer.{Server, Input, next, whole, serve_all, start}
use tlpi_exercises.SeqServer.Numbers.{RoundIsServer, serve_all-IsServer}
use tlpi_exercises.SeqServer.Restart.{IsShow, WritesWhole, NextInStep, serve_all-InStep}
use tlpi_exercises.SeqServer.Messages
use tlpi_exercises.SeqServer.Messages.{Request}

abbrev ten : Input
ten = record {
  stop_requested = false;
  request = some (77, pos 10);
  dummy_opens = true;
  client_opens = true;
  writes = λ n. whole;
  truncates = true;
  seeks = true;
  backs_up = λ text. some (length text);
}

abbrev fresh : Server
fresh = record { seq_num = pos 0; backup = []; served = [] }

-- A number is shown as one byte, which is the number.
abbrev show : ℤ → Bytes
show (pos n) = n ∷ []
show (negsuc n) = 0 ∷ n ∷ []

abbrev strtol : Bytes → ℤ × Bytes × Bool
strtol [] = (pos 0, [], false)
strtol (n ∷ []) = (pos n, [], false)
strtol (a ∷ n ∷ bs) = (negsuc n, [], false)

abbrev first : ℤ → ℕ
first (pos n) = n
first (negsuc n) = 0

show-IsShow : IsShow show strtol
show-IsShow = record {
  first = first;
  others = λ z. [];
  shown = λ n h. refl;
  short = λ n h. omega arith;
  read_again = λ n h. refl;
}

two_clients :
    serve_all show (ten ∷ ten ∷ []) fresh
    ≡ next (record {
      seq_num = pos 20;
      backup = 20 ∷ [];
      served =
          record { pid = 77; seq_num = pos 0; seq_len = pos 10 }
          ∷ record { pid = 77; seq_num = pos 10; seq_len = pos 10 }
          ∷ [];
    })
unfolding serve_all ◌+ℤ◌
two_clients = refl

serve_all-IsServer_example : RoundIsServer (serve_all show (ten ∷ ten ∷ []) fresh)
serve_all-IsServer_example =
    serve_all-IsServer show (ten ∷ ten ∷ []) fresh
      (record { in_range = refl; end_by = tt; disjoint = tt }) (omega arith, (omega arith, tt))

whole_text : WritesWhole (λ text. some (length text))
whole_text text n e = sym (ap (λ o. get_or o 0) e)

serve_all-InStep_example :
    NextInStep show strtol show-IsShow (serve_all show (ten ∷ ten ∷ []) fresh)
unfolding start
serve_all-InStep_example =
    serve_all-InStep show strtol show-IsShow (ten ∷ ten ∷ []) fresh
      (record { count = 0; is_count = refl; small = omega arith; restarts = refl })
      (omega arith, (omega arith, tt)) (whole_text, (whole_text, tt))

abbrev request : Request
request = record { pid = 77; seq_val = pos 10 }

abbrev interrupted : Messages.Input
interrupted = record {
  received = none;
  quits = false;
  quits_later = false;
  opens = true;
  sends = true;
}

abbrev once : Messages.Server
once = record { seq_val = pos 10; req = some request; sent = (77, pos 0) ∷ [] }

-- A failed `mq_receive` without a signal to quit: the last request is answered again.
answered_twice :
    Messages.serve interrupted once
    ≡ Messages.next
        (record { seq_val = pos 20; req = some request; sent = (77, pos 0) ∷ (77, pos 10) ∷ [] })
unfolding Messages.serve Messages.answer ◌+ℤ◌
answered_twice = refl
