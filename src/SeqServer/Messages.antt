-- ===== src/SeqServer/Messages.antt =====
-- The server of 52_Posix_Message_Queues/pmsg_seqnum_server.c, which has message queues for FIFOs.
--
-- A round of the main loop gets what its calls give as an `Input`. The request is a variable that
-- keeps its value from round to round; before the first message it is not initialised, `none`. An
-- overflow of the `int` is `undefined`. The set-up of signals and queues, and what is printed, is left
-- out.
use tlpi_exercises.Prelude.{
  ℕ, ◌-◌, ◌^◌, ℤ, pos_part, neg_part, ◌+ℤ◌, Bool, not, ◌&&◌, ◌||◌, Option, none, some, List, [],
  ◌∷◌, ◌++◌, ltb, if◌then◌else◌,
}

pub record Request : Type 0 where
  pub pid : ℕ
  pub seq_val : ℤ

pub record Server : Type 0 where
  pub seq_val : ℤ
  pub req : Option Request
  -- the numbers that were sent, with the clients
  pub sent : List (ℕ × ℤ)

pub record Input : Type 0 where
  -- `none` where `mq_receive` fails
  pub received : Option Request
  -- `quit`, after `mq_receive` and after `mq_send`
  pub quits : Bool
  pub quits_later : Bool
  pub opens : Bool
  pub sends : Bool

pub data Round : Type 0 where
  next : Server → Round
  broken_off : Server → Round
  undefined : Round

abbrev pub overflows : ℤ → Bool
overflows n = ltb (2 ^ 31 - 1) (pos_part n) || ltb (2 ^ 31) (neg_part n)

-- The round from the request on.
unfoldable pub answer : Input → Server → Request → Round
answer i s req =
    if not i.opens
    then next s
    else if not i.sends && i.quits_later
    then broken_off s
    else if overflows (s.seq_val +ℤ req.seq_val)
    then undefined
    else next (record s {
      seq_val = s.seq_val +ℤ req.seq_val;
      sent = if i.sends then s.sent ++ (req.pid, s.seq_val) ∷ [] else s.sent;
    })

unfoldable pub serve : Input → Server → Round
unfolding answer
serve i s = elim i.received [
  | some req ↦ answer i (record s { req = some req }) req
  | none ↦
      if i.quits then broken_off s else elim s.req [ none ↦ undefined | some req ↦ answer i s req ]
]
