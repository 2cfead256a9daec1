-- ===== src/SeqServer/Numbers.antt =====
-- The numbers that the server gives out.
use tlpi_exercises.Prelude.{
  ℕ, ◌≡◌, inl, inr, ℤ, pos, ◌+ℤ◌, ◌≤ℤ◌, parts-+ℤ, Bool, true, false, Option, none, some, List, [],
  ◌∷◌, ◌++◌, Bytes, take, if◌then◌else◌, arith, Bool-cases,
}
use tlpi_exercises.SeqServer.{
  max_digits, Served, Server, Input, Round, next, stopped, ended, write_loop, too_large, advance,
  record_served, back_up, serve, serve_all,
}

-- The range of a response ends by `n`, unless its request was too large to count.
abbrev pub Ends : Served → ℤ → Type 0
Ends r n = if too_large (r.seq_len +ℤ r.seq_num) then Unit else r.seq_num +ℤ r.seq_len ≤ℤ n

abbrev pub EndBy : ℤ → List Served → Type 0
EndBy n [] = Unit
EndBy n (r ∷ rs) = Ends r n × EndBy n rs

-- The range of `r` ends before those of the others begin.
abbrev pub Precedes : Served → List Served → Type 0
Precedes r [] = Unit
Precedes r (r' ∷ rs) = Ends r r'.seq_num × Precedes r rs

abbrev pub AreDisjoint : List Served → Type 0
AreDisjoint [] = Unit
AreDisjoint (r ∷ rs) = Precedes r rs × AreDisjoint rs

-- What holds between two rounds, if no request is for a negative number of numbers.
pub record IsServer (s : Server) : Type 0 where
  pub in_range : too_large s.seq_num ≡ false
  pub end_by : EndBy s.seq_num s.served
  pub disjoint : AreDisjoint s.served

abbrev pub RoundIsServer : Round → Type 0
RoundIsServer (next s) = IsServer s
RoundIsServer (stopped s) = IsServer s
RoundIsServer (ended s) = IsServer s

abbrev pub AsksSome : Option (ℕ × ℤ) → Type 0
AsksSome none = Unit
AsksSome (some (pid, seq_len)) = pos 0 ≤ℤ seq_len

abbrev pub AllAskSome : List Input → Type 0
AllAskSome [] = Unit
AllAskSome (i ∷ inputs) = AsksSome i.request × AllAskSome inputs

advance-too_large : (n k : ℤ) → too_large n ≡ false → too_large (advance n k) ≡ false
unfolding ◌+ℤ◌
advance-too_large n k h = ground arith

advance-le : (n k : ℤ) → pos 0 ≤ℤ k → n ≤ℤ advance n k
advance-le n k h = elim (Bool-cases (too_large (k +ℤ n))) [
  | inl large ↦ rw large (omega arith)
  | inr fine ↦ rw fine (omega (arith, parts-+ℤ n k))
]

advance-Ends :
    (pid : ℕ) (n k : ℤ) → Ends (record { pid = pid; seq_num = n; seq_len = k }) (advance n k)
advance-Ends pid n k = elim (Bool-cases (too_large (k +ℤ n))) [
  | inl large ↦ rw large tt
  | inr fine ↦ rw fine (omega arith)
]

Ends-le : (r : Served) (n m : ℤ) → n ≤ℤ m → Ends r n → Ends r m
Ends-le r n m h e = by_size (too_large (r.seq_len +ℤ r.seq_num)) e
  where
    by_size :
        (b : Bool)
        → (if b then Unit else r.seq_num +ℤ r.seq_len ≤ℤ n)
        → (if b then Unit else r.seq_num +ℤ r.seq_len ≤ℤ m)
    by_size true e = tt
    by_size false e = omega arith

EndBy-le : (n m : ℤ) (rs : List Served) → n ≤ℤ m → EndBy n rs → EndBy m rs
EndBy-le n m [] h e = tt
EndBy-le n m (r ∷ rs) h e = (Ends-le r n m h e.0, EndBy-le n m rs h e.1)

EndBy-append :
    (n : ℤ) (rs : List Served) (r : Served) → EndBy n rs → Ends r n → EndBy n (rs ++ r ∷ [])
EndBy-append n [] r e h = (h, tt)
EndBy-append n (x ∷ rs) r e h = (e.0, EndBy-append n rs r e.1 h)

Precedes-append :
    (x : Served) (rs : List Served) (r : Served)
    → Precedes x rs
    → Ends x r.seq_num
    → Precedes x (rs ++ r ∷ [])
Precedes-append x [] r p h = (h, tt)
Precedes-append x (y ∷ rs) r p h = (p.0, Precedes-append x rs r p.1 h)

AreDisjoint-append :
    (rs : List Served) (r : Served)
    → AreDisjoint rs
    → EndBy r.seq_num rs
    → AreDisjoint (rs ++ r ∷ [])
AreDisjoint-append [] r d e = (tt, tt)
AreDisjoint-append (x ∷ rs) r d e =
    (Precedes-append x rs r d.0 e.0, AreDisjoint-append rs r d.1 e.1)

-- The state after a request.
advance-IsServer :
    (s : Server) (pid : ℕ) (k : ℤ) (written : Bool)
    → IsServer s
    → pos 0 ≤ℤ k
    → IsServer (record s {
      seq_num = advance s.seq_num k;
      served =
          record_served written (record { pid = pid; seq_num = s.seq_num; seq_len = k }) s.served;
    })
advance-IsServer s pid k false w h = record {
  in_range = advance-too_large s.seq_num k w.in_range;
  end_by = EndBy-le s.seq_num (advance s.seq_num k) s.served (advance-le s.seq_num k h) w.end_by;
  disjoint = w.disjoint;
}
advance-IsServer s pid k true w h =
    let r : Served = record { pid = pid; seq_num = s.seq_num; seq_len = k } in
    let n : ℤ = advance s.seq_num k in
    record {
      in_range = advance-too_large s.seq_num k w.in_range;
      end_by =
          EndBy-append n s.served r
            (EndBy-le s.seq_num n s.served (advance-le s.seq_num k h) w.end_by)
            (advance-Ends pid s.seq_num k);
      disjoint = AreDisjoint-append s.served r w.disjoint w.end_by;
    }

module _ (show : ℤ → Bytes) where
  back_up-IsServer : (i : Input) (s : Server) → IsServer s → RoundIsServer (back_up show i s)
  unfolding back_up
  back_up-IsServer i s w = by_calls i.truncates i.seeks i.backs_up
    where
      held : (b : Bytes) → IsServer (record s { backup = b })
      held b = record { in_range = w.in_range; end_by = w.end_by; disjoint = w.disjoint }

      by_calls :
          (t k : Bool) (b : Bytes → Option ℕ)
          → RoundIsServer (back_up show (record i { truncates = t; seeks = k; backs_up = b }) s)
      by_calls false k b = w
      by_calls true false b = held []
      by_calls true true b = by_write (b _)
        where
          by_write :
              (o : Option ℕ)
              → RoundIsServer (elim o [
                | none ↦ ended (record s { backup = [] })
                | some n ↦ next (record s { backup = take n (take max_digits (show s.seq_num)) })
              ])
          by_write none = held []
          by_write (some n) = held _

  serve-IsServer :
      (i : Input) (s : Server) → IsServer s → AsksSome i.request → RoundIsServer (serve show i s)
  unfolding serve
  serve-IsServer i s w h = by_request i.stop_requested i.request i.dummy_opens i.client_opens h
    where
      by_request :
          (stop : Bool) (o : Option (ℕ × ℤ)) (d c : Bool)
          → AsksSome o
          → RoundIsServer (
              serve show
                (record i { stop_requested = stop; request = o; dummy_opens = d; client_opens = c })
                s)
      by_request true o d c h = w
      by_request false none d c h = w
      by_request false (some (pid, k)) false c h = w
      by_request false (some (pid, k)) true false h = w
      by_request false (some (pid, k)) true true h =
          back_up-IsServer
            (record i {
              stop_requested = false;
              request = some (pid, k);
              dummy_opens = true;
              client_opens = true;
            })
            (record s {
              seq_num = advance s.seq_num k;
              served =
                  record_served (write_loop 3 1 i.writes)
                    (record { pid = pid; seq_num = s.seq_num; seq_len = k }) s.served;
            })
            (advance-IsServer s pid k (write_loop 3 1 i.writes) w h)

  -- If no request asks for a negative number of numbers, then from a state such as the first one,
  -- after any rounds, also where one ends the program, the number is between -999999999 and 999999999,
  -- and of the responses that were written to clients those to requests that were not too large give
  -- out disjoint ranges, each behind those before it and before the number of every later response.
  -- (A response to a request that was too large gives out no range here.)
  pub serve_all-IsServer :
      (inputs : List Input) (s : Server)
      → IsServer s
      → AllAskSome inputs
      → RoundIsServer (serve_all show inputs s)
  unfolding serve_all
  serve_all-IsServer [] s w h = w
  serve_all-IsServer (i ∷ inputs) s w h =
      by_round (serve show i s) (serve-IsServer i s w h.0)
        (λ s' w'. serve_all-IsServer inputs s' w' h.1)
    where
      by_round :
          (r : Round)
          → RoundIsServer r
          → ((s' : Server) → IsServer s' → RoundIsServer (serve_all show inputs s'))
          → RoundIsServer (elim r [
            | ended s' ↦ ended s'
            | stopped s' ↦ stopped s'
            | next s' ↦ serve_all show inputs s'
          ])
      by_round (ended s') w' rest = w'
      by_round (stopped s') w' rest = w'
      by_round (next s') w' rest = rest s' w'
