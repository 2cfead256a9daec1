-- ===== src/ProcessList/Fields.antt =====
-- A status file of fields and values, and what `getProcessInfo` makes of it.
use tlpi_exercises.Prelude.{
  ℕ, zero, suc, ◌+◌, ◌≤◌, ◌<◌, ◌≡◌, ◌≢◌, refl, sym, ap, ◌∙◌, Bool, true, false, Option, none, some,
  List, [], ◌∷◌, ◌++◌, Bytes, codes, strcmp, length, drop, ltb, ◌==◌, if◌then◌else◌, arith,
  append_assoc, length-append, take-append, drop-append, done, inl, inr, Bool-cases,
}
use tlpi_exercises.ProcessList.{
  Item, newline, tab, colon, ProcessInfo, same, get_char_index, up_to_tab, get_value, get_field,
  Scan, exited, looping, Round, go_on, stop, getline_clone, read_uid, read_pid, status_line,
  status_loop, after_round, Opened, file, status_path, get_process_info,
}
use tlpi_exercises.ProcessList.Lines.{Lacks, line_item, getline_clone-line, getline_clone_end}

-- A line such as "Uid:\t1000\t1000\t1000\t1000": the field, the first value, and what follows it.
pub record Entry : Type 0 where
  pub field : Bytes
  pub value : Bytes
  pub tail : Bytes

abbrev pub Tabbed : Bytes → Type 0
Tabbed [] = Unit
Tabbed (c ∷ cs) = c ≡ tab

pub record IsEntry (e : Entry) : Type 0 where
  pub no_colon : Lacks colon e.field
  pub no_tab : Lacks tab e.field
  pub value_no_tab : Lacks tab e.value
  pub tabbed : Tabbed e.tail
  pub one_line : Lacks newline (e.field ++ (colon ∷ tab ∷ (e.value ++ e.tail)))
  pub field_fits : length e.field < 50
  pub value_fits : length e.value < 50

abbrev pub line_of : Entry → Bytes
line_of e = e.field ++ (colon ∷ tab ∷ (e.value ++ e.tail))

get_char_index-append :
    (c : ℕ) (a b : Bytes) → Lacks c a → get_char_index (a ++ (c ∷ b)) c ≡ length a
unfolding get_char_index
get_char_index-append c [] b clean = ground arith
get_char_index-append c (x ∷ a) b clean = ground (arith, get_char_index-append c a b clean.1)

up_to_tab-append : (a b : Bytes) → Lacks tab a → Tabbed b → up_to_tab (a ++ b) ≡ a
unfolding up_to_tab
up_to_tab-append [] [] clean t = refl
up_to_tab-append [] (c ∷ b) clean t = ground arith
up_to_tab-append (x ∷ a) b clean t = ground (arith, up_to_tab-append a b clean.1 t)

Lacks-append : (c x : ℕ) (a : Bytes) → Lacks c a → x ≢ c → Lacks c (a ++ x ∷ [])
Lacks-append c x [] clean ne = (ne, tt)
Lacks-append c x (y ∷ a) clean ne = (clean.0, Lacks-append c x a clean.1 ne)

module _ (e : Entry) (w : IsEntry e) where
  get_field-line_of : get_field (line_of e) ≡ done e.field
  unfolding get_field
  get_field-line_of =
      let rest : Bytes = tab ∷ (e.value ++ e.tail) in
      let index = get_char_index-append colon e.field rest w.no_colon in
      let fits : ltb (length e.field) 50 ≡ true = ground (arith, w.field_fits) in
      rw (index, fits, take-append e.field (colon ∷ rest)) refl

  get_value-line_of : get_value (line_of e) ≡ done e.value
  unfolding get_value
  get_value-line_of =
      let rest : Bytes = e.value ++ e.tail in
      let before : Bytes = e.field ++ colon ∷ [] in
      let split : line_of e ≡ before ++ (tab ∷ rest) =
        sym (append_assoc e.field (colon ∷ []) (tab ∷ rest)) in
      let index =
        get_char_index-append tab before rest
          (Lacks-append tab colon e.field w.no_tab (omega arith)) in
      let split' : line_of e ≡ (before ++ tab ∷ []) ++ rest =
        split ∙ sym (append_assoc before (tab ∷ []) rest) in
      let next : length before + 1 ≡ length (before ++ tab ∷ []) =
        omega (arith, length-append before (tab ∷ [])) in
      let behind : drop (length before + 1) (line_of e) ≡ rest =
        ap (λ k. drop k (line_of e)) next
        ∙ ap (λ t. drop (length (before ++ tab ∷ [])) t) split'
        ∙ drop-append (before ++ tab ∷ []) rest in
      let in_line : ltb (length (line_of e)) (length before + 1) ≡ false =
        ground (arith, ap length split', length-append (before ++ tab ∷ []) rest) in
      let fits : ltb (length e.value) 50 ≡ true = ground (arith, w.value_fits) in
      let start : get_char_index (line_of e) tab ≡ length before =
        ap (λ t. get_char_index t tab) split ∙ index in
      rw (start, in_line, behind, up_to_tab-append e.value e.tail w.value_no_tab w.tabbed, fits)
        refl

module _ (strtol : Bytes → ℕ × Bytes) (uid : ℕ) where
  -- What an entry does, read off its field and its value.
  abbrev pub entry_round : ℕ → ProcessInfo → Entry → Round
  entry_round collected info e =
      if same e.field (codes "Uid")
      then read_uid strtol uid collected info e.value
      else if same e.field (codes "Name")
      then go_on (collected + 1) (record info { name = e.value })
      else if same e.field (codes "Pid")
      then read_pid strtol uid collected info e.value
      else go_on collected info

  -- The entries in their order, until three are collected or one ends the function; where they do
  -- neither, it never ends.
  abbrev pub scan_entries : ℕ → ProcessInfo → List Entry → Scan
  scan_entries collected info [] = looping
  scan_entries collected info (e ∷ es) =
      after_round (λ collected' info'. scan_entries collected' info' es)
        (entry_round collected info e)

  status_line-entry_round :
      (collected : ℕ) (info : ProcessInfo) (e : Entry)
      → IsEntry e
      → status_line strtol uid collected info (line_of e) ≡ entry_round collected info e
  unfolding status_line
  status_line-entry_round collected info e w =
      rw (get_field-line_of e w, get_value-line_of e w, status_line) refl

  status_line_empty :
      (collected : ℕ) (info : ProcessInfo)
      → status_line strtol uid collected info [] ≡ go_on collected info
  unfolding status_line get_field get_char_index strcmp
  status_line_empty collected info = refl

abbrev pub AreEntries : List Entry → Type 0
AreEntries [] = Unit
AreEntries (e ∷ es) = IsEntry e × AreEntries es

abbrev pub status_file : List Entry → List Item
status_file [] = []
status_file (e ∷ es) = line_item (line_of e) (status_file es)

after_round-ext :
    (f g : ℕ → ProcessInfo → Scan) (r : Round)
    → ((collected : ℕ) (info : ProcessInfo)
        → (collected == 3) ≡ false
        → f collected info ≡ g collected info)
    → after_round f r ≡ after_round g r
after_round-ext f g (stop scan) h = refl
after_round-ext f g (go_on collected info) h = elim (Bool-cases (collected == 3)) [
  | inl e ↦ rw e refl
  | inr e ↦ rw e (h collected info e)
]

module _ (memory : ℕ → Bool) (enough : (n : ℕ) → memory n ≡ true) (strtol : Bytes → ℕ × Bytes)
    (uid : ℕ) where
  -- One line.
  status_loop-line :
      (fuel collected : ℕ) (info : ProcessInfo) (items items' : List Item) (line : Bytes)
      (r : Round)
      → getline_clone memory items ≡ (some line, items')
      → status_line strtol uid collected info line ≡ r
      → status_loop memory strtol uid (suc fuel) collected info items
        ≡ after_round
            (λ collected' info'. status_loop memory strtol uid fuel collected' info' items')
            r
  unfolding status_loop
  status_loop-line fuel collected info items items' line r got e =
      ap
        (λ (p : Option Bytes × List Item). elim p.0 as (λ _. Scan) [
          | none ↦ exited
          | some l ↦
              after_round
                (λ collected' info'. status_loop memory strtol uid fuel collected' info' p.1)
                (status_line strtol uid collected info l)
        ])
        got
      ∙ ap
          (after_round
            (λ collected' info'. status_loop memory strtol uid fuel collected' info' items'))
          e

  status_loop_end :
      (fuel collected : ℕ) (info : ProcessInfo)
      → (collected == 3) ≡ false
      → status_loop memory strtol uid fuel collected info [] ≡ looping
  unfolding status_loop
  status_loop_end zero collected info h = refl
  status_loop_end (suc fuel) collected info h =
      status_loop-line fuel collected info [] [] [] (go_on collected info)
        (getline_clone_end memory enough) (status_line_empty strtol uid collected info)
      ∙ rw h (status_loop_end fuel collected info h)

  status_loop-scan_entries :
      (es : List Entry) (fuel collected : ℕ) (info : ProcessInfo)
      → AreEntries es
      → (collected == 3) ≡ false
      → length es ≤ fuel
      → status_loop memory strtol uid fuel collected info (status_file es)
        ≡ scan_entries strtol uid collected info es
  status_loop-scan_entries [] fuel collected info w h enough_fuel =
      status_loop_end fuel collected info h
  status_loop-scan_entries (e ∷ es) zero collected info w h enough_fuel = absurd (omega arith)
  status_loop-scan_entries (e ∷ es) (suc fuel) collected info w h enough_fuel =
      status_loop-line fuel collected info (status_file (e ∷ es)) (status_file es) (line_of e)
        (entry_round strtol uid collected info e)
        (getline_clone-line memory enough (line_of e) (status_file es) w.0.one_line)
        (status_line-entry_round strtol uid collected info e w.0)
      ∙ after_round-ext _ _ (entry_round strtol uid collected info e) (λ collected' info' more.
        status_loop-scan_entries es fuel collected' info' w.1 more (omega arith))

  module _ (getpwnam : Bytes → Option ℕ) (open_file : ℕ → Bytes → Opened)
      (garbage : ProcessInfo) where
    -- If allocations succeed and the status file of a process consists of lines with a field, a
    -- colon, a tab and values separated by tabs, fields and first values being shorter than 50
    -- bytes, then `getProcessInfo`, with at least as many rounds as there are lines, ends as the
    -- entries say in their order. Where the entries do not end it, it does not end with any number
    -- of rounds from there on.
    pub get_process_info-scan_entries :
        (fuel leaked : ℕ) (info : ProcessInfo) (process_id : Bytes) (es : List Entry)
        → open_file leaked (status_path process_id) ≡ file (status_file es)
        → AreEntries es
        → length es ≤ fuel
        → get_process_info memory strtol getpwnam open_file garbage fuel uid leaked info process_id
          ≡ scan_entries strtol uid 0 info es
    unfolding get_process_info
    get_process_info-scan_entries fuel leaked info process_id es opened w h =
        rw (enough 4096, opened, get_process_info)
          (status_loop-scan_entries es fuel 0 info w refl h)
