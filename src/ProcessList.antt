-- ===== src/ProcessList.antt =====
-- The processes of a user: 12_System_And_Process_Info/list_pid.c.
--
-- A file is what `read` of one byte after the other gives, bytes and errors; when they are used up
-- every `read` returns 0. Strings are lists of bytes without the null, and the static buffers of
-- `getValue` and `getField` are copied before they are used again. Arguments are `memory` (whether
-- `malloc` or `realloc` of so many bytes succeeds), `strtol` (the value, and what it did not read),
-- `getpwnam`, `open` (of a path, after so many descriptors were opened and not closed) and the names that
-- `readdir` gives. A `size_t` that counts bytes in memory does
-- not wrap. `errExit`, `messExit` and `usageErr` are `exited`, and undefined behaviour is `undefined`
-- or `fault`.
pub mod Lines
pub mod Fields
pub mod Tests
use tlpi_exercises.Prelude.{
  ℕ, zero, suc, ◌+◌, ◌-◌, ◌*◌, ◌%◌, ◌^◌, Bool, true, false, not, ◌&&◌, Option, none, some, List, [],
  ◌∷◌, ◌++◌, Bytes, codes, strcmp, lt, eq, gt, length, take, drop, replicate, ltb, leb, ◌==◌,
  if◌then◌else◌, Outcome, done, fault, ◌>>=◌,
}

pub data Item : Type 0 where
  byte : ℕ → Item
  broken : Item

abbrev pub newline : ℕ
newline = 10

abbrev pub tab : ℕ
tab = 9

abbrev pub colon : ℕ
colon = b':'

abbrev pub uid_mod : ℕ
uid_mod = 2 ^ 32

-- `struct ProcessInfo`
pub record ProcessInfo : Type 0 where
  pub pid : Bytes
  pub name : Bytes

abbrev pub same : Bytes → Bytes → Bool
same s t = elim (strcmp s t) [ eq ↦ true | lt ↦ false | gt ↦ false ]

abbrev pub is_empty : Bytes → Bool
is_empty [] = true
is_empty (c ∷ cs) = false

unfoldable pub get_char_index : Bytes → ℕ → ℕ
get_char_index [] target = 0
get_char_index (c ∷ cs) target =
    let rest = get_char_index cs target in if c == target then 0 else suc rest

-- The loop of `getValue`, from its first byte on.
unfoldable pub up_to_tab : Bytes → Bytes
up_to_tab [] = []
up_to_tab (c ∷ cs) = let rest = up_to_tab cs in if c == tab then [] else c ∷ rest

-- Where the line has no tab, the loop begins behind its null.
unfoldable pub get_value : Bytes → Outcome Bytes
unfolding get_char_index up_to_tab
get_value line =
    let start = get_char_index line tab + 1 in
    let value = up_to_tab (drop start line) in
    if ltb (length line) start then fault else if ltb (length value) 50 then done value else fault

unfoldable pub get_field : Bytes → Outcome Bytes
unfolding get_char_index
get_field line =
    let first_delim = get_char_index line colon in
    if ltb first_delim 50 then done (take first_delim line) else fault

-- How `getProcessInfo` ends.
pub data Scan : Type 0 where
  -- 0
  listed : ProcessInfo → Scan
  -- -1, with what was stored until then
  skipped : ProcessInfo → Scan
  exited : Scan
  undefined : Scan
  -- fuel that ran out
  looping : Scan

-- What a line does: the loop goes on, or the function ends.
pub data Round : Type 0 where
  go_on : ℕ → ProcessInfo → Round
  stop : Scan → Round

module _ (memory : ℕ → Bool) where
  -- The loop of `getline_clone`; `line` holds `totalRead` bytes.
  unfoldable pub getline_loop : ℕ → Bytes → List Item → Option Bytes × List Item
  getline_loop size line [] =
      if leb size (length line + 1) && not (memory (size * 2)) then (none, []) else (some line, [])
  getline_loop size line (broken ∷ items) =
      if leb size (length line + 1) && not (memory (size * 2))
      then (none, broken ∷ items)
      else (none, items)
  getline_loop size line (byte c ∷ items) =
      let rest =
        getline_loop (if leb size (length line + 1) then size * 2 else size) (line ++ c ∷ [])
          items in
      if leb size (length line + 1) && not (memory (size * 2))
      then (none, byte c ∷ items)
      else (if c == newline then (some line, items) else rest)

  unfoldable pub getline_clone : List Item → Option Bytes × List Item
  unfolding getline_loop
  getline_clone items = if memory 64 then getline_loop 64 [] items else (none, items)

module _ (strtol : Bytes → ℕ × Bytes) (uid : ℕ) where
  -- The value of a line with the field "Uid", "Name" or "Pid".
  unfoldable pub read_uid : ℕ → ProcessInfo → Bytes → Round
  read_uid collected info value =
      if not (is_empty (strtol value).1)
      then stop exited
      else if uid == (strtol value).0 % uid_mod
      then go_on (collected + 1) info
      else stop (skipped info)

  unfoldable pub read_pid : ℕ → ProcessInfo → Bytes → Round
  read_pid collected info value =
      if ltb (length value) 32
      then go_on (collected + 1) (record info { pid = value })
      else stop undefined

  abbrev pub with_value : (Bytes → Round) → Outcome Bytes → Round
  with_value f fault = stop undefined
  with_value f (done value) = f value

  unfoldable pub status_line : ℕ → ProcessInfo → Bytes → Round
  unfolding read_uid read_pid get_value get_field
  status_line collected info line = elim (get_field line) [
    | fault ↦ stop undefined
    | done field ↦
        if same field (codes "Uid")
        then with_value (read_uid collected info) (get_value line)
        else if same field (codes "Name")
        then with_value (λ value. go_on (collected + 1) (record info { name = value }))
            (get_value line)
        else if same field (codes "Pid")
        then with_value (read_pid collected info) (get_value line)
        else go_on collected info
  ]

-- The rest of a round, and the rounds after it.
abbrev pub after_round : (ℕ → ProcessInfo → Scan) → Round → Scan
after_round rest (stop scan) = scan
after_round rest (go_on collected info) =
    if collected == 3 then listed info else rest collected info

module _ (memory : ℕ → Bool) (strtol : Bytes → ℕ × Bytes) (uid : ℕ) where
  -- The loop of `getProcessInfo`.
  unfoldable pub status_loop : ℕ → ℕ → ProcessInfo → List Item → Scan
  status_loop zero collected info items = looping
  status_loop (suc fuel) collected info items =
      let got = getline_clone memory items in
      elim got.0 [
        | none ↦ exited
        | some line ↦
            after_round (λ collected' info'. status_loop fuel collected' info' got.1)
              (status_line strtol uid collected info line)
      ]

-- What `open` gives.
pub data Opened : Type 0 where
  file : List Item → Opened
  no_entry : Opened
  refused : Opened

-- How the loop over /proc ends: with the elements of the array.
pub data Found : Type 0 where
  found : List ProcessInfo → Found
  exits : Found
  breaks : Found
  loops : Found

-- What an entry of /proc does: the loop ends, or goes on with an array of a size, its elements, and
-- the element behind them.
pub data Next : Type 0 where
  goes_on : ℕ → List ProcessInfo → ProcessInfo → Next
  ends : Found → Next

pub data Exit : Type 0 where
  printed : Bytes → Exit
  failure : Exit
  breaks_off : Exit
  never : Exit

abbrev pub max_pid_length : ℕ
max_pid_length = 9

-- A line of `print`; the array `spacing` has no negative length, nor 0.
unfoldable pub print_row : ProcessInfo → Outcome Bytes
print_row info =
    if ltb max_pid_length (length info.pid)
    then fault
    else done (
        codes "    "
        ++ (info.pid
            ++ (replicate (max_pid_length - length info.pid) b' '
                ++ (codes "|    " ++ (info.name ++ codes "\n")))))

unfoldable pub print_rows : List ProcessInfo → Outcome Bytes
unfolding print_row
print_rows [] = done []
print_rows (info ∷ infos) = do row ← print_row info; rows ← print_rows infos; done (row ++ rows)

unfoldable pub print : Bytes → List ProcessInfo → Outcome Bytes
unfolding print_rows
print username infos = do
  rows ← print_rows infos
  done (
      codes "\nThe user '"
      ++ (username
          ++ (codes "' owns the following proccesses:\n\n"
              ++ (codes "    Pid           Name\n"
                  ++ (codes "--------------------------\n"
                      ++ (rows ++ codes "--------------------------\n"))))))

abbrev pub status_path : Bytes → Bytes
status_path process_id = (codes "/proc/" ++ process_id) ++ codes "/status"

-- The early return for a process of another user does not close the descriptor.
abbrev pub leaks : Opened → Scan → ℕ
leaks (file items) (skipped info) = 1
leaks (file items) (listed info) = 0
leaks (file items) exited = 0
leaks (file items) undefined = 0
leaks (file items) looping = 0
leaks no_entry scan = 0
leaks refused scan = 0

-- The program, with `fuel` for the loop over the lines of a file; `garbage` is what the memory of a
-- new element of the array holds.
module _ (memory : ℕ → Bool) (strtol : Bytes → ℕ × Bytes) (getpwnam : Bytes → Option ℕ)
    (open_file : ℕ → Bytes → Opened) (garbage : ProcessInfo) (fuel : ℕ) where
  unfoldable pub get_process_info : (uid leaked : ℕ) → ProcessInfo → Bytes → Scan
  unfolding status_loop
  get_process_info uid leaked info process_id =
      if not (memory 4096) then exited else elim (open_file leaked (status_path process_id)) [
        | no_entry ↦ skipped info
        | refused ↦ exited
        | file items ↦ status_loop memory strtol uid fuel 0 info items
      ]

  -- `name` is not null.
  unfoldable pub user_id_from_name : Bytes → ℕ
  user_id_from_name name =
      if is_empty name
      then uid_mod - 1
      else if is_empty (strtol name).1
      then (strtol name).0 % uid_mod
      else elim (getpwnam name) [ none ↦ uid_mod - 1 | some u ↦ u ]

  unfoldable pub make_room : ℕ → List ProcessInfo → ProcessInfo → Next
  make_room size infos slot =
      if leb size (length infos + 1)
      then (if memory (96 * size * 2) then goes_on (size * 2) infos slot else ends exits)
      else goes_on size infos slot

  unfoldable pub list_entry : (uid leaked size : ℕ) → List ProcessInfo → ProcessInfo → Bytes → Next
  unfolding make_room
  list_entry uid leaked size infos slot d_name =
      if not (is_empty (strtol d_name).1)
      then goes_on size infos slot
      else if not (ltb (length infos) size)
      then ends breaks
      else elim (get_process_info uid leaked slot d_name) [
        | exited ↦ ends exits
        | undefined ↦ ends breaks
        | looping ↦ ends loops
        | skipped slot' ↦ make_room size infos slot'
        | listed info ↦ make_room size (infos ++ info ∷ []) garbage
      ]

  -- The descriptors that are open after an entry.
  unfoldable pub leaked_after : (uid leaked : ℕ) → ProcessInfo → Bytes → ℕ
  unfolding get_process_info
  leaked_after uid leaked slot d_name =
      if not (is_empty (strtol d_name).1)
      then leaked
      else leaked
        + leaks (open_file leaked (status_path d_name)) (get_process_info uid leaked slot d_name)

  unfoldable pub list_loop :
      (uid leaked size : ℕ) → List ProcessInfo → ProcessInfo → List Bytes → Found
  unfolding list_entry leaked_after
  list_loop uid leaked size infos slot [] = found infos
  list_loop uid leaked size infos slot (d_name ∷ entries) =
      elim (list_entry uid leaked size infos slot d_name) [
        | ends f ↦ f
        | goes_on size' infos' slot' ↦
            list_loop uid (leaked_after uid leaked slot d_name) size' infos' slot' entries
      ]

  -- The arguments behind the program's name, and the names in /proc. `opendir` and the first
  -- `malloc` of the array, which are not checked, succeed.
  unfoldable pub main : List Bytes → List Bytes → Exit
  unfolding user_id_from_name list_loop print
  main (username ∷ []) entries =
      let uid = user_id_from_name username in
      if uid == uid_mod - 1 then failure else elim (list_loop uid 0 64 [] garbage entries) [
        | exits ↦ failure
        | breaks ↦ breaks_off
        | loops ↦ never
        | found infos ↦ elim (print username infos) [
          | fault ↦ breaks_off
          | done output ↦ printed output
        ]
      ]
  main [] entries = failure
  main (a ∷ b ∷ args) entries = failure
