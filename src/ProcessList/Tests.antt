-- ===== src/ProcessList/Tests.antt =====
-- A /proc with two processes, and the theorems at it.
use tlpi_exercises.Prelude.{
  ℕ, ◌+◌, ◌-◌, ◌*◌, ◌≡◌, refl, Bool, true, ◌&&◌, Option, none, some, List, [], ◌∷◌, ◌++◌, Bytes,
  codes, arith, leb, strcmp, if◌then◌else◌, done, fault,
}
use tlpi_exercises.ProcessList.{
  ProcessInfo, same, get_value, get_field, status_loop, status_line, getline_clone, read_uid,
  read_pid, Opened, file, refused, get_process_info, Exit, printed, main, print,
}
use tlpi_exercises.ProcessList.Fields.{
  Entry, IsEntry, AreEntries, status_file, scan_entries, get_process_info-scan_entries,
}

abbrev memory : ℕ → Bool
memory n = true

abbrev digits : ℕ → Bytes → ℕ × Bytes
digits n [] = (n, [])
digits n (c ∷ cs) =
    let rest = digits (10 * n + (c - b'0')) cs in
    if leb b'0' c && leb c b'9' then rest else (n, c ∷ cs)

abbrev strtol : Bytes → ℕ × Bytes
strtol s = digits 0 s

abbrev getpwnam : Bytes → Option ℕ
getpwnam name = if same name (codes "junji") then some 1000 else none

abbrev garbage : ProcessInfo
garbage = record { pid = []; name = [] }

abbrev entries : List Entry
entries =
    record { field = codes "Name"; value = codes "sh"; tail = [] }
    ∷ record { field = codes "Pid"; value = codes "7"; tail = [] }
    ∷ record { field = codes "Uid"; value = codes "1000"; tail = codes "\t1000" }
    ∷ []

abbrev sh : ProcessInfo
sh = record { pid = codes "7"; name = codes "sh" }

abbrev open_file : ℕ → Bytes → Opened
open_file leaked path =
    if same path (codes "/proc/7/status") then file (status_file entries) else refused

lists_sh :
    main memory strtol getpwnam open_file garbage 5
      (codes "junji" ∷ [])
      (codes "self" ∷ codes "7" ∷ [])
    ≡ elim (print (codes "junji") (sh ∷ [])) [
      | fault ↦ Exit.breaks_off
      | done output ↦ printed output
    ]
unfolding main get_process_info status_loop status_line getline_clone read_uid read_pid get_value
    get_field strcmp
lists_sh = refl

entries-AreEntries : AreEntries entries
entries-AreEntries = (name, (pid, (uid, tt)))
  where
    name : IsEntry (record { field = codes "Name"; value = codes "sh"; tail = [] })
    name = record {
      no_colon = ground arith;
      no_tab = ground arith;
      value_no_tab = ground arith;
      tabbed = tt;
      one_line = ground arith;
      field_fits = omega arith;
      value_fits = omega arith;
    }

    pid : IsEntry (record { field = codes "Pid"; value = codes "7"; tail = [] })
    pid = record {
      no_colon = ground arith;
      no_tab = ground arith;
      value_no_tab = ground arith;
      tabbed = tt;
      one_line = ground arith;
      field_fits = omega arith;
      value_fits = omega arith;
    }

    uid : IsEntry (record { field = codes "Uid"; value = codes "1000"; tail = codes "\t1000" })
    uid = record {
      no_colon = ground arith;
      no_tab = ground arith;
      value_no_tab = ground arith;
      tabbed = refl;
      one_line = ground arith;
      field_fits = omega arith;
      value_fits = omega arith;
    }

opened : open_file 0 ((codes "/proc/" ++ codes "7") ++ codes "/status") ≡ file (status_file entries)
unfolding strcmp
opened = refl

get_process_info-scan_entries_example :
    get_process_info memory strtol getpwnam open_file garbage 5 1000 0 garbage (codes "7")
    ≡ scan_entries strtol 1000 0 garbage entries
get_process_info-scan_entries_example =
    get_process_info-scan_entries memory (λ n. refl) strtol 1000 getpwnam open_file garbage 5 0
      garbage (codes "7") entries opened entries-AreEntries (omega arith)
