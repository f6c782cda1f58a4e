-- ===== src/MemoryBudget/Meminfo.antt =====
-- ReadHostMemorySnapshotFromProcMeminfo of runtime/src/planning/memory_budget.cpp, on the bytes of the
-- file, with the formatted input of std::istringstream that it uses.
use nemotron_inference.Base.{
  ℕ, ◌-◌, Bool, true, false, ◌||◌, not, List, [], ◌∷◌, ◌++◌, Option, none, some, ltb, ◌==◌,
  if◌then◌else◌, word, mul64, sub64, length, drop, str_eq, text,
}
use nemotron_inference.ModelSchedule.{starts_with, is_digit}
use nemotron_inference.Json.{is_space, skip_whitespace, take_digits}
use nemotron_inference.MemoryBudget.{HostMemorySnapshot}

-- The number behind an optional sign: it must have a digit and be a word, and a minus negates the word.
unfoldable pub read_unsigned : Bool → List ℕ → Option (ℕ × List ℕ)
read_unsigned minus [] = none
read_unsigned minus (ch ∷ rest) =
    let (value, left) = take_digits 0 (ch ∷ rest) in
    if not (is_digit ch) || ltb (word - 1) value
    then none
    else some ((if minus then sub64 0 value else value), left)

-- `input >> value_kib`
unfoldable pub read_size : List ℕ → Option (ℕ × List ℕ)
read_size input = elim (skip_whitespace input) [
  | [] ↦ none
  | ch ∷ rest ↦
      if ch == b'-'
      then read_unsigned true rest
      else (if ch == b'+' then read_unsigned false rest else read_unsigned false (ch ∷ rest))
]

unfoldable pub take_word : List ℕ → List ℕ
take_word [] = []
take_word (ch ∷ rest) = if is_space ch then [] else ch ∷ take_word rest

-- `input >> unit`, which is empty where it fails.
unfoldable pub read_word : List ℕ → List ℕ
read_word input = take_word (skip_whitespace input)

-- The value that ParseMeminfoLine writes, where it returns true.
unfoldable pub parse_meminfo_line : List ℕ → List ℕ → Option ℕ
parse_meminfo_line line key =
    if not (starts_with line key) then none else elim (read_size (drop (length key) line)) [
      | none ↦ none
      | some (value_kib, left) ↦
          if str_eq (read_word left) (text "kB") then some (mul64 value_kib 1024) else none
    ]

-- std::getline until the file ends; `line` is what was read of the current one.
unfoldable pub get_lines : List ℕ → List ℕ → List (List ℕ)
get_lines [] [] = []
get_lines (ch ∷ line) [] = (ch ∷ line) ∷ []
get_lines line (ch ∷ rest) =
    if ch == 10 then line ∷ get_lines [] rest else get_lines (line ++ (ch ∷ [])) rest

abbrev pub or_before : ℕ → Option ℕ → ℕ
or_before before none = before
or_before before (some value) = value

-- The loop over the lines.
unfoldable pub scan_lines : List (List ℕ) → ℕ → ℕ → ℕ × ℕ
scan_lines [] mem_available swap_free = (mem_available, swap_free)
scan_lines (line ∷ rest) mem_available swap_free =
    scan_lines rest (or_before mem_available (parse_meminfo_line line (text "MemAvailable:")))
      (or_before swap_free (parse_meminfo_line line (text "SwapFree:")))

-- `none` is a file that cannot be opened.
unfoldable pub read_host_memory_snapshot_from_proc_meminfo : Option (List ℕ) → HostMemorySnapshot
read_host_memory_snapshot_from_proc_meminfo none = record {
  mem_available_bytes = 0;
  swap_free_bytes = 0;
  valid = false;
}
read_host_memory_snapshot_from_proc_meminfo (some contents) =
    let (mem_available, swap_free) = scan_lines (get_lines [] contents) 0 0 in
    record {
      mem_available_bytes = mem_available;
      swap_free_bytes = swap_free;
      valid = not (mem_available == 0) || not (swap_free == 0);
    }
