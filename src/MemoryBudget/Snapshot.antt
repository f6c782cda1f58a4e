-- ===== src/MemoryBudget/Snapshot.antt =====
-- The snapshot of the host's memory, for a file that the kernel prints.
use nemotron_inference.Base.{
  ℕ, ◌<◌, ◌≡◌, refl, ap, sym, ◌∙◌, false, not, ◌||◌, List, [], ◌∷◌, ◌++◌, some, arith, ◌==◌, word,
  mul64, text, append_nil,
}
use nemotron_inference.ModelSchedule.{starts_with}
use nemotron_inference.MemoryBudget.{HostMemorySnapshot}
use nemotron_inference.MemoryBudget.Meminfo.{
  scan_lines, read_host_memory_snapshot_from_proc_meminfo,
}
use nemotron_inference.MemoryBudget.Printed.{
  printed, parse_meminfo_line-printed, unread, contents_of, AllOneLine, OneLine,
  get_lines-contents_of, OtherLines, scan_lines-OtherLines, OtherLines-append, printed-OneLine,
}

-- Other lines around the two that are read.
abbrev pub meminfo : List (List ℕ) → List ℕ → List (List ℕ) → List ℕ → List (List ℕ) → List (List ℕ)
meminfo before available between swap after = before ++ (available ∷ (between ++ (swap ∷ after)))

abbrev pub snapshot_of : ℕ → ℕ → HostMemorySnapshot
snapshot_of mem_available swap_free = record {
  mem_available_bytes = mem_available;
  swap_free_bytes = swap_free;
  valid = not (mem_available == 0) || not (swap_free == 0);
}

available_apart :
    (spaces n : ℕ)
    → starts_with (printed (text "MemAvailable:") spaces n) (text "SwapFree:") ≡ false
unfolding printed text starts_with
available_apart spaces n = refl

swap_apart :
    (spaces n : ℕ)
    → starts_with (printed (text "SwapFree:") spaces n) (text "MemAvailable:") ≡ false
unfolding printed text starts_with
swap_apart spaces n = refl

available_line : (spaces n : ℕ) → OneLine (printed (text "MemAvailable:") spaces n)
available_line spaces n =
    printed-OneLine (text "MemAvailable:") spaces n (unfold text in ground arith)

swap_line : (spaces n : ℕ) → OneLine (printed (text "SwapFree:") spaces n)
swap_line spaces n = printed-OneLine (text "SwapFree:") spaces n (unfold text in ground arith)

read_available :
    (spaces n : ℕ) (rest : List (List ℕ)) (mem_available swap_free : ℕ)
    → n < word
    → scan_lines (printed (text "MemAvailable:") spaces n ∷ rest) mem_available swap_free
      ≡ scan_lines rest (mul64 n 1024) swap_free
unfolding scan_lines
read_available spaces n rest a s fits = rw (
  parse_meminfo_line-printed (text "MemAvailable:") spaces n fits,
  unread (text "SwapFree:") (printed (text "MemAvailable:") spaces n) (available_apart spaces n),
  scan_lines,
)

read_swap :
    (spaces n : ℕ) (rest : List (List ℕ)) (mem_available swap_free : ℕ)
    → n < word
    → scan_lines (printed (text "SwapFree:") spaces n ∷ rest) mem_available swap_free
      ≡ scan_lines rest mem_available (mul64 n 1024)
unfolding scan_lines
read_swap spaces n rest a s fits = rw (
  parse_meminfo_line-printed (text "SwapFree:") spaces n fits,
  unread (text "MemAvailable:") (printed (text "SwapFree:") spaces n) (swap_apart spaces n),
  scan_lines,
)

OtherLines-AllOneLine : (lines : List (List ℕ)) → OtherLines lines → AllOneLine lines
OtherLines-AllOneLine [] h = tt
OtherLines-AllOneLine (line ∷ rest) h = (h.0.0, OtherLines-AllOneLine rest h.1)

scan_ends :
    (lines : List (List ℕ)) (mem_available swap_free : ℕ)
    → OtherLines lines
    → scan_lines lines mem_available swap_free ≡ (mem_available, swap_free)
unfolding scan_lines
scan_ends lines a s h =
    ap (λ (l : List (List ℕ)). scan_lines l a s) (sym (append_nil lines))
    ∙ scan_lines-OtherLines lines [] a s h

-- ReadHostMemorySnapshotFromProcMeminfo, on a file that says `MemAvailable:` and `SwapFree:` once each, in
-- this order, with a number of kB that is a word, and other lines around them, gives the two numbers in
-- bytes, as words.
pub read_host_memory_snapshot_from_proc_meminfo-printed :
    (before between after : List (List ℕ)) (available_spaces swap_spaces available_kib swap_kib : ℕ)
    → OtherLines before
    → OtherLines between
    → OtherLines after
    → available_kib < word
    → swap_kib < word
    → read_host_memory_snapshot_from_proc_meminfo (
        some (
          contents_of (
            meminfo before
              (printed (text "MemAvailable:") available_spaces available_kib)
              between
              (printed (text "SwapFree:") swap_spaces swap_kib)
              after)))
      ≡ snapshot_of (mul64 available_kib 1024) (mul64 swap_kib 1024)
unfolding read_host_memory_snapshot_from_proc_meminfo
read_host_memory_snapshot_from_proc_meminfo-printed before between after i j a s h g k fits
      fits_swap =
    let available = printed (text "MemAvailable:") i a in
    let swap = printed (text "SwapFree:") j s in
    let lines = meminfo before available between swap after in
    let whole : AllOneLine lines =
      OtherLines-append before (available ∷ (between ++ (swap ∷ after))) h (
        available_line i a,
        OtherLines-append between (swap ∷ after) g (swap_line j s, OtherLines-AllOneLine after k),
      ) in
    let scanned : scan_lines lines 0 0 ≡ (mul64 a 1024, mul64 s 1024) =
      scan_lines-OtherLines before (available ∷ (between ++ (swap ∷ after))) 0 0 h
      ∙ (read_available i a (between ++ (swap ∷ after)) 0 0 fits
          ∙ (scan_lines-OtherLines between (swap ∷ after) (mul64 a 1024) 0 g
              ∙ (read_swap j s after (mul64 a 1024) 0 fits_swap
                  ∙ scan_ends after (mul64 a 1024) (mul64 s 1024) k))) in
    rw (get_lines-contents_of lines whole, scanned, read_host_memory_snapshot_from_proc_meminfo)
