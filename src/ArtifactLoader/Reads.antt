-- ===== src/ArtifactLoader/Reads.antt =====
-- ReadAllBytes ends, whatever the reads return.
use nemotron_inference.Base.{
  ℕ, zero, suc, ◌+◌, ◌-◌, ◌<◌, ◌≡◌, ◌⊎◌, inl, inr, true, false, some, arith, leb, ◌==◌, Bool-cases,
}
use nemotron_inference.ArtifactLoader.{FileSystem, read_loop, read_all_bytes}

read_loop-ends :
    (fs : FileSystem) (fd file_size fuel total_read : ℕ)
    → file_size - total_read < fuel
    → (read_loop fs fd file_size fuel total_read ≡ some true)
      ⊎ (read_loop fs fd file_size fuel total_read ≡ some false)
unfolding read_loop
read_loop-ends fs fd file_size zero total_read enough = absurd (omega arith)
read_loop-ends fs fd file_size (suc fuel) total_read enough =
    let chunk = fs.read_chunk fd total_read (file_size - total_read) in
    elim (Bool-cases (leb file_size total_read)) [
      | inl full ↦ inl (rw (full, read_loop))
      | inr short ↦ elim (Bool-cases (chunk == 0)) [
        | inl e ↦ inr (rw (short, e, read_loop))
        | inr e ↦
            rw (short, e, read_loop)
              (read_loop-ends fs fd file_size fuel (total_read + chunk) (ground arith))
      ]
    ]

-- ReadAllBytes returns true or false for every file, in at most one read for each byte of the file.
pub read_all_bytes-ends :
    (fs : FileSystem) (fd file_size : ℕ)
    → (read_all_bytes fs fd file_size ≡ some true) ⊎ (read_all_bytes fs fd file_size ≡ some false)
unfolding read_all_bytes
read_all_bytes-ends fs fd file_size = elim (Bool-cases (file_size == 0)) [
  | inl e ↦ inr (rw (e, read_all_bytes))
  | inr e ↦ rw (e, read_all_bytes) (read_loop-ends fs fd file_size (suc file_size) 0 (omega arith))
]
