-- ===== src/ManifestFile/Checksums.antt =====
-- The checksum that ComputeFNV64ForRange reads in blocks.
use Prim.Native.Nat.{min}
use nemotron_inference.Base.{
  ℕ, zero, suc, ◌-◌, ◌<◌, ◌≤◌, ◌≡◌, ◌≢◌, refl, ap, sym, ◌∙◌, inl, inr, true, false, List, [], ◌∷◌,
  ◌++◌, Option, none, some, arith, leb, ◌==◌, if◌then◌else◌, length, take, drop, length-take,
  length-drop, is_empty, is_empty_iff, Bool-cases,
}
use nemotron_inference.ManifestFile.Files.{
  ManifestFiles, fnv1a_append, hash_bytes, buffer_size, hash_range, fnv_offset_basis, to_hex,
  compute_fnv64_for_range,
}

hash_bytes-append :
    (hash : ℕ) (xs ys : List ℕ) → hash_bytes hash (xs ++ ys) ≡ hash_bytes (hash_bytes hash xs) ys
unfolding hash_bytes
hash_bytes-append hash [] ys = refl
hash_bytes-append hash (x ∷ xs) ys = hash_bytes-append (fnv1a_append hash x) xs ys

take-nil : (n : ℕ) → ◌≡◌ {A = List ℕ} (take n []) []
take-nil zero = refl
take-nil (suc n) = refl

take-split :
    (m n : ℕ) (xs : List ℕ)
    → m ≤ n
    → take m xs ++ take (n - length (take m xs)) (drop (length (take m xs)) xs) ≡ take n xs
take-split zero n xs le = ap (λ k. take k xs) (omega arith)
take-split (suc m) zero xs le = absurd (omega arith)
take-split (suc m) (suc n) [] le = take-nil (suc n - 0)
take-split (suc m) (suc n) (x ∷ xs) le =
    let fewer : suc n - suc (length (take m xs)) ≡ n - length (take m xs) = omega arith in
    rw (fewer, take-split m n xs (omega arith))

-- In one go: the hash of the range, if the stream holds all of it.
abbrev pub whole_hash : ℕ → ℕ → List ℕ → Option ℕ
whole_hash nbytes hash stream =
    if leb nbytes (length stream) then some (hash_bytes hash (take nbytes stream)) else none

take_none : (hash : ℕ) (stream : List ℕ) → whole_hash 0 hash stream ≡ some hash
unfolding hash_bytes
take_none hash stream = ground arith

-- A block, and then the rest of the range.
whole_hash-block :
    (m remaining hash : ℕ) (stream : List ℕ)
    → m ≤ remaining
    → whole_hash
        (remaining - length (take m stream))
        (hash_bytes hash (take m stream))
        (drop (length (take m stream)) stream)
      ≡ whole_hash remaining hash stream
whole_hash-block m remaining hash stream le =
    let block = take m stream in
    let size = length-take m stream in
    let left = length-drop (length block) stream in
    let joined =
      hash_bytes-append hash block (take (remaining - length block) (drop (length block) stream)) in
    let whole = take-split m remaining stream le in
    elim (Bool-cases (leb remaining (length stream))) [
      | inl fits ↦
          let part : leb (remaining - length block) (length (drop (length block) stream)) ≡ true =
            ground arith in
          rw (fits, part, ← joined, whole)
      | inr short ↦
          let part : leb (remaining - length block) (length (drop (length block) stream)) ≡ false =
            ground arith in
          rw (short, part)
    ]

not_empty : (xs : List ℕ) → is_empty xs ≡ false → length xs ≢ 0
not_empty [] e = absurd (cc)
not_empty (x ∷ xs) e = omega arith

hash_range-whole_hash :
    (fuel remaining hash : ℕ) (stream : List ℕ)
    → remaining < fuel
    → hash_range fuel remaining hash stream ≡ whole_hash remaining hash stream
unfolding hash_range
hash_range-whole_hash zero remaining hash stream enough = absurd (omega arith)
hash_range-whole_hash (suc fuel) remaining hash stream enough = elim (Bool-cases (remaining == 0)) [
  | inl done ↦
      let zeroed : remaining ≡ 0 = ground arith in
      rw (zeroed, hash_range) (sym (take_none hash stream))
  | inr more ↦
      let block = take (min buffer_size remaining) stream in
      let size = length-take (min buffer_size remaining) stream in
      elim (Bool-cases (is_empty block)) [
        | inl e ↦
            let nothing : length block ≡ 0 =
              ap (λ (t : List ℕ). length t) ((is_empty_iff block).0 e) in
            let short : leb remaining (length stream) ≡ false = ground arith in
            rw (more, e, short, hash_range)
        | inr e ↦
            let something : length block ≢ 0 = not_empty block e in
            rw (more, e, hash_range)
              (hash_range-whole_hash fuel (remaining - length block) (hash_bytes hash block)
                  (drop (length block) stream) (omega arith)
                ∙ whole_hash-block (min buffer_size remaining) remaining hash stream (omega arith))
      ]
]

-- ComputeFNV64ForRange hashes the bytes of the range in blocks of 4096, as if in one go, where the file can
-- be opened at the offset, and fails exactly when the file ends before the range does.
pub compute_fnv64_for_range-whole_hash :
    (files : ManifestFiles) (path stream : List ℕ) (offset_bytes nbytes : ℕ)
    → files.stream_at path offset_bytes ≡ some stream
    → compute_fnv64_for_range files path offset_bytes nbytes ≡ (
        if leb nbytes (length stream)
        then some (to_hex 16 (hash_bytes fnv_offset_basis (take nbytes stream)))
        else none)
unfolding compute_fnv64_for_range
compute_fnv64_for_range-whole_hash files path stream offset_bytes nbytes opened =
    rw
      (
        opened,
        hash_range-whole_hash (suc nbytes) nbytes fnv_offset_basis stream (omega arith),
        compute_fnv64_for_range,
      )
      (elim (Bool-cases (leb nbytes (length stream))) [ inl e ↦ rw e | inr e ↦ rw e ])
