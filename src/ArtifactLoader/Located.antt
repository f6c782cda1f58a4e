-- ===== src/ArtifactLoader/Located.antt =====
-- Which file a loader holds under a key: the paths said without the code that normalizes them.
use nemotron_inference.Base.{
  ℕ, zero, suc, ◌+◌, ◌-◌, ◌≤◌, ◌<◌, ◌≡◌, leb, ◌==◌, refl, sym, ap, subst, ◌∙◌, inl, inr, ◌⊎◌, true,
  false, List, [], ◌∷◌, ◌++◌, Option, none, some, arith, length, get_elem?, string_key, str_eq,
  str_eq_iff, find, find-emplace, Bool-cases, Option-cases,
}
use mathlib.Core.Option.{some-injective}
use nemotron_inference.ArtifactLoader.{
  FileSystem, ArtifactLoadMode, mmap, read_all, read_loop, read_all_bytes, resolve_manifest_path,
  normalize_path_key, MappedFile, ArtifactLoader, load_bytes, keep_file,
}

abbrev or_itself : List ℕ → Option (List ℕ) → List ℕ
or_itself path none = path
or_itself path (some absolute) = absolute

-- Where a path leads: its absolute form, if there is one, in lexically normal form.
abbrev pub location : FileSystem → List ℕ → List ℕ
location fs path = fs.lexically_normal (or_itself path (fs.absolute path))

pub normalize_path_key-location :
    (fs : FileSystem) (path : List ℕ) → normalize_path_key fs path ≡ location fs path
unfolding normalize_path_key
normalize_path_key-location fs path = elim (Option-cases (fs.absolute path)) [
  | inl e ↦ rw (e, normalize_path_key) (same e)
  | inr (absolute, e) ↦ rw (e, normalize_path_key) (same e)
]
  where
    same :
        {o : Option (List ℕ)}
        → fs.absolute path ≡ o
        → fs.lexically_normal (or_itself path o) ≡ location fs path
    same e = ap (λ o. fs.lexically_normal (or_itself path o)) (sym e)

-- The path that a file named in the manifest stands for: itself, if it is absolute, and otherwise the one
-- beside the manifest.
abbrev pub Names : FileSystem → List ℕ → List ℕ → List ℕ → Type 0
Names fs manifest_path file path =
    ((fs.is_absolute file ≡ true) × (path ≡ file))
    ⊎ ((fs.is_absolute file ≡ false) × (path ≡ fs.beside manifest_path file))

pub resolve_manifest_path-Names :
    (fs : FileSystem) (manifest_path file : List ℕ)
    → Names fs manifest_path file (resolve_manifest_path fs manifest_path file)
unfolding resolve_manifest_path
resolve_manifest_path-Names fs manifest_path file = elim (Bool-cases (fs.is_absolute file)) [
  | inl e ↦ inl (e, rw (e, resolve_manifest_path))
  | inr e ↦ inr (e, rw (e, resolve_manifest_path))
]

-- Reads from a position on, none of them empty, get to the end.
pub data ReadWhole (fs : FileSystem) (fd size : ℕ) : ℕ → Type 0 where
  whole : (total_read : ℕ) → size ≤ total_read → ReadWhole fs fd size total_read
  further :
      (total_read : ℕ)
      → 0 < fs.read_chunk fd total_read (size - total_read)
      → ReadWhole fs fd size (total_read + fs.read_chunk fd total_read (size - total_read))
      → ReadWhole fs fd size total_read

read_loop-ReadWhole :
    (fs : FileSystem) (fd size fuel total_read : ℕ)
    → read_loop fs fd size fuel total_read ≡ some true
    → ReadWhole fs fd size total_read
unfolding read_loop
read_loop-ReadWhole fs fd size zero total_read e = absurd (cc)
read_loop-ReadWhole fs fd size (suc fuel) total_read e =
    let chunk = fs.read_chunk fd total_read (size - total_read) in
    elim (Bool-cases (leb size total_read)) [
      | inl full ↦ whole total_read (ground arith)
      | inr short ↦ elim (Bool-cases (chunk == 0)) [
        | inl empty ↦ absurd (ground arith)
        | inr more ↦
            further total_read (ground arith)
              (read_loop-ReadWhole fs fd size fuel (total_read + chunk) (ground arith))
      ]
    ]

read_all_bytes-ReadWhole :
    (fs : FileSystem) (fd size : ℕ) → read_all_bytes fs fd size ≡ some true → ReadWhole fs fd size 0
unfolding read_all_bytes
read_all_bytes-ReadWhole fs fd size e = elim (Bool-cases (size == 0)) [
  | inl empty ↦ absurd (ground arith)
  | inr more ↦ read_loop-ReadWhole fs fd size (suc size) 0 (ground arith)
]

-- The bytes at the file's address: a mapping of the descriptor, or memory that all of it was read into.
abbrev pub InMemory : FileSystem → ArtifactLoadMode → ℕ → ℕ → ℕ → Type 0
InMemory fs mmap fd size address = fs.map_memory fd size ≡ some address
InMemory fs read_all fd size address = ReadWhole fs fd size 0 × (fs.allocate fd size ≡ address)

-- A file of a loader is the whole of what its path opens.
pub record Loaded (fs : FileSystem) (mode : ArtifactLoadMode) (mapped_file : MappedFile)
    : Type 0 where
  pub mode_is : mapped_file.load_mode ≡ mode
  pub sized : fs.file_size mapped_file.path ≡ some mapped_file.size
  pub opened : fs.open_file mapped_file.path ≡ some mapped_file.fd
  pub in_memory : InMemory fs mode mapped_file.fd mapped_file.size mapped_file.address

pub load_bytes-InMemory :
    (fs : FileSystem) (mode : ArtifactLoadMode) (fd size address : ℕ)
    → load_bytes fs mode fd size ≡ some address
    → InMemory fs mode fd size address
unfolding load_bytes
load_bytes-InMemory fs mmap fd size address e = e
load_bytes-InMemory fs read_all fd size address e =
    elim (Option-cases (read_all_bytes fs fd size)) [
      | inl g ↦ absurd (ground arith)
      | inr (done, g) ↦ elim (Bool-cases done) [
        | inl full ↦
            (read_all_bytes-ReadWhole fs fd size (ground arith), some-injective _ _ (ground arith))
        | inr short ↦ absurd (ground arith)
      ]
    ]

-- The file under an index: loaded from a path that leads to the key.
pub record FileAt (fs : FileSystem) (mode : ArtifactLoadMode) (files : List MappedFile)
    (key : List ℕ) (index : ℕ) : Type 0 where
  pub mapped_file : MappedFile
  pub there : get_elem? files index ≡ some mapped_file
  pub leads : location fs mapped_file.path ≡ key
  pub loaded : Loaded fs mode mapped_file

abbrev pub Keyed : FileSystem → ArtifactLoader → Type 0
Keyed fs impl =
    (key : List ℕ) (index : ℕ)
    → find key impl.mapped_file_indices ≡ some index
    → FileAt fs impl.load_mode impl.mapped_files key index

pub get_elem?-append :
    {A : Type 0} (xs ys : List A) (i : ℕ) (x : A)
    → get_elem? xs i ≡ some x
    → get_elem? (xs ++ ys) i ≡ some x
get_elem?-append [] ys i x e = absurd (cc)
get_elem?-append (a ∷ xs) ys zero x e = e
get_elem?-append (a ∷ xs) ys (suc i) x e = get_elem?-append xs ys i x e

get_elem?-last :
    {A : Type 0} (xs : List A) (x : A) → get_elem? (xs ++ (x ∷ [])) (length xs) ≡ some x
get_elem?-last [] x = refl
get_elem?-last (a ∷ xs) x = get_elem?-last xs x

-- A new file under the key of its path.
pub keep_file-Keyed :
    (fs : FileSystem) (impl : ArtifactLoader) (mapped_file : MappedFile)
    → find (normalize_path_key fs mapped_file.path) impl.mapped_file_indices ≡ none
    → Loaded fs impl.load_mode mapped_file
    → Keyed fs impl
    → Keyed fs (keep_file impl (normalize_path_key fs mapped_file.path) mapped_file)
unfolding keep_file
keep_file-Keyed fs impl mapped_file fresh loaded keyed key index e =
    let own = normalize_path_key fs mapped_file.path in
    let placed = find-emplace own key (length impl.mapped_files) impl.mapped_file_indices fresh in
    elim (Bool-cases (str_eq own key)) [
      | inl hit ↦
          let same : own ≡ key = (str_eq_iff own key).0 hit in
          let last : length impl.mapped_files ≡ index = some-injective _ _ (ground arith) in
          record {
            mapped_file = mapped_file;
            there =
                subst
                  (λ (i : ℕ).
                    get_elem? (impl.mapped_files ++ (mapped_file ∷ [])) i ≡ some mapped_file)
                  last (get_elem?-last impl.mapped_files mapped_file);
            leads = sym (normalize_path_key-location fs mapped_file.path) ∙ same;
            loaded = loaded;
          }
      | inr miss ↦
          let before = keyed key index (ground arith) in
          record {
            mapped_file = before.mapped_file;
            there =
                get_elem?-append impl.mapped_files (mapped_file ∷ []) index before.mapped_file
                  before.there;
            leads = before.leads;
            loaded = before.loaded;
          }
    ]
