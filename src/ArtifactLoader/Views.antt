-- ===== src/ArtifactLoader/Views.antt =====
-- What was mapped stays in view, and a view lies within its file.
use nemotron_inference.Base.{
  ℕ, ◌≡◌, refl, subst, ◌∙◌, inl, inr, ◌||◌, List, [], ◌∷◌, none, some, arith, leb, ◌==◌, word,
  length, get_elem?, string_key, find, find-emplace_kept, Bool-cases, Option-cases,
}
use mathlib.Core.Option.{some-injective}
use nemotron_inference.GemmExecution.{ByteRangeView}
use nemotron_inference.ArtifactLoader.Located.{
  Loaded, load_bytes-InMemory, Keyed, get_elem?-append, keep_file-Keyed,
}
use nemotron_inference.ArtifactLoader.{
  FileSystem, normalize_path_key, MappedFile, ArtifactLoader, view_file, view_range, load_bytes,
  keep_file, map_opened, map_file, map_range,
}

-- A loader after more files were mapped: what was in view still is, and each key still leads to its file.
pub record Extends (fs : FileSystem) (impl after : ArtifactLoader) : Type 0 where
  pub manifest : after.manifest ≡ impl.manifest
  pub path : after.manifest_path ≡ impl.manifest_path
  pub mode : after.load_mode ≡ impl.load_mode
  pub indices : after.tensor_indices ≡ impl.tensor_indices
  pub keyed : Keyed fs impl → Keyed fs after
  pub views :
      (file : List ℕ) (offset_bytes nbytes : ℕ) (bytes : ByteRangeView)
      → view_range fs impl file offset_bytes nbytes ≡ some bytes
      → view_range fs after file offset_bytes nbytes ≡ some bytes

pub Extends-refl : (fs : FileSystem) (impl : ArtifactLoader) → Extends fs impl impl
Extends-refl fs impl = record {
  manifest = refl;
  path = refl;
  mode = refl;
  indices = refl;
  keyed = λ k. k;
  views = λ file offset_bytes nbytes bytes h. h;
}

pub Extends-trans :
    (fs : FileSystem) (a b c : ArtifactLoader) → Extends fs a b → Extends fs b c → Extends fs a c
Extends-trans fs a b c h k = record {
  manifest = k.manifest ∙ h.manifest;
  path = k.path ∙ h.path;
  mode = k.mode ∙ h.mode;
  indices = k.indices ∙ h.indices;
  keyed = λ start. k.keyed (h.keyed start);
  views = λ file offset_bytes nbytes bytes v.
      k.views file offset_bytes nbytes bytes (h.views file offset_bytes nbytes bytes v);
}

-- Where a view comes from.
pub record InFile (fs : FileSystem) (impl : ArtifactLoader) (file : List ℕ)
    (offset_bytes nbytes : ℕ) (bytes : ByteRangeView) : Type 0 where
  pub index : ℕ
  pub mapped_file : MappedFile
  pub found : find (normalize_path_key fs file) impl.mapped_file_indices ≡ some index
  pub there : get_elem? impl.mapped_files index ≡ some mapped_file
  pub viewed : view_file mapped_file offset_bytes nbytes ≡ some bytes

pub view_range-InFile :
    (fs : FileSystem) (impl : ArtifactLoader) (file : List ℕ) (offset_bytes nbytes : ℕ)
    (bytes : ByteRangeView)
    → view_range fs impl file offset_bytes nbytes ≡ some bytes
    → InFile fs impl file offset_bytes nbytes bytes
unfolding view_range
view_range-InFile fs impl file offset_bytes nbytes bytes v =
    elim (Option-cases (find (normalize_path_key fs file) impl.mapped_file_indices)) [
      | inl e ↦ absurd (ground arith)
      | inr (index, e) ↦ elim (Option-cases (get_elem? impl.mapped_files index)) [
        | inl g ↦ absurd (ground arith)
        | inr (mapped_file, g) ↦ record {
          index = index;
          mapped_file = mapped_file;
          found = e;
          there = g;
          viewed = ground arith;
        }
      ]
    ]

InFile-view_range :
    (fs : FileSystem) (impl : ArtifactLoader) (file : List ℕ) (offset_bytes nbytes : ℕ)
    (bytes : ByteRangeView)
    → InFile fs impl file offset_bytes nbytes bytes
    → view_range fs impl file offset_bytes nbytes ≡ some bytes
unfolding view_range
InFile-view_range fs impl file offset_bytes nbytes bytes h =
    rw (h.found, h.there, view_range) h.viewed

keep_file-Extends :
    (fs : FileSystem) (impl : ArtifactLoader) (mapped_file : MappedFile)
    → find (normalize_path_key fs mapped_file.path) impl.mapped_file_indices ≡ none
    → Loaded fs impl.load_mode mapped_file
    → Extends fs impl (keep_file impl (normalize_path_key fs mapped_file.path) mapped_file)
unfolding keep_file
keep_file-Extends fs impl mapped_file fresh loaded = record {
  mode = refl;
  keyed = keep_file-Keyed fs impl mapped_file fresh loaded;
  manifest = refl;
  path = refl;
  indices = refl;
  views = λ file offset_bytes nbytes bytes v.
      let key = normalize_path_key fs mapped_file.path in
      let h = view_range-InFile fs impl file offset_bytes nbytes bytes v in
      InFile-view_range fs (keep_file impl key mapped_file) file offset_bytes nbytes bytes (record {
        index = h.index;
        mapped_file = h.mapped_file;
        found =
            find-emplace_kept key (normalize_path_key fs file) (length impl.mapped_files) h.index
              impl.mapped_file_indices h.found;
        there = get_elem?-append impl.mapped_files (mapped_file ∷ []) h.index h.mapped_file h.there;
        viewed = h.viewed;
      });
}

map_opened-Extends :
    (fs : FileSystem) (impl after : ArtifactLoader) (file : List ℕ) (size : ℕ)
    → find (normalize_path_key fs file) impl.mapped_file_indices ≡ none
    → fs.file_size file ≡ some size
    → map_opened fs impl file size ≡ some after
    → Extends fs impl after
unfolding map_opened
map_opened-Extends fs impl after file size fresh sized opened =
    elim (Option-cases (fs.open_file file)) [
      | inl e ↦ absurd (ground arith)
      | inr (fd, e) ↦ elim (Option-cases (load_bytes fs impl.load_mode fd size)) [
        | inl g ↦ absurd (ground arith)
        | inr (address, g) ↦
            let mapped_file : MappedFile = record {
              load_mode = impl.load_mode;
              path = file;
              fd = fd;
              size = size;
              address = address;
            } in
            let key = normalize_path_key fs file in
            let same : some (keep_file impl key mapped_file) ≡ some after = ground arith in
            subst (Extends fs impl) (some-injective _ _ same) (
              keep_file-Extends fs impl mapped_file fresh (record {
                mode_is = refl;
                sized = sized;
                opened = e;
                in_memory = load_bytes-InMemory fs impl.load_mode fd size address g;
              }))
      ]
    ]

map_file-Extends :
    (fs : FileSystem) (impl after : ArtifactLoader) (file : List ℕ)
    → map_file fs impl file ≡ some after
    → Extends fs impl after
unfolding map_file
map_file-Extends fs impl after file mapped =
    elim (Option-cases (find (normalize_path_key fs file) impl.mapped_file_indices)) [
      | inr (index, e) ↦
          let same : some impl ≡ some after = ground arith in
          subst (Extends fs impl) (some-injective _ _ same) (Extends-refl fs impl)
      | inl e ↦ elim (Option-cases (fs.file_size file)) [
        | inl g ↦ absurd (ground arith)
        | inr (size, g) ↦ elim (Bool-cases (size == 0 || leb word size)) [
          | inl bad ↦ absurd (ground arith)
          | inr good ↦ map_opened-Extends fs impl after file size e g (ground arith)
        ]
      ]
    ]

-- A range that was mapped: the loader only grew, and the range is in view.
pub record MappedRange (fs : FileSystem) (impl after : ArtifactLoader) (file : List ℕ)
    (offset_bytes nbytes : ℕ) : Type 0 where
  pub grown : Extends fs impl after
  pub bytes : ByteRangeView
  pub viewed : view_range fs after file offset_bytes nbytes ≡ some bytes

pub map_range-MappedRange :
    (fs : FileSystem) (impl after : ArtifactLoader) (file : List ℕ) (offset_bytes nbytes : ℕ)
    → map_range fs impl file offset_bytes nbytes ≡ some after
    → MappedRange fs impl after file offset_bytes nbytes
unfolding map_range
map_range-MappedRange fs impl after file offset_bytes nbytes ok =
    elim (Option-cases (map_file fs impl file)) [
      | inl e ↦ absurd (ground arith)
      | inr (mapped, e) ↦ elim (Option-cases (view_range fs mapped file offset_bytes nbytes)) [
        | inl g ↦ absurd (ground arith)
        | inr (bytes, g) ↦
            let same : some mapped ≡ some after = ground arith in
            subst (λ t. MappedRange fs impl t file offset_bytes nbytes) (some-injective _ _ same)
              (record { grown = map_file-Extends fs impl mapped file e; bytes = bytes; viewed = g })
      ]
    ]
