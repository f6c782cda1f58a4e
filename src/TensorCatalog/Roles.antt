-- ===== src/TensorCatalog/Roles.antt =====
-- The roles of a tensor's auxiliaries: the scan notes each that occurs.
use nemotron_inference.Base.{
  ℕ, ◌≡◌, refl, ap, sym, subst, ◌∙◌, inl, inr, ◌⊎◌, ◌↔◌, true, false, List, [], ◌∷◌, ◌++◌, some,
  arith, append_assoc, append_nil, string_key, str_eq, str_eq_iff, text, member, member_iff, Among,
  Bool-cases,
}
use nemotron_inference.Manifest.{TensorAuxiliaryManifest}
use nemotron_inference.Manifest.Complete.{Unique, auxiliary_names}
use nemotron_inference.ArtifactLoader.{AuxiliaryArtifactView}
use nemotron_inference.TensorCatalog.{
  block_scales, tensor_scale, TensorAuxiliaryDescriptor, classify_auxiliary_role, AuxiliaryScan,
  note_role, scan_auxiliary, scan_auxiliaries,
}

-- A descriptor for each auxiliary that has a view.
abbrev pub described :
    List TensorAuxiliaryManifest → List AuxiliaryArtifactView → List TensorAuxiliaryDescriptor
described [] views = []
described (entry ∷ rest) [] = []
described (entry ∷ rest) (view ∷ views) =
    record { role = classify_auxiliary_role entry.name; manifest_entry = entry; bytes = view.bytes }
    ∷ described rest views

abbrev pub SameLength : List TensorAuxiliaryManifest → List AuxiliaryArtifactView → Type 0
SameLength [] [] = Unit
SameLength [] (_ ∷ _) = ⊥
SameLength (_ ∷ _) [] = ⊥
SameLength (_ ∷ rest) (_ ∷ views) = SameLength rest views

abbrev pub block_name : List ℕ
block_name = text "block_scales"

abbrev pub scale_name : List ℕ
scale_name = text "tensor_scale"

names_apart : str_eq block_name scale_name ≡ false
unfolding str_eq text
names_apart = refl

-- The flags say which of the two names was met.
pub record Saw (taken : List (List ℕ)) (scan : AuxiliaryScan) : Type 0 where
  pub block : scan.saw_block_scales ≡ member block_name taken
  pub scale : scan.saw_tensor_scale ≡ member scale_name taken

-- What noting a role does, where the role is new.
record Noted (taken : List (List ℕ)) (name : List ℕ) (scan noted : AuxiliaryScan) : Type 0 where
  pub block : noted.saw_block_scales ≡ member block_name (name ∷ taken)
  pub scale : noted.saw_tensor_scale ≡ member scale_name (name ∷ taken)
  pub issues : noted.issues ≡ scan.issues
  pub auxiliaries : noted.auxiliaries ≡ scan.auxiliaries

new_name :
    (taken : List (List ℕ)) (name key : List ℕ)
    → ¬ Among name taken
    → str_eq name key ≡ true
    → member key taken ≡ false
new_name taken name key fresh e =
    let same : name ≡ key = (str_eq_iff name key).0 e in
    elim (Bool-cases (member key taken)) [
      | inr absent ↦ absent
      | inl there ↦
          absurd (fresh (subst (λ t. Among t taken) (sym same) ((member_iff key taken).0 there)))
    ]

note_block-Noted :
    (tensor_name : List ℕ) (taken : List (List ℕ)) (name : List ℕ) (scan : AuxiliaryScan)
    → Saw taken scan
    → ¬ Among name taken
    → str_eq name block_name ≡ true
    → Noted taken name scan (note_role tensor_name block_scales scan)
unfolding note_role member
note_block-Noted tensor_name taken name scan saw fresh e =
    let same : name ≡ block_name = (str_eq_iff name block_name).0 e in
    let other : str_eq name scale_name ≡ false =
      subst (λ t. str_eq t scale_name ≡ false) (sym same) names_apart in
    let unseen : scan.saw_block_scales ≡ false =
      saw.block ∙ new_name taken name block_name fresh e in
    let scale = saw.scale in
    record { block = ground arith; scale = ground arith; issues = ground arith; auxiliaries = refl }

note_scale-Noted :
    (tensor_name : List ℕ) (taken : List (List ℕ)) (name : List ℕ) (scan : AuxiliaryScan)
    → Saw taken scan
    → ¬ Among name taken
    → str_eq name block_name ≡ false
    → str_eq name scale_name ≡ true
    → Noted taken name scan (note_role tensor_name tensor_scale scan)
unfolding note_role member
note_scale-Noted tensor_name taken name scan saw fresh other e =
    let unseen : scan.saw_tensor_scale ≡ false =
      saw.scale ∙ new_name taken name scale_name fresh e in
    let block = saw.block in
    record { block = ground arith; scale = ground arith; issues = ground arith; auxiliaries = refl }

note_role-Noted :
    (tensor_name : List ℕ) (taken : List (List ℕ)) (name : List ℕ) (scan : AuxiliaryScan)
    → Saw taken scan
    → ¬ Among name taken
    → Noted taken name scan (note_role tensor_name (classify_auxiliary_role name) scan)
unfolding classify_auxiliary_role note_role member
note_role-Noted tensor_name taken name scan saw fresh = elim (Bool-cases (str_eq name block_name)) [
  | inl e ↦
      rw (e, classify_auxiliary_role) (note_block-Noted tensor_name taken name scan saw fresh e)
  | inr e ↦ elim (Bool-cases (str_eq name scale_name)) [
    | inl g ↦
        rw (e, g, classify_auxiliary_role)
          (note_scale-Noted tensor_name taken name scan saw fresh e g)
    | inr g ↦
        let block = saw.block in
        let scale = saw.scale in
        rw (e, g, classify_auxiliary_role)
          (record { block = ground arith; scale = ground arith; issues = refl; auxiliaries = refl })
  ]
]

abbrev pub after_names : List (List ℕ) → List (List ℕ) → List (List ℕ)
after_names taken [] = taken
after_names taken (name ∷ rest) = after_names (name ∷ taken) rest

pub record Scanned (taken : List (List ℕ)) (entries : List TensorAuxiliaryManifest)
    (views : List AuxiliaryArtifactView) (before after : AuxiliaryScan) : Type 0 where
  pub saw : Saw (after_names taken (auxiliary_names entries)) after
  pub issues : after.issues ≡ before.issues
  pub auxiliaries : after.auxiliaries ≡ before.auxiliaries ++ described entries views

pub scan_auxiliaries-Scanned :
    (tensor_name : List ℕ) (taken : List (List ℕ)) (entries : List TensorAuxiliaryManifest)
    (views : List AuxiliaryArtifactView) (scan : AuxiliaryScan)
    → Saw taken scan
    → Unique taken (auxiliary_names entries)
    → SameLength entries views
    → (after : AuxiliaryScan) × (scan_auxiliaries tensor_name entries views scan ≡ some after)
      × Scanned taken entries views scan after
unfolding scan_auxiliaries scan_auxiliary
scan_auxiliaries-Scanned tensor_name taken [] [] scan saw unique same = (
  scan,
  refl,
  record { saw = saw; issues = refl; auxiliaries = sym (append_nil scan.auxiliaries) },
)
scan_auxiliaries-Scanned tensor_name taken [] (_ ∷ _) scan saw unique same = absurd same
scan_auxiliaries-Scanned tensor_name taken (_ ∷ _) [] scan saw unique same = absurd same
scan_auxiliaries-Scanned tensor_name taken (entry ∷ entries) (view ∷ views) scan saw unique same =
    let noted = note_role-Noted tensor_name taken entry.name scan saw unique.0 in
    let next = scan_auxiliary tensor_name entry view scan in
    let (after, run, ih) =
      scan_auxiliaries-Scanned tensor_name (entry.name ∷ taken) entries views next
        (record { block = noted.block; scale = noted.scale }) unique.1 same in
    let added : TensorAuxiliaryDescriptor = record {
      role = classify_auxiliary_role entry.name;
      manifest_entry = entry;
      bytes = view.bytes;
    } in
    (
      after,
      run,
      record {
        saw = ih.saw;
        issues = ih.issues ∙ noted.issues;
        auxiliaries =
            ih.auxiliaries
            ∙ (ap (λ t. (t ++ (added ∷ [])) ++ described entries views) noted.auxiliaries
                ∙ append_assoc scan.auxiliaries (added ∷ []) (described entries views));
      },
    )

pub Among-after_names :
    (key : List ℕ) (taken names : List (List ℕ))
    → Among key (after_names taken names) ↔ (Among key taken ⊎ Among key names)
Among-after_names key taken [] = ground arith
Among-after_names key taken (name ∷ rest) =
    ground (arith, Among-after_names key (name ∷ taken) rest)
