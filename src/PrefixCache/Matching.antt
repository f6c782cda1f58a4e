-- ===== src/PrefixCache/Matching.antt =====
-- What the tests on identities decide: equality, and the prefix relation.
use nemotron_inference.Base.{
  ℕ, ◌≤◌, ◌≡◌, refl, inl, inr, Bool-cases, Bool, true, false, ◌↔◌, List, [], ◌∷◌, ◌++◌, arith, ◌==◌,
  length, length-append, str_eq_iff,
}
use nemotron_inference.PrefixCache.Identity.{
  SerializedPromptIdentity, same_bool, same_identity, common_length, prefix_match_length,
  prefix_matches,
}

same_bool→eq : (a b : Bool) → same_bool a b ≡ true → a ≡ b
unfolding same_bool
same_bool→eq true b h = ground arith
same_bool→eq false b h = ground arith

same_bool_refl : (a : Bool) → same_bool a a ≡ true
unfolding same_bool
same_bool_refl a = ground arith

-- `same_identity` holds of one identity only.
pub same_identity→eq : (a b : SerializedPromptIdentity) → same_identity a b ≡ true → a ≡ b
unfolding same_identity
same_identity→eq a b h = ground (
  arith,
  same_bool→eq a.reasoning_mode b.reasoning_mode,
  str_eq_iff a.tenant_namespace b.tenant_namespace,
  str_eq_iff a.tokenizer_revision b.tokenizer_revision,
  str_eq_iff a.serializer_revision b.serializer_revision,
  str_eq_iff a.model_revision b.model_revision,
  str_eq_iff a.token_ids b.token_ids,
)

pub same_identity_refl : (a : SerializedPromptIdentity) → same_identity a a ≡ true
unfolding same_identity
same_identity_refl a = ground (
  arith,
  same_bool_refl a.reasoning_mode,
  str_eq_iff a.tenant_namespace a.tenant_namespace,
  str_eq_iff a.tokenizer_revision a.tokenizer_revision,
  str_eq_iff a.serializer_revision a.serializer_revision,
  str_eq_iff a.model_revision a.model_revision,
  str_eq_iff a.token_ids a.token_ids,
)

-- The metadata that an identity and a request must share.
pub record SameMetadata (a b : SerializedPromptIdentity) : Type 0 where
  pub reasoning_mode : a.reasoning_mode ≡ b.reasoning_mode
  pub tenant_namespace : a.tenant_namespace ≡ b.tenant_namespace
  pub tokenizer_revision : a.tokenizer_revision ≡ b.tokenizer_revision
  pub serializer_revision : a.serializer_revision ≡ b.serializer_revision
  pub model_revision : a.model_revision ≡ b.model_revision

-- The cached tokens begin the request's tokens.
abbrev pub IsTokenPrefix : List ℕ → List ℕ → Type 0
IsTokenPrefix cached request = (rest : List ℕ) × (request ≡ cached ++ rest)

common_length-le : (cached request : List ℕ) → common_length cached request ≤ length cached
unfolding common_length
common_length-le [] request = omega arith
common_length-le (c ∷ cached) [] = omega arith
common_length-le (c ∷ cached) (r ∷ request) = ground (arith, common_length-le cached request)

common_length-IsTokenPrefix :
    (cached request : List ℕ)
    → common_length cached request ≡ length cached
    → IsTokenPrefix cached request
unfolding common_length
common_length-IsTokenPrefix [] request h = (request, refl)
common_length-IsTokenPrefix (c ∷ cached) [] h = absurd (omega arith)
common_length-IsTokenPrefix (c ∷ cached) (r ∷ request) h = elim (Bool-cases (c == r)) [
  | inl e ↦
      let (rest, q) = common_length-IsTokenPrefix cached request (ground arith) in
      (rest, ground arith)
  | inr e ↦ absurd (ground arith)
]

common_length-append :
    (cached rest : List ℕ) → common_length cached (cached ++ rest) ≡ length cached
unfolding common_length
common_length-append [] rest = refl
common_length-append (c ∷ cached) rest = ground (arith, common_length-append cached rest)

prefix_match_length→IsTokenPrefix :
    (cached request : List ℕ)
    → prefix_match_length cached request ≡ length cached
    → IsTokenPrefix cached request
unfolding prefix_match_length
prefix_match_length→IsTokenPrefix [] request h = (request, refl)
prefix_match_length→IsTokenPrefix (c ∷ cached) request h =
    common_length-IsTokenPrefix (c ∷ cached) request (ground arith)

IsTokenPrefix→prefix_match_length :
    (cached request : List ℕ)
    → IsTokenPrefix cached request
    → prefix_match_length cached request ≡ length cached
unfolding prefix_match_length
IsTokenPrefix→prefix_match_length cached request (rest, e) =
    ground (arith, common_length-append cached rest, length-append cached rest)

-- A cached identity matches a request exactly when all the metadata agree and the cached tokens are
-- a prefix of the requested ones.
pub prefix_matches_iff :
    (cached request : SerializedPromptIdentity)
    → (prefix_matches cached request ≡ true)
      ↔ (SameMetadata cached request × IsTokenPrefix cached.token_ids request.token_ids)
unfolding prefix_matches
prefix_matches_iff cached request = (sound, complete)
  where
    sound :
        prefix_matches cached request ≡ true
        → SameMetadata cached request × IsTokenPrefix cached.token_ids request.token_ids
    sound h = (
      ground (
        arith,
        same_bool→eq cached.reasoning_mode request.reasoning_mode,
        str_eq_iff cached.tenant_namespace request.tenant_namespace,
        str_eq_iff cached.tokenizer_revision request.tokenizer_revision,
        str_eq_iff cached.serializer_revision request.serializer_revision,
        str_eq_iff cached.model_revision request.model_revision,
      ),
      prefix_match_length→IsTokenPrefix cached.token_ids request.token_ids (ground arith),
    )

    complete :
        SameMetadata cached request × IsTokenPrefix cached.token_ids request.token_ids
        → prefix_matches cached request ≡ true
    complete (m, p) = ground (
      arith,
      m.reasoning_mode,
      m.tenant_namespace,
      m.tokenizer_revision,
      m.serializer_revision,
      m.model_revision,
      same_bool_refl request.reasoning_mode,
      str_eq_iff cached.tenant_namespace request.tenant_namespace,
      str_eq_iff cached.tokenizer_revision request.tokenizer_revision,
      str_eq_iff cached.serializer_revision request.serializer_revision,
      str_eq_iff cached.model_revision request.model_revision,
      IsTokenPrefix→prefix_match_length cached.token_ids request.token_ids p,
    )
