-- ===== src/PrefixCache/Identity.antt =====
-- The identity of a serialized prompt: its fingerprint, its equality and the prefix test of
-- prefix_cache.cpp. Strings are lists of bytes, and a TokenId is the 32-bit pattern of its integer.
use Prim.Native.Nat.{bit_xor}
use nemotron_inference.Base.{
  ℕ, suc, ◌+◌, ◌-◌, ◌^◌, Bool, true, false, ◌&&◌, ◌||◌, not, List, [], ◌∷◌, ltb, ◌==◌,
  if◌then◌else◌, add64, mul64, word, length, str_eq,
}
use nemotron_inference.ReusableState.{ReusableStateDescriptor, total_bytes}

pub record SerializedPromptIdentity : Type 0 where
  pub token_ids : List ℕ
  pub tenant_namespace : List ℕ
  pub tokenizer_revision : List ℕ
  pub serializer_revision : List ℕ
  pub model_revision : List ℕ
  pub reasoning_mode : Bool

unfoldable pub fnv1a_append : ℕ → ℕ → ℕ
fnv1a_append hash value = mul64 (bit_xor hash value) 1099511628211

unfoldable pub hash_string : ℕ → List ℕ → ℕ
hash_string hash [] = hash
hash_string hash (ch ∷ rest) = hash_string (fnv1a_append hash ch) rest

-- static_cast<std::uint64_t>(static_cast<std::int64_t>(token)): the sign bit is copied upwards.
unfoldable pub widen_token : ℕ → ℕ
widen_token token = if ltb token (2 ^ 31) then token else token + (word - 2 ^ 32)

unfoldable pub hash_tokens : ℕ → List ℕ → ℕ
hash_tokens hash [] = hash
hash_tokens hash (token ∷ rest) = hash_tokens (fnv1a_append hash (widen_token token)) rest

unfoldable pub fingerprint_identity : SerializedPromptIdentity → ℕ
unfolding fnv1a_append hash_string widen_token hash_tokens
fingerprint_identity identity =
    let h0 = hash_string 1469598103934665603 identity.tenant_namespace in
    let h1 = hash_string h0 identity.tokenizer_revision in
    let h2 = hash_string h1 identity.serializer_revision in
    let h3 = hash_string h2 identity.model_revision in
    let h4 = fnv1a_append h3 (if identity.reasoning_mode then 1 else 0) in
    let h5 = fnv1a_append h4 (length identity.token_ids) in hash_tokens h5 identity.token_ids

unfoldable pub same_bool : Bool → Bool → Bool
same_bool true b = b
same_bool false b = not b

unfoldable pub same_identity : SerializedPromptIdentity → SerializedPromptIdentity → Bool
same_identity lhs rhs =
    same_bool lhs.reasoning_mode rhs.reasoning_mode
    && (str_eq lhs.tenant_namespace rhs.tenant_namespace
        && (str_eq lhs.tokenizer_revision rhs.tokenizer_revision
            && (str_eq lhs.serializer_revision rhs.serializer_revision
                && (str_eq lhs.model_revision rhs.model_revision
                    && str_eq lhs.token_ids rhs.token_ids))))

-- sizeof(TokenId) is 4.
unfoldable pub node_bytes : SerializedPromptIdentity → ReusableStateDescriptor → ℕ
unfolding total_bytes
node_bytes identity state =
    add64
      (add64
        (add64
          (add64 (add64 (mul64 (length identity.token_ids) 4) (length identity.tenant_namespace))
            (length identity.tokenizer_revision))
          (length identity.serializer_revision))
        (length identity.model_revision))
      (total_bytes state)

-- The loop of `PrefixMatchLength`: the number of leading tokens that agree.
unfoldable pub common_length : List ℕ → List ℕ → ℕ
common_length [] request = 0
common_length (c ∷ cached) [] = 0
common_length (c ∷ cached) (r ∷ request) =
    let rest = common_length cached request in if c == r then suc rest else 0

unfoldable pub prefix_match_length : List ℕ → List ℕ → ℕ
prefix_match_length cached_tokens request_tokens =
    if ltb (length request_tokens) (length cached_tokens)
    then 0
    else common_length cached_tokens request_tokens

unfoldable pub prefix_matches : SerializedPromptIdentity → SerializedPromptIdentity → Bool
prefix_matches cached request =
    if not (same_bool cached.reasoning_mode request.reasoning_mode)
      || (not (str_eq cached.tenant_namespace request.tenant_namespace)
          || (not (str_eq cached.tokenizer_revision request.tokenizer_revision)
              || (not (str_eq cached.serializer_revision request.serializer_revision)
                  || not (str_eq cached.model_revision request.model_revision))))
    then false
    else prefix_match_length cached.token_ids request.token_ids == length cached.token_ids
