-- ===== src/PrefixCache/Requests.antt =====
-- `Lookup` as a whole: the branches of the request.
use nemotron_inference.Base.{
  ℕ, ◌≡◌, refl, ◌∙◌, inl, inr, Bool-cases, Option-cases, true, false, List, none, some, arith,
  nat_key, string_key,
}
use nemotron_inference.PrefixCache.State.{PrefixCache, CacheLookupRequest, CacheMatch, no_match}
use nemotron_inference.PrefixCache.Lookup.{lookup_root, lookup_committed, lookup_prompt, lookup}
use nemotron_inference.PrefixCache.Consistency.{IsConsistent}
use nemotron_inference.PrefixCache.Lookups.{
  RootAnswer, CommittedAnswer, PromptAnswer, Returns, lookup_root-Returns, lookup_committed-Returns,
  lookup_prompt-Returns,
}

-- The answer to a request, by what the request asks for.
pub data LookupAnswer (c : PrefixCache) (request : CacheLookupRequest) (d : PrefixCache)
    (m : CacheMatch) : Type 0 where
  disabled : c.enabled ≡ false → d ≡ c → m ≡ no_match → LookupAnswer c request d m
  roots_only :
      request.conversation_id ≡ none
      → RootAnswer c request.identity d m
      → LookupAnswer c request d m
  committed_first :
      (x : List ℕ)
      → request.conversation_id ≡ some x
      → request.allow_prompt_head ≡ false
      → CommittedAnswer c request.identity x d m
      → LookupAnswer c request d m
  prompt_first :
      (x : List ℕ)
      → request.conversation_id ≡ some x
      → request.allow_prompt_head ≡ true
      → PromptAnswer c request.identity x d m
      → LookupAnswer c request d m

-- The branches of `Lookup`.
module _ (c : PrefixCache) (request : CacheLookupRequest) where
  lookup_off : c.enabled ≡ false → lookup c request ≡ some (c, no_match)
  unfolding lookup
  lookup_off off = ground (arith, off)

  lookup_roots :
      c.enabled ≡ true
      → request.conversation_id ≡ none
      → lookup c request ≡ lookup_root c request.identity
  unfolding lookup
  lookup_roots on anyone = ground (arith, on, anyone)

  pub lookup_prompts :
      c.enabled ≡ true
      → (x : List ℕ) → request.conversation_id ≡ some x
      → request.allow_prompt_head ≡ true
      → lookup c request ≡ lookup_prompt c request.identity x
  unfolding lookup
  lookup_prompts on x someone allowed = ground (arith, on, someone, allowed)

  pub lookup_committeds :
      c.enabled ≡ true
      → (x : List ℕ) → request.conversation_id ≡ some x
      → request.allow_prompt_head ≡ false
      → lookup c request ≡ lookup_committed c request.identity x
  unfolding lookup
  lookup_committeds on x someone forbidden = ground (arith, on, someone, forbidden)

-- On a consistent cache `Lookup` returns, and answers in this order: the conversation's prompt head,
-- where the request allows it, then its committed head, each if it matches the request, then the
-- longest global root that matches, if it is not empty, and then nothing. An answer names the node,
-- its number of tokens and its state, and marks it as used; without an answer nothing changes.
pub lookup-LookupAnswer :
    (c : PrefixCache) (request : CacheLookupRequest)
    → IsConsistent c
    → Returns c request.identity (LookupAnswer c request) (lookup c request)
lookup-LookupAnswer c request v = elim (Bool-cases c.enabled) [
  | inr off ↦ (c, no_match, lookup_off c request off, disabled off refl refl)
  | inl on ↦ elim (Option-cases request.conversation_id) [
    | inl anyone ↦
        let (d, m, e, answer) = lookup_root-Returns c request.identity v in
        (d, m, lookup_roots c request on anyone ∙ e, roots_only anyone answer)
    | inr (x, someone) ↦ elim (Bool-cases request.allow_prompt_head) [
      | inl allowed ↦
          let (d, m, e, answer) = lookup_prompt-Returns c request.identity x v in
          (
            d,
            m,
            lookup_prompts c request on x someone allowed ∙ e,
            prompt_first x someone allowed answer,
          )
      | inr forbidden ↦
          let (d, m, e, answer) = lookup_committed-Returns c request.identity x v in
          (
            d,
            m,
            lookup_committeds c request on x someone forbidden ∙ e,
            committed_first x someone forbidden answer,
          )
    ]
  ]
]
