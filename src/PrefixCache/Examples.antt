-- ===== src/PrefixCache/Examples.antt =====
-- Concrete caches: the theorems at inputs that meet their hypotheses, and runs of the code.
use mathlib.Core.Option.{some-injective}
use nemotron_inference.Base.{
  ℕ, ◌≡◌, refl, sym, ap, ◌∙◌, ◌↔◌, true, false, List, [], ◌∷◌, none, some, arith, find, emplace,
  assign, modify, erase, nat_key, string_key, str_eq,
}
use nemotron_inference.ReusableState.{
  ReusableStateDescriptor, attention_kv, mamba_recurrent, total_bytes, same_descriptor, same_kind,
  same_handle,
}
use nemotron_inference.PrefixCache.Identity.{
  SerializedPromptIdentity, fnv1a_append, hash_string, widen_token, hash_tokens,
  fingerprint_identity, same_bool, same_identity, node_bytes, common_length, prefix_match_length,
  prefix_matches,
}
use nemotron_inference.PrefixCache.State.{
  PrefixCache, CacheLookupRequest, CacheMatch, committed_head, prompt_head, new_cache, is_empty,
  node_has_roles, retain_in, release_in, no_source,
}
use nemotron_inference.PrefixCache.Nodes.{
  same_entry, erase_from_index, erase_head, erase_heads, remove_found, remove_node, touch,
  equal_range, search_range, reuse_node, create_node, find_or_create_node, oldest, evict_loop,
  evict_to_budget,
}
use nemotron_inference.PrefixCache.Publish.{
  remove_conversation_role, leave_head, assign_conversation_head, assign_global_root,
  finish_publish, publish_conversation_head, publish_global_root,
}
use nemotron_inference.PrefixCache.Lookup.{
  build_match, match_head, best_root, lookup_root, lookup_committed, lookup_prompt, lookup,
}
use nemotron_inference.PrefixCache.Matching.{SameMetadata, IsTokenPrefix, prefix_matches_iff}
use nemotron_inference.PrefixCache.Consistency.{IsConsistent, new_cache-IsConsistent}
use nemotron_inference.PrefixCache.Evict.{Evicted, evict_to_budget-Evicted}
use nemotron_inference.PrefixCache.Publishing.{Publication, HasRoom, IsHead, IsRoot}
use nemotron_inference.PrefixCache.Published.{
  publish_conversation_head-Publication, publish_global_root-Publication,
}
use nemotron_inference.PrefixCache.Lookups.{Returns}
use nemotron_inference.PrefixCache.Requests.{LookupAnswer, lookup-LookupAnswer}
use nemotron_inference.PrefixCache.Isolation.{Served, lookup-Served}
use nemotron_inference.PrefixCache.Resume.{
  Resumes, head_request, head_source, publish_conversation_head-Resumes,
}

-- Unfolds what the runs below compute with.
program : Unit {0}
unfolding fnv1a_append hash_string widen_token hash_tokens fingerprint_identity same_bool
    same_identity node_bytes common_length prefix_match_length prefix_matches total_bytes
    same_descriptor same_kind same_handle new_cache is_empty node_has_roles retain_in release_in
    same_entry erase_from_index erase_head erase_heads remove_found remove_node touch equal_range
    search_range reuse_node create_node find_or_create_node oldest evict_loop evict_to_budget
    remove_conversation_role leave_head assign_conversation_head assign_global_root finish_publish
    publish_conversation_head publish_global_root build_match match_head best_root lookup_root
    lookup_committed lookup_prompt lookup find emplace assign modify erase str_eq
program = tt

-- The tenant "t", the revisions "1", "2" and "3".
abbrev prompt_of : List ℕ → SerializedPromptIdentity
prompt_of tokens = record {
  token_ids = tokens;
  tenant_namespace = 116 ∷ [];
  tokenizer_revision = 49 ∷ [];
  serializer_revision = 50 ∷ [];
  model_revision = 51 ∷ [];
  reasoning_mode = false;
}

abbrev hello : SerializedPromptIdentity
hello = prompt_of (5 ∷ 6 ∷ [])

abbrev hello_again : SerializedPromptIdentity
hello_again = prompt_of (5 ∷ 6 ∷ 7 ∷ [])

abbrev alice : List ℕ
alice = 97 ∷ []

abbrev state_of : ℕ → ReusableStateDescriptor
state_of bytes = record {
  kv_state = record { id = 1; kind = attention_kv; bytes = bytes };
  mamba_state = record { id = 2; kind = mamba_recurrent; bytes = 8 };
}

abbrev start : PrefixCache
start = record {
  max_bytes = 60;
  current_bytes = 0;
  tick = 1;
  next_node_id = 1;
  nodes = [];
  nodes_by_fingerprint = [];
  committed_heads = [];
  prompt_heads = [];
  state_arena = none;
  enabled = true;
}

start-IsConsistent : IsConsistent start
unfolding program
start-IsConsistent = new_cache-IsConsistent 60 none

-- The root "hello", of 40 bytes.
abbrev rooted : PrefixCache
rooted = record {
  max_bytes = 60;
  current_bytes = 40;
  tick = 3;
  next_node_id = 2;
  nodes =
      (
        1,
        record {
          id = 1;
          identity = hello;
          state = state_of 20;
          fingerprint = fingerprint_identity hello;
          is_global_root = true;
          committed_conversations = [];
          prompt_conversations = [];
          last_access_tick = 2;
          total_bytes = 40;
        },
      )
      ∷ [];
  nodes_by_fingerprint = (fingerprint_identity hello, 1) ∷ [];
  committed_heads = [];
  prompt_heads = [];
  state_arena = none;
  enabled = true;
}

start_run : publish_global_root start hello (state_of 20) ≡ some (rooted, 1)
unfolding program
start_run = refl

hello-HasRoom : HasRoom start hello (state_of 20)
unfolding program
hello-HasRoom = record {
  on = refl;
  within = omega arith;
  bytes = omega arith;
  ids = omega arith;
  ticks = omega arith;
}

publish_global_root-Publication_example :
    Publication start hello (state_of 20) IsRoot (publish_global_root start hello (state_of 20))
publish_global_root-Publication_example =
    publish_global_root-Publication start hello (state_of 20) start-IsConsistent hello-HasRoom

rooted-IsConsistent : IsConsistent rooted
rooted-IsConsistent =
    let p = publish_global_root-Publication_example in
    let same = some-injective _ _ (sym p.returns ∙ start_run) in
    rw (← ap (λ r. r.0) same) p.consistent

again-HasRoom : HasRoom rooted hello_again (state_of 20)
unfolding program
again-HasRoom = record {
  on = refl;
  within = omega arith;
  bytes = omega arith;
  ids = omega arith;
  ticks = omega arith;
}

-- The conversation's head takes the root's place, since both do not fit.
abbrev headed : PrefixCache
headed = record {
  max_bytes = 60;
  current_bytes = 44;
  tick = 5;
  next_node_id = 3;
  nodes =
      (
        2,
        record {
          id = 2;
          identity = hello_again;
          state = state_of 20;
          fingerprint = fingerprint_identity hello_again;
          is_global_root = false;
          committed_conversations = (alice, tt) ∷ [];
          prompt_conversations = [];
          last_access_tick = 4;
          total_bytes = 44;
        },
      )
      ∷ [];
  nodes_by_fingerprint = (fingerprint_identity hello_again, 2) ∷ [];
  committed_heads = (alice, 2) ∷ [];
  prompt_heads = [];
  state_arena = none;
  enabled = true;
}

rooted_run :
    publish_conversation_head rooted alice committed_head hello_again (state_of 20)
    ≡ some (headed, 2)
unfolding program
rooted_run = refl

publish_conversation_head-Publication_example :
    Publication rooted hello_again
      (state_of 20)
      (IsHead committed_head alice)
      (publish_conversation_head rooted alice committed_head hello_again (state_of 20))
publish_conversation_head-Publication_example =
    publish_conversation_head-Publication rooted alice committed_head hello_again (state_of 20)
      rooted-IsConsistent again-HasRoom

headed-IsConsistent : IsConsistent headed
headed-IsConsistent =
    let p = publish_conversation_head-Publication_example in
    let same = some-injective _ _ (sym p.returns ∙ rooted_run) in
    rw (← ap (λ r. r.0) same) p.consistent

hello_prefix : IsTokenPrefix hello_again.token_ids (5 ∷ 6 ∷ 7 ∷ 8 ∷ [])
hello_prefix = (8 ∷ [], refl)

same_metadata : (s t : List ℕ) → SameMetadata (prompt_of s) (prompt_of t)
same_metadata s t = record {
  reasoning_mode = refl;
  tenant_namespace = refl;
  tokenizer_revision = refl;
  serializer_revision = refl;
  model_revision = refl;
}

publish_conversation_head-Resumes_example :
    Resumes headed
      (head_request committed_head alice (prompt_of (5 ∷ 6 ∷ 7 ∷ 8 ∷ [])))
      (head_source committed_head)
      2
      3
      (state_of 20)
unfolding program
publish_conversation_head-Resumes_example =
    publish_conversation_head-Resumes rooted headed alice committed_head hello_again
      (prompt_of (5 ∷ 6 ∷ 7 ∷ 8 ∷ [])) (state_of 20) 2 rooted-IsConsistent again-HasRoom rooted_run
      (omega arith) (same_metadata _ _) hello_prefix

abbrev anyone : List ℕ → CacheLookupRequest
anyone tokens = record {
  identity = prompt_of tokens;
  conversation_id = none;
  allow_prompt_head = true;
}

lookup-LookupAnswer_example :
    Returns rooted
      (prompt_of (5 ∷ 6 ∷ 9 ∷ []))
      (LookupAnswer rooted (anyone (5 ∷ 6 ∷ 9 ∷ [])))
      (lookup rooted (anyone (5 ∷ 6 ∷ 9 ∷ [])))
lookup-LookupAnswer_example =
    lookup-LookupAnswer rooted (anyone (5 ∷ 6 ∷ 9 ∷ [])) rooted-IsConsistent

lookup-Served_example :
    (d : PrefixCache) × (m : CacheMatch) × (lookup headed
        (head_request prompt_head alice hello_again)
      ≡ some (d, m))
    × Served headed (head_request prompt_head alice hello_again) d m
    × IsConsistent d
lookup-Served_example =
    lookup-Served headed (head_request prompt_head alice hello_again) headed-IsConsistent
      (omega arith)

prefix_matches_iff_example :
    (prefix_matches hello hello_again ≡ true)
    ↔ (SameMetadata hello hello_again × IsTokenPrefix hello.token_ids hello_again.token_ids)
prefix_matches_iff_example = prefix_matches_iff hello hello_again

-- The root in a cache whose budget it exceeds.
abbrev crowded : PrefixCache
crowded = record rooted { max_bytes = 30 }

evict_to_budget-Evicted_example : Evicted crowded (evict_to_budget crowded)
evict_to_budget-Evicted_example =
    let s = rooted-IsConsistent.sound in
    evict_to_budget-Evicted crowded
      (record {
        distinct = s.distinct;
        entries = s.entries;
        exact = s.exact;
        small = s.small;
        started = s.started;
      })
      (omega arith)

-- A prompt that the root is longer than misses.
short_miss :
    lookup rooted (anyone (5 ∷ []))
    ≡ some (
      rooted,
      record {
        source = no_source;
        node_id = 0;
        matched_token_count = 0;
        state = record {
          kv_state = record { id = 0; kind = attention_kv; bytes = 0 };
          mamba_state = record { id = 0; kind = attention_kv; bytes = 0 };
        };
      },
    )
unfolding program
short_miss = refl
