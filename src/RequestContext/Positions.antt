-- ===== src/RequestContext/Positions.antt =====
-- `SetSequenceLength` and `AdvanceDecodePosition`: where the positions go.
use nemotron_inference.Base.{
  ℕ, ◌≤◌, ◌<◌, ◌≡◌, refl, ◌⊎◌, inl, inr, Bool-cases, false, some, arith, ltb, if◌then◌else◌, word,
  length,
}
use nemotron_inference.KvPages.{PagedKvCacheArena}
use nemotron_inference.RequestContext.{RequestExecutionContext, set_sequence_length, all_ids}
use nemotron_inference.RequestContext.Ownership.{Owns}
use nemotron_inference.RequestContext.Growth.{Grown, ensure_attention_tokens-Grown}

-- The positions of a request are in order and within its limit, which is a word.
pub record Placed (c : RequestExecutionContext) : Type 0 where
  pub behind : c.decode_position ≤ c.sequence_length
  pub within : c.sequence_length ≤ c.config.max_tokens
  pub small : c.config.max_tokens < word

abbrev pub moved : RequestExecutionContext → ℕ → ℕ → RequestExecutionContext
moved c sequence_length decode_position = record c {
  sequence_length = sequence_length;
  decode_position = decode_position;
}

abbrev pub grown :
    (c : RequestExecutionContext) (tokens : ℕ) → Grown c tokens → RequestExecutionContext
grown c tokens g = record c { kv_arena = some g.arena; kv_pages_by_layer = g.layers }

module _ (c : RequestExecutionContext) (arena : PagedKvCacheArena) (there : c.kv_arena ≡ some arena)
    (o : Owns arena (all_ids c.kv_pages_by_layer))
    (layers : length c.kv_pages_by_layer ≤ arena.config.layer_count) where
  Grown-at : (s d : ℕ) → s ≤ c.config.max_tokens → Grown (moved c s d) s
  Grown-at s d h = ensure_attention_tokens-Grown (moved c s d) arena s there o layers h

  -- `SetSequenceLength` of a request that owns its arena: a length over the limit is refused and
  -- changes nothing. Otherwise both positions are set to it, the pages grow for it, and the result
  -- says whether there were enough; the positions stay set if there were not.
  pub set_sequence_length_decides :
      (n : ℕ)
      → ((g : Grown (moved c n n) n) × (set_sequence_length c n
            ≡ some (grown (moved c n n) n g, g.ok))
          × (n ≤ c.config.max_tokens))
        ⊎ ((set_sequence_length c n ≡ some (c, false)) × (c.config.max_tokens < n))
  unfolding set_sequence_length
  set_sequence_length_decides n = elim (Bool-cases (ltb c.config.max_tokens n)) [
    | inl over ↦ inr (rw over refl, ground arith)
    | inr fits ↦
        let g = Grown-at n n (ground arith) in
        inl (g, ground (arith, fits, g.returns), ground arith)
  ]

  abbrev pub longest : ℕ → ℕ → ℕ
  longest a b = if ltb a b then b else a
