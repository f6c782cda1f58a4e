-- ===== src/MemoryBudget/Split.antt =====
-- What the summary promises, where no sum wraps.
use native.Mathlib.Nat.{mod-lt, mod-eq_of_lt, div-add-mod'}
use nemotron_inference.Base.{
  ℕ, ◌+◌, ◌*◌, ◌/◌, ◌≤◌, ◌<◌, ◌≡◌, refl, sym, ap, ◌∙◌, ◌↔◌, inl, inr, Bool-cases, true, false, not,
  arith, leb, ◌==◌, if◌then◌else◌, sub64, mul64, word,
}
use nemotron_inference.MemoryBudget.{
  RuntimeMemoryProfile, ServiceMemoryTarget, MemoryBudgetSummary, saturating_add,
  resolve_planning_total_memory_bytes, bytes_for_exact_prefix_node, active_kv, active_mamba,
  reserved, build_memory_budget_summary,
}

-- The bytes that the service needs beside the cache, without wrapping.
abbrev pub needed : RuntimeMemoryProfile → ServiceMemoryTarget → ℕ
needed profile target =
    target.weights_bytes
    + target.workspace_bytes
    + target.graph_bytes
    + target.safety_headroom_bytes
    + profile.kv_bytes_per_token * target.target_context_tokens * target.target_active_requests
    + profile.current_mamba_state_bytes * target.target_active_requests

-- The bytes of a node with a full context, without wrapping: the keys and values of its tokens, a Mamba
-- state, and the metadata.
abbrev pub full_node : RuntimeMemoryProfile → ServiceMemoryTarget → ℕ
full_node profile target =
    profile.kv_bytes_per_token * target.target_context_tokens
    + profile.current_mamba_state_bytes
    + profile.reusable_node_metadata_bytes

-- The summary splits the planning total.
pub record Splits (total need node : ℕ) (s : MemoryBudgetSummary) : Type 0 where
  pub decides : (s.fits ≡ true) ↔ (need ≤ total)
  pub all_used : s.fits ≡ true → s.shared_cache_budget_bytes + need ≡ total
  pub none_left : s.fits ≡ false → s.shared_cache_budget_bytes ≡ 0
  pub node_size : s.bytes_per_full_context_node ≡ node
  pub nodes_fit : s.max_full_context_nodes * node ≤ s.shared_cache_budget_bytes
  pub no_more : 0 < node → s.shared_cache_budget_bytes < s.max_full_context_nodes * node + node

module _ (profile : RuntimeMemoryProfile) (target : ServiceMemoryTarget) where
  reserved-needed :
      needed profile target < word
      → profile.kv_bytes_per_token * target.target_context_tokens < word
      → reserved profile target ≡ needed profile target
  unfolding reserved
  reserved-needed small context =
      let kv : active_kv profile target
          ≡ profile.kv_bytes_per_token * target.target_context_tokens
            * target.target_active_requests =
        ap (λ n. mul64 n target.target_active_requests) (mod-eq_of_lt context)
        ∙ mod-eq_of_lt (omega arith) in
      let mamba : active_mamba profile target
          ≡ profile.current_mamba_state_bytes * target.target_active_requests =
        mod-eq_of_lt (omega arith) in
      rw (kv, mamba) (omega arith)

  -- The split, for a total and a need that are words.
  split :
      (total need node : ℕ) (s : MemoryBudgetSummary)
      → total < word
      → need < word
      → s.fits ≡ leb need total
      → s.shared_cache_budget_bytes ≡ (if leb need total then sub64 total need else 0)
      → s.bytes_per_full_context_node ≡ node
      → s.max_full_context_nodes
        ≡ (if not (node == 0) then s.shared_cache_budget_bytes / node else 0)
      → Splits total need node s
  split total need node s total_small need_small fits shared size nodes = record {
    node_size = size;
    decides = (λ h. ground arith, λ h. ground arith);
    all_used = λ h.
        let le : leb need total ≡ true = sym fits ∙ h in
        let left : s.shared_cache_budget_bytes ≡ sub64 total need = shared ∙ rw le refl in
        let order : need ≤ total = ground arith in omega arith;
    none_left = λ h. let le : leb need total ≡ false = sym fits ∙ h in shared ∙ rw le refl;
    nodes_fit = elim (Bool-cases (node == 0)) [
      | inl z ↦
          let count : s.max_full_context_nodes ≡ 0 = nodes ∙ rw z refl in rw count (omega arith)
      | inr p ↦
          let count : s.max_full_context_nodes ≡ s.shared_cache_budget_bytes / node =
            nodes ∙ rw p refl in
          let whole = div-add-mod' s.shared_cache_budget_bytes node in rw count (omega arith)
    ];
    no_more = λ pos.
        let p : (node == 0) ≡ false = ground arith in
        let count : s.max_full_context_nodes ≡ s.shared_cache_budget_bytes / node =
          nodes ∙ rw p refl in
        let whole = div-add-mod' s.shared_cache_budget_bytes node in
        let rest = mod-lt s.shared_cache_budget_bytes pos in rw count (omega arith);
  }

  -- What the code computes for a node.
  bytes_for_exact_prefix_node-full_node :
      full_node profile target < word
      → bytes_for_exact_prefix_node profile target.target_context_tokens ≡ full_node profile target
  unfolding bytes_for_exact_prefix_node
  bytes_for_exact_prefix_node-full_node node =
      let kv : mul64 profile.kv_bytes_per_token target.target_context_tokens
          ≡ profile.kv_bytes_per_token * target.target_context_tokens =
        mod-eq_of_lt (omega arith) in
      rw kv (omega arith)

  -- `BuildMemoryBudgetSummary`, where the need beside the cache, the bytes of a node with a full context
  -- and the planning total are words: the service fits exactly when the need is within the total, then
  -- the cache gets all that is left, and otherwise nothing. A node has the keys and values of its tokens,
  -- a Mamba state and the metadata, and the number of nodes is the greatest that fits the cache, unless a
  -- node has no bytes.
  pub build_memory_budget_summary-Splits :
      needed profile target < word
      → full_node profile target < word
      → (resolve_planning_total_memory_bytes target).0 < word
      → Splits
          (resolve_planning_total_memory_bytes target).0
          (needed profile target)
          (full_node profile target)
          (build_memory_budget_summary profile target)
  unfolding build_memory_budget_summary
  build_memory_budget_summary-Splits small node total =
      let exact = reserved-needed small (omega arith) in
      let full = bytes_for_exact_prefix_node-full_node node in
      let summary = build_memory_budget_summary profile target in
      split (resolve_planning_total_memory_bytes target).0 (needed profile target)
        (full_node profile target) summary total small
        (ap (λ n. leb n (resolve_planning_total_memory_bytes target).0) exact)
        (ap
          (λ n.
            if leb n (resolve_planning_total_memory_bytes target).0
            then sub64 (resolve_planning_total_memory_bytes target).0 n
            else 0)
          exact)
        full (ap (λ n. if not (n == 0) then summary.shared_cache_budget_bytes / n else 0) full)

-- `ResolvePlanningTotalMemoryBytes` never plans with more than the host has, where a snapshot is
-- used, nor with more than the target, where it names a total. The snapshot's numbers are words.
pub resolve_planning_total_memory_bytes-le :
    (target : ServiceMemoryTarget)
    → target.host_memory_snapshot.mem_available_bytes < word
    → target.host_memory_snapshot.swap_free_bytes < word
    → ((resolve_planning_total_memory_bytes target).1 ≡ true
        → (resolve_planning_total_memory_bytes target).0
          ≤ target.host_memory_snapshot.mem_available_bytes
            + target.host_memory_snapshot.swap_free_bytes)
      × (0 < target.total_memory_bytes
          → (resolve_planning_total_memory_bytes target).0 ≤ target.total_memory_bytes)
unfolding resolve_planning_total_memory_bytes saturating_add
resolve_planning_total_memory_bytes-le target available swap =
    (λ used. ground arith, λ positive. ground arith)
