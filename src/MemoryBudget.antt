-- ===== src/MemoryBudget.antt =====
-- runtime/include/nemotron/memory_budget.h and runtime/src/planning/memory_budget.cpp: the split of
-- the memory between the weights, the active requests and the shared cache.
use Prim.Native.Nat.{min}
use nemotron_inference.Base.{
  ℕ, ◌+◌, ◌-◌, ◌*◌, ◌/◌, ◌≡◌, Bool, true, false, ◌||◌, not, ltb, leb, ◌==◌, if◌then◌else◌, add64,
  sub64, mul64, word,
}
pub mod Meminfo
pub mod Printed
pub mod Snapshot
pub mod Split
mod Examples

pub record RuntimeMemoryProfile : Type 0 where
  pub kv_bytes_per_token : ℕ
  pub current_mamba_state_bytes : ℕ
  pub reusable_node_metadata_bytes : ℕ

pub record HostMemorySnapshot : Type 0 where
  pub mem_available_bytes : ℕ
  pub swap_free_bytes : ℕ
  pub valid : Bool

pub record ServiceMemoryTarget : Type 0 where
  pub total_memory_bytes : ℕ
  pub weights_bytes : ℕ
  pub workspace_bytes : ℕ
  pub graph_bytes : ℕ
  pub safety_headroom_bytes : ℕ
  pub target_active_requests : ℕ
  pub target_context_tokens : ℕ
  pub host_memory_snapshot : HostMemorySnapshot
  pub prefer_host_memory_snapshot : Bool

pub record MemoryBudgetSummary : Type 0 where
  pub planning_total_memory_bytes : ℕ
  pub host_mem_available_bytes : ℕ
  pub host_swap_free_bytes : ℕ
  pub active_kv_bytes : ℕ
  pub active_mamba_bytes : ℕ
  pub reserved_non_cache_bytes : ℕ
  pub shared_cache_budget_bytes : ℕ
  pub bytes_per_full_context_node : ℕ
  pub max_full_context_nodes : ℕ
  pub used_host_memory_snapshot : Bool
  pub fits : Bool

unfoldable pub saturating_add : ℕ → ℕ → ℕ
saturating_add lhs rhs = if ltb (word - 1 - rhs) lhs then word - 1 else add64 lhs rhs

-- The planning total, and whether the host snapshot was used for it.
unfoldable pub resolve_planning_total_memory_bytes : ServiceMemoryTarget → ℕ × Bool
resolve_planning_total_memory_bytes target =
    let planning_total = target.total_memory_bytes in
    if not target.prefer_host_memory_snapshot || not target.host_memory_snapshot.valid
    then (planning_total, false)
    else (let host_budget =
          saturating_add target.host_memory_snapshot.mem_available_bytes
            target.host_memory_snapshot.swap_free_bytes in
        if host_budget == 0
        then (planning_total, false)
        else (if planning_total == 0
            then (host_budget, true)
            else (min planning_total host_budget, true)))

unfoldable pub bytes_for_exact_prefix_node : RuntimeMemoryProfile → ℕ → ℕ
bytes_for_exact_prefix_node profile prefix_tokens =
    add64 (add64 (mul64 profile.kv_bytes_per_token prefix_tokens) profile.current_mamba_state_bytes)
      profile.reusable_node_metadata_bytes

abbrev pub active_kv : RuntimeMemoryProfile → ServiceMemoryTarget → ℕ
active_kv profile target =
    mul64 (mul64 profile.kv_bytes_per_token target.target_context_tokens)
      target.target_active_requests

abbrev pub active_mamba : RuntimeMemoryProfile → ServiceMemoryTarget → ℕ
active_mamba profile target = mul64 profile.current_mamba_state_bytes target.target_active_requests

unfoldable pub reserved : RuntimeMemoryProfile → ServiceMemoryTarget → ℕ
reserved profile target =
    add64
      (add64
        (add64 (add64 (add64 target.weights_bytes target.workspace_bytes) target.graph_bytes)
          target.safety_headroom_bytes)
        (active_kv profile target))
      (active_mamba profile target)

unfoldable pub build_memory_budget_summary :
    RuntimeMemoryProfile → ServiceMemoryTarget → MemoryBudgetSummary
build_memory_budget_summary profile target =
    let (total, used) = resolve_planning_total_memory_bytes target in
    let fits = leb (reserved profile target) total in
    let shared = if fits then sub64 total (reserved profile target) else 0 in
    let node = bytes_for_exact_prefix_node profile target.target_context_tokens in
    record {
      planning_total_memory_bytes = total;
      host_mem_available_bytes = target.host_memory_snapshot.mem_available_bytes;
      host_swap_free_bytes = target.host_memory_snapshot.swap_free_bytes;
      active_kv_bytes = active_kv profile target;
      active_mamba_bytes = active_mamba profile target;
      reserved_non_cache_bytes = reserved profile target;
      shared_cache_budget_bytes = shared;
      bytes_per_full_context_node = node;
      max_full_context_nodes = if not (node == 0) then shared / node else 0;
      used_host_memory_snapshot = used;
      fits = fits;
    }
