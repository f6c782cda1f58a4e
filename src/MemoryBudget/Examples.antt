-- ===== src/MemoryBudget/Examples.antt =====
-- A concrete service: the theorems at inputs that meet their hypotheses.
use nemotron_inference.Base.{◌≡◌, refl, true, [], ◌∷◌, some, mul64, text, arith}
use nemotron_inference.ModelSchedule.{starts_with}
use nemotron_inference.MemoryBudget.Meminfo.{read_host_memory_snapshot_from_proc_meminfo}
use nemotron_inference.MemoryBudget.Printed.{printed, contents_of}
use nemotron_inference.MemoryBudget.Snapshot.{
  meminfo, snapshot_of, read_host_memory_snapshot_from_proc_meminfo-printed,
}
use nemotron_inference.MemoryBudget.{
  RuntimeMemoryProfile, ServiceMemoryTarget, saturating_add, resolve_planning_total_memory_bytes,
  build_memory_budget_summary,
}
use nemotron_inference.MemoryBudget.Split.{
  Splits, needed, full_node, build_memory_budget_summary-Splits,
}

abbrev profile : RuntimeMemoryProfile
profile = record {
  kv_bytes_per_token = 10;
  current_mamba_state_bytes = 100;
  reusable_node_metadata_bytes = 5;
}

-- The host has less than the target names.
abbrev target : ServiceMemoryTarget
target = record {
  total_memory_bytes = 100000;
  weights_bytes = 20000;
  workspace_bytes = 1000;
  graph_bytes = 500;
  safety_headroom_bytes = 500;
  target_active_requests = 2;
  target_context_tokens = 1000;
  host_memory_snapshot = record {
    mem_available_bytes = 60000;
    swap_free_bytes = 4000;
    valid = true;
  };
  prefer_host_memory_snapshot = true;
}

planning_total : (resolve_planning_total_memory_bytes target).0 ≡ 64000
unfolding resolve_planning_total_memory_bytes saturating_add
planning_total = refl

build_memory_budget_summary-Splits_example :
    Splits
      (resolve_planning_total_memory_bytes target).0
      (needed profile target)
      (full_node profile target)
      (build_memory_budget_summary profile target)
build_memory_budget_summary-Splits_example =
    build_memory_budget_summary-Splits profile target (omega arith) (omega arith)
      (omega (arith, planning_total))

read_host_memory_snapshot_from_proc_meminfo-printed_example :
    read_host_memory_snapshot_from_proc_meminfo (
      some (
        contents_of (
          meminfo
            (text "MemTotal: 9000 kB" ∷ [])
            (printed (text "MemAvailable:") 3 4000)
            (text "Cached: 5 kB" ∷ [])
            (printed (text "SwapFree:") 7 250)
            [])))
    ≡ snapshot_of (mul64 4000 1024) (mul64 250 1024)
unfolding text starts_with
read_host_memory_snapshot_from_proc_meminfo-printed_example =
    read_host_memory_snapshot_from_proc_meminfo-printed (text "MemTotal: 9000 kB" ∷ [])
      (text "Cached: 5 kB" ∷ []) [] 3 7 4000 250 (ground arith) (ground arith) tt (omega arith)
      (omega arith)
