-- ===== src/GemmExecution.antt =====
-- runtime/src/loader/gemm_execution.cpp and the heuristic cache of runtime/src/loader/gemm_planner.cpp,
-- with their headers. A pointer is its address, 0 for null; a plan's pointer to its descriptor is not
-- read here and left out.
use Prim.Native.Nat.{bit_xor}
use nemotron_inference.Base.{
  ℕ, ◌≡◌, Bool, true, false, ◌&&◌, ◌||◌, not, List, [], ◌∷◌, Option, none, some, ◌==◌,
  if◌then◌else◌, mul64, length, string_key, find, assign,
}
pub mod Repeat
pub mod Planner
pub mod Planned
mod Examples

pub record ByteRangeView : Type 0 where
  pub address : ℕ
  pub size : ℕ

unfoldable pub range_valid : ByteRangeView → Bool
range_valid range = not (range.address == 0) && not (range.size == 0)

pub data GemmKernelFamily : Type 0 where
  dense_row_major cublas_lt_nvfp4_block_scaled : GemmKernelFamily

pub record GemmLaunchPlan : Type 0 where
  pub kernel_family : GemmKernelFamily
  pub m : ℕ
  pub n : ℕ
  pub k : ℕ
  pub uses_block_scales : Bool
  pub packed_bytes : ByteRangeView
  pub block_scales_bytes : ByteRangeView
  pub tensor_scale_bytes : ByteRangeView
  pub heuristic_key : List ℕ

-- `algorithm_ids_by_key_`
abbrev pub GemmHeuristicCache : Type 0
GemmHeuristicCache = List (List ℕ × ℕ)

unfoldable pub empty_key : List ℕ → Bool
empty_key [] = true
empty_key (_ ∷ _) = false

unfoldable pub store : GemmHeuristicCache → GemmLaunchPlan → ℕ → GemmHeuristicCache × Bool
unfolding empty_key
store cache launch_plan algorithm_id =
    if empty_key launch_plan.heuristic_key
    then (cache, false)
    else (assign launch_plan.heuristic_key algorithm_id cache, true)

unfoldable pub lookup_algorithm : GemmHeuristicCache → GemmLaunchPlan → Option ℕ
lookup_algorithm cache launch_plan = find launch_plan.heuristic_key cache

unfoldable pub cache_size : GemmHeuristicCache → ℕ
cache_size cache = length cache

unfoldable pub fnv1a64_from : ℕ → List ℕ → ℕ
fnv1a64_from hash [] = hash
fnv1a64_from hash (ch ∷ rest) = fnv1a64_from (mul64 (bit_xor hash ch) 1099511628211) rest

unfoldable pub fnv1a64 : List ℕ → ℕ
fnv1a64 text = fnv1a64_from 1469598103934665603 text

pub data GemmBackendKind : Type 0 where
  cublas_lt_dense cublas_lt_nvfp4 : GemmBackendKind

pub record PreparedGemmExecution : Type 0 where
  pub launch_plan : GemmLaunchPlan
  pub backend_kind : GemmBackendKind
  pub algorithm_id : ℕ
  pub algorithm_from_cache : Bool
  pub workspace_bytes : ℕ
  pub requires_block_scales : Bool
  pub requires_tensor_scale : Bool

abbrev pub prepared : GemmLaunchPlan → GemmBackendKind → Bool → ℕ → Bool → PreparedGemmExecution
prepared launch_plan backend scaled algorithm_id from_cache = record {
  launch_plan = launch_plan;
  backend_kind = backend;
  algorithm_id = algorithm_id;
  algorithm_from_cache = from_cache;
  workspace_bytes = 0;
  requires_block_scales = scaled;
  requires_tensor_scale = scaled;
}

-- The choice of the algorithm, with a cache or without one.
unfoldable pub choose_algorithm :
    Option GemmHeuristicCache → GemmLaunchPlan → Option GemmHeuristicCache × (ℕ × Bool)
choose_algorithm none launch_plan = (none, (fnv1a64 launch_plan.heuristic_key, false))
choose_algorithm (some cache) launch_plan = elim (lookup_algorithm cache launch_plan) [
  | some algorithm_id ↦ (some cache, (algorithm_id, true))
  | none ↦
      let algorithm_id = fnv1a64 launch_plan.heuristic_key in
      let (stored, _) = store cache launch_plan algorithm_id in (some stored, (algorithm_id, false))
]

-- The guards in front.
unfoldable pub plan_ready : GemmLaunchPlan → Bool
unfolding range_valid empty_key
plan_ready launch_plan =
    not (launch_plan.m == 0 || (launch_plan.n == 0 || launch_plan.k == 0))
    && (range_valid launch_plan.packed_bytes && not (empty_key launch_plan.heuristic_key))

unfoldable pub scales_ready : GemmLaunchPlan → Bool
unfolding range_valid
scales_ready launch_plan =
    range_valid launch_plan.block_scales_bytes && range_valid launch_plan.tensor_scale_bytes

unfoldable pub prepare_gemm_execution :
    GemmLaunchPlan
    → Option GemmHeuristicCache
    → Option GemmHeuristicCache × Option PreparedGemmExecution
prepare_gemm_execution launch_plan cache =
    if not (plan_ready launch_plan) then (cache, none) else elim launch_plan.kernel_family [
      | dense_row_major ↦
          let (after, (algorithm_id, from_cache)) = choose_algorithm cache launch_plan in
          (after, some (prepared launch_plan cublas_lt_dense false algorithm_id from_cache))
      | cublas_lt_nvfp4_block_scaled ↦
          if not (scales_ready launch_plan)
          then (cache, none)
          else (let (after, (algorithm_id, from_cache)) = choose_algorithm cache launch_plan in
              (after, some (prepared launch_plan cublas_lt_nvfp4 true algorithm_id from_cache)))
    ]
