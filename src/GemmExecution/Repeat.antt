-- ===== src/GemmExecution/Repeat.antt =====
-- Preparing the same plan again.
use nemotron_inference.Base.{
  ◌≡◌, inl, inr, Bool-cases, Option-cases, true, false, some, arith, string_key, find, find-assign,
  str_eq_iff,
}
use mathlib.Core.Option
use nemotron_inference.GemmExecution.{
  GemmLaunchPlan, PreparedGemmExecution, GemmHeuristicCache, empty_key, store, lookup_algorithm,
  fnv1a64, choose_algorithm, plan_ready, scales_ready, prepare_gemm_execution,
}

-- A plan with a key finds the algorithm that was chosen for it, and the choice stays.
pub choose_algorithm-again :
    (cache : GemmHeuristicCache) (plan : GemmLaunchPlan)
    → empty_key plan.heuristic_key ≡ false
    → choose_algorithm (choose_algorithm (some cache) plan).0 plan
      ≡ ((choose_algorithm (some cache) plan).0, ((choose_algorithm (some cache) plan).1.0, true))
unfolding choose_algorithm lookup_algorithm store
choose_algorithm-again cache plan keyed = elim (Option-cases (find plan.heuristic_key cache)) [
  | inr (id, e) ↦ ground (arith, e)
  | inl e ↦
      let written =
        find-assign plan.heuristic_key plan.heuristic_key (fnv1a64 plan.heuristic_key) cache in
      let own = str_eq_iff plan.heuristic_key plan.heuristic_key in
      ground (arith, e, keyed, written, own)
]

ready_keyed :
    (plan : GemmLaunchPlan) → plan_ready plan ≡ true → empty_key plan.heuristic_key ≡ false
unfolding plan_ready
ready_keyed plan h = ground arith

abbrev pub from_cache : PreparedGemmExecution → PreparedGemmExecution
from_cache e = record e { algorithm_from_cache = true }

-- Preparing a plan again, with the cache that the first preparation left: the result is the same, but
-- for the mark that the algorithm comes from the cache, and the cache stays as it is. A plan that was
-- refused is refused again.
pub prepare_gemm_execution-again :
    (plan : GemmLaunchPlan) (cache : GemmHeuristicCache)
    → prepare_gemm_execution plan (prepare_gemm_execution plan (some cache)).0 ≡ (
      (prepare_gemm_execution plan (some cache)).0,
      Option.map from_cache (prepare_gemm_execution plan (some cache)).1,
    )
unfolding prepare_gemm_execution
prepare_gemm_execution-again plan cache = elim (Bool-cases (plan_ready plan)) [
  | inr refused ↦ ground (arith, refused)
  | inl ready ↦
      let again = choose_algorithm-again cache plan (ready_keyed plan ready) in
      elim (Bool-cases (scales_ready plan)) [
        | inl scaled ↦ ground (arith, ready, scaled, again)
        | inr plain ↦ ground (arith, ready, plain, again)
      ]
]
