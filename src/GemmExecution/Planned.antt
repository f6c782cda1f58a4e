-- ===== src/GemmExecution/Planned.antt =====
-- The keys of the plans of one descriptor tell the numbers of activation rows apart.
use nemotron_inference.Base.{
  ℕ, ◌≡◌, refl, ap, sym, ◌∙◌, inl, inr, false, List, [], ◌∷◌, ◌++◌, some, arith, ◌==◌,
  if◌then◌else◌, text, to_string, append-injective, to_string-injective, string_key, find-assign,
  str_eq, str_eq_iff, Bool-cases,
}
use nemotron_inference.GemmExecution.{
  GemmLaunchPlan, GemmHeuristicCache, empty_key, store, lookup_algorithm,
}
use nemotron_inference.GemmExecution.Planner.{
  GemmDescriptor, heuristic_key_prefix, build_gemm_launch_plan,
}

built :
    (descriptor : GemmDescriptor) (activation_rows : ℕ) (plan : GemmLaunchPlan)
    → build_gemm_launch_plan descriptor activation_rows ≡ some plan
    → plan.heuristic_key
      ≡ heuristic_key_prefix descriptor ++ (text "|m=" ++ to_string activation_rows)
unfolding build_gemm_launch_plan
built descriptor activation_rows plan e = ground arith

key-injective :
    (prefix : List ℕ) (m other : ℕ)
    → prefix ++ (text "|m=" ++ to_string m) ≡ prefix ++ (text "|m=" ++ to_string other)
    → m ≡ other
key-injective prefix m other e = to_string-injective m other (
    append-injective (text "|m=") (to_string m) (to_string other)
      (append-injective prefix (text "|m=" ++ to_string m) (text "|m=" ++ to_string other) e))

keyed : (prefix : List ℕ) (m : ℕ) → empty_key (prefix ++ (text "|m=" ++ to_string m)) ≡ false
unfolding empty_key text
keyed [] m = refl
keyed (ch ∷ prefix) m = refl

key_same_iff :
    (prefix : List ℕ) (m other : ℕ)
    → str_eq (prefix ++ (text "|m=" ++ to_string m)) (prefix ++ (text "|m=" ++ to_string other))
      ≡ (m == other)
key_same_iff prefix m other =
    let same =
      str_eq_iff (prefix ++ (text "|m=" ++ to_string m))
        (prefix ++ (text "|m=" ++ to_string other)) in
    elim (Bool-cases (m == other)) [
      | inl e ↦
          let eq : m ≡ other = ground arith in
          same.1 (ap (λ n. prefix ++ (text "|m=" ++ to_string n)) eq) ∙ sym e
      | inr e ↦ ground (arith, same, key-injective prefix m other)
    ]

-- Of the plans that BuildGemmLaunchPlan makes for one descriptor, storing an algorithm for one number of
-- activation rows is seen by the plans for that number, and by no other.
pub store-build_gemm_launch_plan :
    (cache : GemmHeuristicCache) (descriptor : GemmDescriptor) (m other algorithm_id : ℕ)
    (plan other_plan : GemmLaunchPlan)
    → build_gemm_launch_plan descriptor m ≡ some plan
    → build_gemm_launch_plan descriptor other ≡ some other_plan
    → lookup_algorithm (store cache plan algorithm_id).0 other_plan
      ≡ (if m == other then some algorithm_id else lookup_algorithm cache other_plan)
unfolding store lookup_algorithm
store-build_gemm_launch_plan cache descriptor m other algorithm_id plan other_plan e o =
    let prefix = heuristic_key_prefix descriptor in
    let written =
      find-assign (prefix ++ (text "|m=" ++ to_string m))
        (prefix ++ (text "|m=" ++ to_string other)) algorithm_id cache in
    rw
      (
        built descriptor m plan e,
        built descriptor other other_plan o,
        keyed prefix m,
        ← key_same_iff prefix m other,
      )
      written
