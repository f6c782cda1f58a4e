-- ===== src/Lib.antt =====
-- The loading of models, the state and the caches of the Nemotron inference runtime
-- (runtime/include/nemotron, runtime/src).
--
-- A packed model is a manifest, a JSON file that lists the tensors and the files their bytes are in.
-- It is parsed (`Json`), read (`ManifestFile`) and checked (`Manifest`), and its files are verified. Then
-- `ArtifactLoader` maps the files, `TensorCatalog` describes each tensor with the views of its bytes,
-- `WeightArena` places them in one arena of device memory, and `ModelSchedule` orders the layers that
-- their names speak of.
--
-- A request reaches the runtime as a serialized prompt. `PrefixCache` remembers, for prompts that
-- were served before, where their attention and Mamba states are kept; the states themselves are
-- blocks of `ReusableStateArena`, which counts the references to them and holds them under a budget
-- of bytes. The cache retains a state when a node takes it up and releases it when the node goes.
--
-- Which file models what:
--   ReusableState      runtime/src/cache/reusable_state.cpp and its header: the handles, the
--                      descriptors, and the operations Allocate, AllocateDescriptor, Retain, Release
--                      and Describe of the arena. Its child modules prove the theorems (Validity,
--                      Admission, Lifetime, Blocks, Pairs, Bundles, Equality), and Examples runs them.
--   PrefixCache        runtime/src/cache/prefix_cache.cpp and its header. Identity has the identity of
--                      a prompt (fingerprint_identity, same_identity, node_bytes, PrefixMatches), State
--                      the members of PrefixCache::Impl and Reset, SetEnabled, Nodes the steps on nodes
--                      (RemoveNode, Touch, FindOrCreateNode, EvictToBudget), Publish the roles and the
--                      two publish operations, Lookup the queries. The other child modules prove the
--                      theorems: Sound, Index, Heads and Consistency the invariant, Search, Oldest,
--                      Evict, Leave, Roles and Prepare the steps, Publishing, Published, Roots, Lookups,
--                      Requests, Isolation and Resume the operations.
--   KvPages            runtime/src/attention/paged_kv_cache.cpp and its header: the arena of key-value pages,
--                      with Create, AllocatePages, ReleasePages, InspectPage and the page geometry. Order
--                      and Pages have the lemmas on free lists and page tables, Validity the invariant,
--                      Taking and Allocation, Release, Return and Sizes the theorems.
--   AttentionPlan      runtime/src/attention/paged_attention_plan.cpp and its header: the page table of a
--                      batch, over the page arena. Checks, Table and Plans prove the theorems.
--   RequestContext     runtime/src/backend/request_context.cpp and its header: the positions of a request
--                      and its pages in its own arena, with EnsureAttentionTokens, SetSequenceLength,
--                      AdvanceDecodePosition and ResetForNewRequest. Ownership ties the pages to the
--                      arena, Given says what the layers get; Growth, Positions and Reset prove the
--                      theorems. The tensors are device
--                      memory: whether they could be zeroed is an argument.
--   MemoryBudget       runtime/src/planning/memory_budget.cpp and its header: the planning total and the
--                      split of the memory, with Split; Meminfo has the reading of /proc/meminfo, with
--                      Printed and Snapshot.
--   GemmExecution      runtime/src/loader/gemm_execution.cpp and the heuristic cache of
--                      runtime/src/loader/gemm_planner.cpp: the preparation of a matrix product and
--                      the choice of its algorithm, with Repeat; Planner has BuildGemmLaunchPlan and the
--                      GemmDescriptor of runtime/src/loader/gemm_catalog.cpp, Planned its theorem.
--   ScaleLayout        runtime/src/backend/nvfp4_scale_layout.cpp and its header: the padded layout of the
--                      block scales and their swizzle; Padding proves the theorem.
--   Manifest           runtime/include/nemotron/manifest.h and ValidateManifest of
--                      runtime/src/loader/manifest.cpp. Complete says what a well-formed manifest is,
--                      without the loops, WellFormed proves it; Sample is a small one.
--   Json               the JsonParser of runtime/src/loader/manifest.cpp, its bytes in Scanner. Advance and Consumed prove that it
--                      ends, the others and RoundTrip that it reads back what Printer writes. Printer
--                      is a description of JSON text, which the sources do not write.
--   ManifestFile       the rest of runtime/src/loader/manifest.cpp: the readers of fields
--                      (Fields) and LoadManifestFromJsonFile; Files has VerifyManifestFiles, the checksums and
--                      LoadVerifiedManifestFromJsonFile. Checksums, Ranges, Verified and Loaded prove the
--                      theorems.
--   ArtifactLoader     runtime/src/loader/artifact_loader.cpp and its header; Platform has the views and
--                      what the operating system does. Reads, Located, Views,
--                      Opened, Covers and Served prove the theorems; Disk is a small file system.
--   TensorCatalog      runtime/src/loader/tensor_catalog.cpp and its header. Roles, Scan, Built and Opened prove the
--                      theorems, Opened on top of those of ArtifactLoader.
--   WeightArena        runtime/src/loader/weight_arena_plan.cpp and its header. Align, Laid, Placed and Plan prove
--                      the theorem.
--   ModelSchedule      runtime/src/loader/model_schedule.cpp and its header; Names has what the name of
--                      a tensor says. Paths is about the names of
--                      tensors, Expected, Layers and Order about the layers.
--   Base               what they share: tests into Bool, lists over the native numbers, 64-bit words,
--                      maps, sums over maps, texts and decimal numbers.
--
-- How the code is modelled:
--   * Functions take the state and return it; an arena or a cache is a record with the members of the
--     class. The cache holds the arena that its constructor was given a pointer to, as an optional
--     field, since it is the arena's only user while one of its methods runs.
--   * std::size_t and std::uint64_t are natural numbers below 2 ^ 64, with the remainder written out
--     where the code adds, subtracts or multiplies (add64, sub64, mul64). Theorems that need a sum not
--     to wrap say so. Characters and tokens are numbers, strings are lists of bytes.
--   * std::unordered_map is an association list, whose order stands for the iteration order that C++
--     leaves open; the theorems hold for each order.
--   * A vector that is used as a stack (the free page ids) is listed from its end. A std::int32_t or a
--     token id is its bit pattern. An index out of range of AllocatePages is `none` of an option.
--   * The exception of `nodes.at` is `none` of an option; the theorems show that a consistent cache
--     never raises it. Allocation failure of the C++ library is not modelled.
--   * What the operating system says of a file (records FileSystem and ManifestFiles) is an argument of
--     the loader: the paths, the sizes, the bytes of a stream, the results of open, mmap and read.
--   * The JSON parser is recursive descent; it runs on fuel, twice the size of the text and one, which is
--     enough since each call of ParseValue takes a byte (`parse_json-ends`). A std::int64_t is a sign and
--     a number. The loops that read a file and that hash its bytes have one round for each byte and one
--     more.
--   * The loop of EvictToBudget runs on fuel, one round for each node. That is enough, since each round
--     removes a node and an empty cache ends the loop; `evict_to_budget-Evicted` includes that it ends
--     within the budget.
--
-- Not modelled: the device code (kernels, cuDNN and cuBLASLt runners, tensors and layers), which is
-- numerics behind vendor libraries, the load plan and the catalogs of kernels, matrix products and
-- embeddings, and the tools, benchmarks and tests.
pub mod ArtifactLoader
pub mod AttentionPlan
pub mod Base
pub mod GemmExecution
pub mod Json
pub mod KvPages
pub mod Manifest
pub mod RequestContext
pub mod ReusableState
pub mod ScaleLayout
pub mod TensorCatalog
pub mod WeightArena
pub mod ManifestFile
pub mod MemoryBudget
pub mod ModelSchedule
pub mod PrefixCache
