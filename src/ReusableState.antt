-- ===== src/ReusableState.antt =====
-- runtime/include/nemotron/reusable_state.h and runtime/src/cache/reusable_state.cpp: the arena of
-- reference-counted state blocks. Strings are lists of bytes; sizes and ids are 64-bit words.
mod Examples
pub mod Equality
pub mod Validity
pub mod Bundles
pub mod Pairs
pub mod Blocks
pub mod Admission
pub mod Lifetime
use nemotron_inference.Base.{
  ℕ, ◌-◌, Bool, true, false, ◌&&◌, ◌||◌, List, [], ◌∷◌, ◌++◌, Option, none, some, ltb, ◌==◌,
  if◌then◌else◌, add64, sub64, length, not, nat_key, find, emplace, modify, erase,
}

pub data ReusableStateKind : Type 0 where
  attention_kv mamba_recurrent : ReusableStateKind

unfoldable pub same_kind : ReusableStateKind → ReusableStateKind → Bool
same_kind attention_kv attention_kv = true
same_kind attention_kv mamba_recurrent = false
same_kind mamba_recurrent attention_kv = false
same_kind mamba_recurrent mamba_recurrent = true

pub record ReusableStateHandle : Type 0 where
  pub id : ℕ
  pub kind : ReusableStateKind
  pub bytes : ℕ

-- `return {};`
abbrev pub no_handle : ReusableStateHandle
no_handle = record { id = 0; kind = attention_kv; bytes = 0 }

unfoldable pub handle_valid : ReusableStateHandle → Bool
handle_valid h = not (h.id == 0) && not (h.bytes == 0)

unfoldable pub same_handle : ReusableStateHandle → ReusableStateHandle → Bool
same_handle lhs rhs = lhs.id == rhs.id && (same_kind lhs.kind rhs.kind && lhs.bytes == rhs.bytes)

pub record ReusableStateDescriptor : Type 0 where
  pub kv_state : ReusableStateHandle
  pub mamba_state : ReusableStateHandle

abbrev pub no_descriptor : ReusableStateDescriptor
no_descriptor = record { kv_state = no_handle; mamba_state = no_handle }

unfoldable pub descriptor_valid : ReusableStateDescriptor → Bool
unfolding handle_valid
descriptor_valid d = handle_valid d.kv_state && handle_valid d.mamba_state

unfoldable pub total_bytes : ReusableStateDescriptor → ℕ
total_bytes d = add64 d.kv_state.bytes d.mamba_state.bytes

unfoldable pub same_descriptor : ReusableStateDescriptor → ReusableStateDescriptor → Bool
same_descriptor lhs rhs =
    same_handle lhs.kv_state rhs.kv_state && same_handle lhs.mamba_state rhs.mamba_state

pub record StateAllocation : Type 0 where
  pub id : ℕ
  pub kind : ReusableStateKind
  pub label : List ℕ
  pub bytes : ℕ
  pub ref_count : ℕ

pub record ReusableStateArena : Type 0 where
  pub max_bytes : ℕ
  pub next_id : ℕ
  pub current_bytes : ℕ
  pub allocations : List (ℕ × StateAllocation)

-- The constructor, over an Impl with its default fields.
unfoldable pub new_arena : ℕ → ReusableStateArena
new_arena max_bytes = record {
  max_bytes = max_bytes;
  next_id = 1;
  current_bytes = 0;
  allocations = [];
}

abbrev pub new_allocation : ℕ → ReusableStateKind → ℕ → List ℕ → StateAllocation
new_allocation id kind bytes label = record {
  id = id;
  kind = kind;
  label = label;
  bytes = bytes;
  ref_count = 1;
}

-- The accepting part of `Allocate`.
unfoldable pub take_bytes :
    ReusableStateArena → ReusableStateKind → ℕ → List ℕ → ReusableStateArena × ReusableStateHandle
take_bytes a kind bytes label = (
  record a {
    next_id = add64 a.next_id 1;
    current_bytes = add64 a.current_bytes bytes;
    allocations = emplace a.next_id (new_allocation a.next_id kind bytes label) a.allocations;
  },
  record { id = a.next_id; kind = kind; bytes = bytes },
)

unfoldable pub allocate :
    ReusableStateArena → ReusableStateKind → ℕ → List ℕ → ReusableStateArena × ReusableStateHandle
unfolding take_bytes
allocate a kind bytes label =
    if bytes == 0 || ltb a.max_bytes (add64 a.current_bytes bytes)
    then (a, no_handle)
    else take_bytes a kind bytes label

-- The allocation that a handle names, if its kind and size are those of the handle: the guards that
-- `Retain` and `Release` share.
unfoldable pub matching : ReusableStateArena → ReusableStateHandle → Option StateAllocation
unfolding handle_valid same_kind
matching a h =
    if handle_valid h
    then elim (find h.id a.allocations) [
      | none ↦ none
      | some s ↦ if same_kind s.kind h.kind && s.bytes == h.bytes then some s else none
    ]
    else none

-- `++ref_count` and, behind the test for zero, `--ref_count`.
abbrev pub add_reference : StateAllocation → StateAllocation
add_reference s = record s { ref_count = add64 s.ref_count 1 }

abbrev pub sub_reference : StateAllocation → StateAllocation
sub_reference s = record s { ref_count = s.ref_count - 1 }

unfoldable pub retain : ReusableStateArena → ReusableStateHandle → ReusableStateArena × Bool
unfolding matching
retain a h = elim (matching a h) [
  | none ↦ (a, false)
  | some s ↦ (record a { allocations = modify h.id add_reference a.allocations }, true)
]

-- The part of `Release` behind its guards.
unfoldable pub drop_reference :
    ReusableStateArena → ReusableStateHandle → StateAllocation → ReusableStateArena
drop_reference a h s =
    if s.ref_count - 1 == 0
    then record a {
      current_bytes = sub64 a.current_bytes s.bytes;
      allocations = erase h.id a.allocations;
    }
    else record a { allocations = modify h.id sub_reference a.allocations }

unfoldable pub release : ReusableStateArena → ReusableStateHandle → ReusableStateArena
unfolding matching drop_reference
release a h = elim (matching a h) [
  | none ↦ a
  | some s ↦ if s.ref_count == 0 then a else drop_reference a h s
]

unfoldable pub release_descriptor :
    ReusableStateArena → ReusableStateDescriptor → ReusableStateArena
release_descriptor a d = release (release a d.kv_state) d.mamba_state

unfoldable pub retain_descriptor :
    ReusableStateArena → ReusableStateDescriptor → ReusableStateArena × Bool
retain_descriptor a d =
    if descriptor_valid d
    then (let (b, kv) = retain a d.kv_state in
        if kv
        then (let (c, mamba) = retain b d.mamba_state in
            if mamba then (c, true) else (release c d.kv_state, false))
        else (b, false))
    else (a, false)

-- "/kv" and "/mamba"
abbrev kv_suffix : List ℕ
kv_suffix = b'/' ∷ b'k' ∷ b'v' ∷ []

abbrev mamba_suffix : List ℕ
mamba_suffix = b'/' ∷ b'm' ∷ b'a' ∷ b'm' ∷ b'b' ∷ b'a' ∷ []

unfoldable pub allocate_descriptor :
    ReusableStateArena → ℕ → ℕ → List ℕ → ReusableStateArena × ReusableStateDescriptor
allocate_descriptor a kv_bytes mamba_bytes label =
    let (b, kv) = allocate a attention_kv kv_bytes (label ++ kv_suffix) in
    if handle_valid kv
    then (let (c, mamba) = allocate b mamba_recurrent mamba_bytes (label ++ mamba_suffix) in
        if handle_valid mamba
        then (c, record { kv_state = kv; mamba_state = mamba })
        else (release c kv, no_descriptor))
    else (b, no_descriptor)

-- `Describe`: the view has the fields of the allocation.
unfoldable pub describe : ReusableStateArena → ℕ → Option StateAllocation
describe a id = find id a.allocations

unfoldable pub allocation_count : ReusableStateArena → ℕ
allocation_count a = length a.allocations
