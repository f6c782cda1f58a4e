-- ===== src/ReusableState/Equality.antt =====
-- What the equality operators on handles and descriptors decide.
use nemotron_inference.Base.{◌≡◌, ◌↔◌, true, arith}
use nemotron_inference.ReusableState.{
  ReusableStateKind, ReusableStateHandle, ReusableStateDescriptor, same_kind, same_handle,
  same_descriptor,
}

same_kind_iff : (k l : ReusableStateKind) → (same_kind k l ≡ true) ↔ (k ≡ l)
unfolding same_kind
same_kind_iff k l = ground arith

same_handle_iff : (h g : ReusableStateHandle) → (same_handle h g ≡ true) ↔ (h ≡ g)
unfolding same_handle
same_handle_iff h g = ground (arith, same_kind_iff h.kind g.kind)

-- Two descriptors are equal for the code exactly when all their fields are.
pub same_descriptor_iff : (d e : ReusableStateDescriptor) → (same_descriptor d e ≡ true) ↔ (d ≡ e)
unfolding same_descriptor
same_descriptor_iff d e =
    ground
      (arith, same_handle_iff d.kv_state e.kv_state, same_handle_iff d.mamba_state e.mamba_state)
