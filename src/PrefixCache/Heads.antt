-- ===== src/PrefixCache/Heads.antt =====
-- The head maps agree with the conversation sets of the nodes: a conversation's head is the one node
-- whose set holds the conversation.
use nemotron_inference.Base.{
  ℕ, ◌≡◌, ◌∙◌, Bool, true, false, ◌&&◌, List, [], ◌∷◌, Option, none, some, arith, ◌==◌,
  if◌then◌else◌, nat_key, string_key, str_eq, str_eq_iff, find, Distinct, find-erase,
  erase-Distinct,
}
use nemotron_inference.PrefixCache.State.{CacheNode, StringSet}
use nemotron_inference.PrefixCache.Nodes.{erase_head, erase_heads}

-- Whether a head is there and names the node.
abbrev pub is_head : ℕ → Option ℕ → Bool
is_head id none = false
is_head id (some head) = head == id

abbrev pub holds : List ℕ → StringSet → Bool
holds conversation_id set = elim (find conversation_id set) [ none ↦ false | some _ ↦ true ]

-- Whether the node is there and its set holds the conversation.
abbrev pub member : (CacheNode → StringSet) → List ℕ → Option CacheNode → Bool
member sets conversation_id none = false
member sets conversation_id (some n) = holds conversation_id (sets n)

pub record Agree (sets : CacheNode → StringSet) (nodes : List (ℕ × CacheNode))
    (heads : List (List ℕ × ℕ)) : Type 0 where
  pub distinct : Distinct heads
  pub agree :
      (conversation_id : List ℕ) (id : ℕ)
      → is_head id (find conversation_id heads) ≡ member sets conversation_id (find id nodes)

erase_head-Distinct :
    (k : ℕ) (x : List ℕ) (heads : List (List ℕ × ℕ))
    → Distinct heads
    → Distinct (erase_head k x heads)
unfolding erase_head
erase_head-Distinct k x heads d = ground (arith, erase-Distinct x heads d)

is_head-erase_head :
    (k id : ℕ) (x y : List ℕ) (heads : List (List ℕ × ℕ))
    → Distinct heads
    → is_head id (find y (erase_head k x heads))
      ≡ (if k == id && str_eq x y then false else is_head id (find y heads))
unfolding erase_head
is_head-erase_head k id x y heads d = ground (arith, find-erase x y heads d, str_eq_iff x y)

pub erase_heads-Distinct :
    (k : ℕ) (set : StringSet) (heads : List (List ℕ × ℕ))
    → Distinct heads
    → Distinct (erase_heads k set heads)
unfolding erase_heads
erase_heads-Distinct k [] heads d = d
erase_heads-Distinct k ((x, _) ∷ rest) heads d =
    erase_heads-Distinct k rest (erase_head k x heads) (erase_head-Distinct k x heads d)

pub is_head-erase_heads :
    (k id : ℕ) (set : StringSet) (y : List ℕ) (heads : List (List ℕ × ℕ))
    → Distinct heads
    → is_head id (find y (erase_heads k set heads))
      ≡ (if k == id && holds y set then false else is_head id (find y heads))
unfolding erase_heads find
is_head-erase_heads k id [] y heads d = ground arith
is_head-erase_heads k id ((x, _) ∷ rest) y heads d =
    is_head-erase_heads k id rest y (erase_head k x heads) (erase_head-Distinct k x heads d)
    ∙ ground (arith, is_head-erase_head k id x y heads d)
