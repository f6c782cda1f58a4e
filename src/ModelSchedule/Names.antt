-- ===== src/ModelSchedule/Names.antt =====
-- What the name of a tensor says in runtime/src/loader/model_schedule.cpp: its layer and the part of the model.
use nemotron_inference.Base.{
  ℕ, ◌-◌, Bool, true, false, ◌&&◌, ◌||◌, List, [], ◌∷◌, Option, none, some, leb, ◌==◌,
  if◌then◌else◌, add64, mul64, length, string_key, nat_key, str_eq, text, drop,
}

pub record LayerPath : Type 0 where
  pub layer_index : ℕ
  pub local_name : List ℕ

unfoldable pub starts_with : List ℕ → List ℕ → Bool
starts_with value [] = true
starts_with [] (c ∷ prefix) = false
starts_with (b ∷ value) (c ∷ prefix) = if b == c then starts_with value prefix else false

unfoldable pub is_digit : ℕ → Bool
is_digit ch = leb b'0' ch && leb ch b'9'

-- The loop over the digits: the index, and the text from the first other byte on.
unfoldable pub read_digits : ℕ → List ℕ → ℕ × List ℕ
read_digits layer_index [] = (layer_index, [])
read_digits layer_index (ch ∷ rest) = elim (is_digit ch) [
  | true ↦ read_digits (add64 (mul64 layer_index 10) (ch - b'0')) rest
  | false ↦ (layer_index, ch ∷ rest)
]

-- After the digits: a dot and a name that is not empty.
unfoldable pub finish_path : ℕ × List ℕ → Option LayerPath
finish_path (layer_index, []) = none
finish_path (layer_index, ch ∷ []) = none
finish_path (layer_index, ch ∷ (first ∷ rest)) =
    if ch == b'.'
    then some (record { layer_index = layer_index; local_name = first ∷ rest })
    else none

-- The text behind a prefix.
unfoldable pub parse_index : List ℕ → Option LayerPath
parse_index [] = none
parse_index (ch ∷ rest) = if is_digit ch then finish_path (read_digits 0 (ch ∷ rest)) else none

unfoldable pub parse_layer_path : List ℕ → Option LayerPath
parse_layer_path tensor_name =
    if starts_with tensor_name (text "backbone.layers.")
    then parse_index (drop (length (text "backbone.layers.")) tensor_name)
    else (if starts_with tensor_name (text "layers.")
        then parse_index (drop (length (text "layers.")) tensor_name)
        else none)

-- local_name.find(pattern) != npos
unfoldable pub occurs : List ℕ → List ℕ → Bool
unfolding starts_with
occurs pattern [] = starts_with [] pattern
occurs pattern (ch ∷ rest) = if starts_with (ch ∷ rest) pattern then true else occurs pattern rest

unfoldable pub contains_attention_pattern : List ℕ → Bool
contains_attention_pattern local_name =
    occurs (text "self_attn.") local_name
    || (occurs (text "attention.") local_name
        || (occurs (text "attn.") local_name
            || (occurs (text "q_proj") local_name
                || (occurs (text "k_proj") local_name
                    || (occurs (text "v_proj") local_name || occurs (text "o_proj") local_name)))))

unfoldable pub contains_expert_pattern : List ℕ → Bool
contains_expert_pattern local_name =
    occurs (text ".experts.") local_name || starts_with local_name (text "experts.")

unfoldable pub contains_shared_expert_pattern : List ℕ → Bool
contains_shared_expert_pattern local_name = occurs (text "shared_experts.") local_name

unfoldable pub contains_router_pattern : List ℕ → Bool
contains_router_pattern local_name =
    occurs (text "router") local_name || occurs (text "gate") local_name

unfoldable pub contains_mamba_pattern : List ℕ → Bool
contains_mamba_pattern local_name =
    if contains_attention_pattern local_name
      || (contains_expert_pattern local_name || contains_shared_expert_pattern local_name)
    then false
    else occurs (text "mamba") local_name
      || (occurs (text "A_log") local_name
          || (occurs (text "dt_bias") local_name
              || (occurs (text "conv") local_name
                  || (occurs (text "ssm") local_name
                      || (occurs (text "in_proj") local_name
                          || occurs (text "out_proj") local_name)))))

pub data ModelGlobalRole : Type 0 where
  other embedding final_norm logits : ModelGlobalRole

unfoldable pub classify_global_role : List ℕ → ModelGlobalRole
classify_global_role tensor_name =
    if str_eq tensor_name (text "backbone.embeddings.weight")
      || str_eq tensor_name (text "embeddings.weight")
    then embedding
    else (if str_eq tensor_name (text "backbone.final_norm.weight")
          || (str_eq tensor_name (text "final_norm.weight")
              || (str_eq tensor_name (text "backbone.norm_f.weight")
                  || str_eq tensor_name (text "norm_f.weight")))
        then final_norm
        else (if str_eq tensor_name (text "lm_head.weight")
              || (str_eq tensor_name (text "output.weight")
                  || str_eq tensor_name (text "logits.weight"))
            then logits
            else other))
