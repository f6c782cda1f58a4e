-- ===== src/RequestContext/Growth.antt =====
-- `EnsureAttentionTokens`: what it gives each layer, and when it fails.
use native.Mathlib.Nat.{div-add-mod', mul-le-mul_left}
use nemotron_inference.Base.{
  ℕ, suc, ◌+◌, ◌-◌, ◌/◌, ◌≤◌, ◌<◌, ◌≡◌, refl, sym, ap, ◌∙◌, ◌⊎◌, inl, inr, Bool-cases, Bool, true,
  false, ◌||◌, List, [], ◌∷◌, ◌++◌, some, arith, leb, ltb, ◌==◌, length, append_assoc,
  length-append, take, subst, sub64, add64, word,
}
use nemotron_inference.KvPages.{
  AttentionKvCacheConfig, KvPageHandle, PagedKvCacheArena, allocate_pages,
  required_pages_for_tokens,
}
use nemotron_inference.KvPages.Allocation.{Allotted, allocate_pages_decides}
use nemotron_inference.KvPages.Validity.{IsValid}
use nemotron_inference.KvPages.Return.{ids_of, ids_of-handles}
use nemotron_inference.RequestContext.{
  RequestExecutionContext, ensure_layers, ensure_attention_tokens, all_ids,
}
use nemotron_inference.RequestContext.Ownership.{Owns, Owns-Allotted}
use nemotron_inference.RequestContext.Given.{
  filled, Filled, NoMore, Extends, Keeps, HeldFor-Keeps, append_empty, Extends-self, NoMore-self,
  Allotted-Keeps, Allotted-HeldFor,
}

-- The result of the loop from a layer on, with the ids of the layers before it.
pub record Ensured (layer required : ℕ) (arena : PagedKvCacheArena) (before : List ℕ)
    (layers : List (List KvPageHandle)) : Type 0 where
  pub after : PagedKvCacheArena
  pub layers' : List (List KvPageHandle)
  pub ok : Bool
  pub returns : ensure_layers layer required arena layers ≡ some (after, layers', ok)
  pub same_config : after.config ≡ arena.config
  pub owns : Owns after (before ++ all_ids layers')
  pub keeps : Keeps arena after
  pub extends : Extends after layer layers layers'
  pub exact : ok ≡ true → Filled required layers layers'
  pub no_more : NoMore required layers layers'
  pub short :
      ok ≡ false
      → (arena.config.layer_count < layer + length layers) ⊎ (length after.free_page_ids < required)

module _ (required : ℕ) (small : required < word) where
  ids_of-append : (xs ys : List KvPageHandle) → ids_of (xs ++ ys) ≡ ids_of xs ++ ids_of ys
  ids_of-append [] ys = refl
  ids_of-append (x ∷ xs) ys = ap (λ t. x.page_id ∷ t) (ids_of-append xs ys)

  keep-Ensured :
      (layer : ℕ) (arena : PagedKvCacheArena) (before : List ℕ) (pages : List KvPageHandle)
      (rest : List (List KvPageHandle))
      → required ≤ length pages
      → Ensured (suc layer) required arena (before ++ ids_of pages) rest
      → Ensured layer required arena before (pages ∷ rest)
  unfolding ensure_layers all_ids
  keep-Ensured layer arena before pages rest full e = record {
    after = e.after;
    layers' = pages ∷ e.layers';
    ok = e.ok;
    returns =
        let test : leb required (length pages) ≡ true = ground arith in
        rw (test, ensure_layers, e.returns) refl;
    same_config = e.same_config;
    owns = subst (Owns e.after) (append_assoc before (ids_of pages) (all_ids e.layers')) e.owns;
    keeps = e.keeps;
    extends = (([], sym (append_empty pages), tt), e.extends);
    exact = λ h. (ground arith, e.exact h);
    no_more = (ground arith, e.no_more);
    short = λ h. elim (e.short h) [ inl p ↦ inl (omega arith) | inr p ↦ inr p ];
  }

  -- What the layer asks for.
  asked :
      (pages : List KvPageHandle)
      → length pages < required
      → sub64 required (length pages) ≡ required - length pages
  asked pages h = omega arith

  grow-Ensured :
      (layer : ℕ) (arena b : PagedKvCacheArena) (before : List ℕ)
      (pages handles : List KvPageHandle) (rest : List (List KvPageHandle))
      → length pages < required
      → IsValid arena
      → allocate_pages arena layer (sub64 required (length pages)) ≡ some (b, some handles)
      → Allotted arena layer (sub64 required (length pages)) b handles
      → Ensured (suc layer) required b (before ++ ids_of (pages ++ handles)) rest
      → Ensured layer required arena before (pages ∷ rest)
  unfolding ensure_layers all_ids
  grow-Ensured layer arena b before pages handles rest few v q t e =
      let filled_up : length (pages ++ handles) ≡ filled required pages =
        let l = length-append pages handles in
        let n = t.counted in let m = asked pages few in ground arith in
      record {
        after = e.after;
        layers' = (pages ++ handles) ∷ e.layers';
        ok = e.ok;
        returns =
            let test : leb required (length pages) ≡ false = ground arith in
            rw (test, ensure_layers, q, e.returns) refl;
        same_config = e.same_config ∙ t.same_config;
        owns =
            subst (Owns e.after)
              (append_assoc before (ids_of (pages ++ handles)) (all_ids e.layers')) e.owns;
        keeps = λ j page h. e.keeps j page (Allotted-Keeps arena b layer _ handles v t j page h);
        extends = (
          (
            handles,
            refl,
            HeldFor-Keeps b e.after layer handles e.keeps
                (Allotted-HeldFor arena b layer _ handles t),
          ),
          e.extends,
        );
        exact = λ h. (filled_up, e.exact h);
        no_more = (omega (arith, filled_up), e.no_more);
        short = λ h. elim (e.short h) [
          | inl p ↦ let c = ap (λ x. x.layer_count) t.same_config in inl (omega arith)
          | inr p ↦ inr p
        ];
      }

  pub ensure_layers-Ensured :
      (layer : ℕ) (arena : PagedKvCacheArena) (before : List ℕ) (layers : List (List KvPageHandle))
      → Owns arena (before ++ all_ids layers)
      → Ensured layer required arena before layers
  unfolding ensure_layers all_ids
  ensure_layers-Ensured layer arena before [] o = record {
    after = arena;
    layers' = [];
    ok = true;
    returns = refl;
    same_config = refl;
    owns = o;
    keeps = λ j page h. h;
    extends = tt;
    exact = λ h. tt;
    no_more = tt;
    short = λ h. absurd cc;
  }
  ensure_layers-Ensured layer arena before (pages ∷ rest) o =
      let grouped : Owns arena ((before ++ ids_of pages) ++ all_ids rest) =
        subst (Owns arena) (sym (append_assoc before (ids_of pages) (all_ids rest))) o in
      elim (Bool-cases (leb required (length pages))) [
        | inl full ↦
            keep-Ensured layer arena before pages rest (ground arith)
              (ensure_layers-Ensured (suc layer) arena (before ++ ids_of pages) rest grouped)
        | inr few ↦
            let less : length pages < required = ground arith in
            let count = asked pages less in
            elim (allocate_pages_decides arena layer (sub64 required (length pages)) o.valid) [
              | inl (b, handles, q, t, _, _, _) ↦
                  let more =
                    Owns-Allotted arena b layer (sub64 required (length pages)) handles
                      (before ++ ids_of pages) (all_ids rest) grouped t in
                  let new : ids_of handles
                      ≡ take (sub64 required (length pages)) arena.free_page_ids =
                    ap ids_of t.handed ∙ ids_of-handles arena layer _ in
                  let shape : (before ++ ids_of pages)
                        ++ (take (sub64 required (length pages)) arena.free_page_ids
                            ++ all_ids rest)
                      ≡ (before ++ ids_of (pages ++ handles)) ++ all_ids rest =
                    ap (λ n. (before ++ ids_of pages) ++ (n ++ all_ids rest)) (sym new)
                    ∙ sym (append_assoc (before ++ ids_of pages) (ids_of handles) (all_ids rest))
                    ∙ ap (λ n. n ++ all_ids rest)
                        (append_assoc before (ids_of pages) (ids_of handles)
                          ∙ ap (λ n. before ++ n) (sym (ids_of-append pages handles))) in
                  grow-Ensured layer arena b before pages handles rest less o.valid q t (
                    ensure_layers-Ensured (suc layer) b (before ++ ids_of (pages ++ handles)) rest
                      (subst (Owns b) shape more))
              | inr (q, cause) ↦ record {
                after = arena;
                layers' = pages ∷ rest;
                ok = false;
                returns = rw (few, ensure_layers, q) refl;
                same_config = refl;
                owns = o;
                keeps = λ j page h. h;
                extends = Extends-self arena layer (pages ∷ rest);
                exact = λ h. absurd cc;
                no_more = NoMore-self required (pages ∷ rest);
                short = λ h. elim cause [
                  | inl nothing ↦ absurd (omega arith)
                  | inr (inl outside) ↦ inl (omega arith)
                  | inr (inr lacking) ↦ inr (omega arith)
                ];
              }
            ]
      ]

required_small :
    (config : AttentionKvCacheConfig) (tokens : ℕ) → required_pages_for_tokens config tokens < word
unfolding required_pages_for_tokens
required_small config tokens = elim (Bool-cases (config.tokens_per_page == 0 || tokens == 0)) [
  | inl e ↦ rw e (omega arith)
  | inr e ↦
      let page : 1 ≤ config.tokens_per_page = ground arith in
      let split =
        div-add-mod' (sub64 (add64 tokens config.tokens_per_page) 1) config.tokens_per_page in
      let times =
        mul-le-mul_left (sub64 (add64 tokens config.tokens_per_page) 1 / config.tokens_per_page)
          page in
      rw e (omega arith)
]

-- The result of `EnsureAttentionTokens` on a request with an arena.
pub record Grown (c : RequestExecutionContext) (tokens : ℕ) : Type 0 where
  pub before : PagedKvCacheArena
  pub there : c.kv_arena ≡ some before
  pub arena : PagedKvCacheArena
  pub layers : List (List KvPageHandle)
  pub ok : Bool
  pub returns :
      ensure_attention_tokens c tokens
      ≡ some (record c { kv_arena = some arena; kv_pages_by_layer = layers }, ok)
  pub owns : Owns arena (all_ids layers)
  pub keeps : Keeps before arena
  pub extends : Extends arena 0 c.kv_pages_by_layer layers
  pub exact :
      ok ≡ true
      → Filled
          (required_pages_for_tokens c.config.attention_kv_cache tokens)
          c.kv_pages_by_layer
          layers
  pub no_more :
      NoMore
        (required_pages_for_tokens c.config.attention_kv_cache tokens)
        c.kv_pages_by_layer
        layers
  pub short :
      ok ≡ false
      → length arena.free_page_ids < required_pages_for_tokens c.config.attention_kv_cache tokens

-- `EnsureAttentionTokens` on a request that owns its arena, for no more tokens than the request may
-- have and no more layers than the arena has: it returns, the request still owns its arena, every page
-- held before is held as it was, and every layer keeps its pages, in front, and its new ones are held in
-- the arena for that layer. On success every layer has exactly the pages that the tokens need, or those it
-- had if they were more; on a failure none has more than that, and fewer pages are left than one layer
-- needs.
pub ensure_attention_tokens-Grown :
    (c : RequestExecutionContext) (arena : PagedKvCacheArena) (tokens : ℕ)
    → c.kv_arena ≡ some arena
    → Owns arena (all_ids c.kv_pages_by_layer)
    → length c.kv_pages_by_layer ≤ arena.config.layer_count
    → tokens ≤ c.config.max_tokens
    → Grown c tokens
unfolding ensure_attention_tokens
ensure_attention_tokens-Grown c arena tokens there o layers allowed =
    let required = required_pages_for_tokens c.config.attention_kv_cache tokens in
    let e =
      ensure_layers-Ensured required (required_small c.config.attention_kv_cache tokens) 0 arena []
        c.kv_pages_by_layer o in
    let test : ltb c.config.max_tokens tokens ≡ false = ground arith in
    record {
      before = arena;
      there = there;
      keeps = e.keeps;
      arena = e.after;
      layers = e.layers';
      ok = e.ok;
      returns = ground (arith, there, test, e.returns);
      owns = e.owns;
      extends = e.extends;
      exact = e.exact;
      no_more = e.no_more;
      short = λ h. elim (e.short h) [ inl outside ↦ absurd (omega arith) | inr lacking ↦ lacking ];
    }
