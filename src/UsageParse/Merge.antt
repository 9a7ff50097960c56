-- ===== src/UsageParse/Merge.antt =====
-- Merging usage samples: the order of the events does not matter, and what the counts promise.
use mathlib.Core.List.{Perm, Permᴰ}
use mathlib.Core.Logic.{∥∥₁_elim}
use mybro.Json.{Value}
use mybro.Prelude.{ℕ, ◌+◌, ◌^◌, ◌≤◌, ◌<◌, ◌≡◌, refl, ◌∙◌, Option, none, some, List, [], ◌∷◌, arith}
use mybro.UsageParse.{
  Usage, no_usage, merge, process_line, payload_of, extract_usage_from_value, u64_field,
  from_anthropic_usage,
}
use mybro.UsageParse.Lines.{process_all}

merge_assoc_comm : (u v w : Usage) → merge (merge u v) w ≡ merge (merge u w) v
unfolding merge
merge_assoc_comm u v w = ground arith

merge-cached-le :
    (v w : Usage)
    → v.cached ≤ v.tokens_in
    → w.cached ≤ w.tokens_in
    → (merge v w).cached ≤ (merge v w).tokens_in
unfolding merge
merge-cached-le v w a b = omega arith

Usage-set : IsSet Usage
Usage-set = hlevel

module _ (from_str from_slice : List ℕ → Option Value) where
  -- What one line adds.
  unfoldable pub sample : List ℕ → Usage
  sample line = elim (payload_of from_str from_slice line) [
    | none ↦ no_usage
    | some p ↦ elim (from_str p) [ none ↦ no_usage | some v ↦ extract_usage_from_value v ]
  ]

  process_line-merge :
      (line : List ℕ) (u : Usage) → process_line from_str from_slice line u ≡ merge u (sample line)
  unfolding process_line sample merge
  process_line-merge line u = ground arith

  process_line_comm :
      (a b : List ℕ) (u : Usage)
      → process_line from_str from_slice b (process_line from_str from_slice a u)
        ≡ process_line from_str from_slice a (process_line from_str from_slice b u)
  process_line_comm a b u =
      rw
        (process_line-merge a u, process_line-merge b u, process_line-merge b, process_line-merge a)
        (merge_assoc_comm u (sample a) (sample b))

  process_all-Permᴰ :
      {ls ms : List (List ℕ)} (u : Usage)
      → Permᴰ ls ms
      → process_all from_str from_slice ls u ≡ process_all from_str from_slice ms u
  unfolding process_all
  process_all-Permᴰ u Permᴰ.nil = refl
  process_all-Permᴰ u (Permᴰ.cons {a = a} {b = b} {l₁ = ls} {l₂ = ms} e p) =
      rw e (process_all-Permᴰ (process_line from_str from_slice b u) p)
  process_all-Permᴰ u (Permᴰ.swap {a = a} {b = b} {l = l} e f) =
      rw (← e, ← f, process_line_comm a b u)
  process_all-Permᴰ u (Permᴰ.trans p q) = process_all-Permᴰ u p ∙ process_all-Permᴰ u q

  -- The order in which the events of a stream arrive does not change the usage.
  pub process_all-perm :
      (ls ms : List (List ℕ)) (u : Usage)
      → Perm ls ms
      → process_all from_str from_slice ls u ≡ process_all from_str from_slice ms u
  process_all-perm ls ms u p = ∥∥₁_elim p (Usage-set _ _) (process_all-Permᴰ u)

  -- In every event of the lines that carries usage, the cached tokens are among the input tokens.
  abbrev pub AllWithin : List (List ℕ) → Type 0
  AllWithin [] = Unit {0}
  AllWithin (line ∷ ls) = ((sample line).cached ≤ (sample line).tokens_in) × AllWithin ls

  -- If that holds of every event, it holds of the merged usage: the cache hit rate is at most 1.
  pub process_all-cached-le :
      (ls : List (List ℕ)) (u : Usage)
      → u.cached ≤ u.tokens_in
      → AllWithin ls
      → (process_all from_str from_slice ls u).cached
        ≤ (process_all from_str from_slice ls u).tokens_in
  unfolding process_all
  process_all-cached-le [] u h all = h
  process_all-cached-le (line ∷ ls) u h all =
      process_all-cached-le ls (process_line from_str from_slice line u)
        (rw (process_line-merge line u) (merge-cached-le u (sample line) h all.0)) all.1

-- Anthropic's counts are made to include the cached tokens: where the sum does not overflow, the
-- cached and the created tokens together are at most the input tokens.
pub anthropic-within :
    (u : Value)
    → u64_field u "input_tokens"
        + u64_field u "cache_read_input_tokens"
        + u64_field u "cache_creation_input_tokens"
      < 2 ^ 64
    → (from_anthropic_usage u).cached + (from_anthropic_usage u).creation
      ≤ (from_anthropic_usage u).tokens_in
unfolding from_anthropic_usage
anthropic-within u h = omega arith
