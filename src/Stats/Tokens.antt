-- ===== src/Stats/Tokens.antt =====
-- src/stats.rs, `token_stats` and `distinct_models`: what was used by key, and the models seen.
use mybro.Prelude.{
  ℕ, ◌<◌, ◌^◌, ◌+◌, ◌≡◌, refl, sym, ap, inl, inr, String, str_eq, eq_iff, text_le, Bool, true,
  false, Option, none, some, List, [], ◌∷◌, map, filter, total, Bool-cases, if◌then◌else◌, arith,
  filter-true, filter-false, ◌∙◌,
}
use mybro.Stats.{add64, RequestRecord, is_error, relevant}

-- The average latency is always zero here, and is left out.
pub record TokenSummary : Type 0 where
  pub key_name : String
  pub count : ℕ
  pub errors : ℕ
  pub tokens_in : ℕ
  pub tokens_out : ℕ

abbrev pub new_summary : String → TokenSummary
new_summary key_name = record {
  key_name = key_name;
  count = 0;
  errors = 0;
  tokens_in = 0;
  tokens_out = 0;
}

abbrev pub one_if : Bool → ℕ
one_if b = if b then 1 else 0

abbrev pub count_in : RequestRecord → TokenSummary → TokenSummary
count_in r e = record e {
  count = add64 e.count 1;
  errors = add64 e.errors (one_if (is_error r));
  tokens_in = add64 e.tokens_in r.tokens_in;
  tokens_out = add64 e.tokens_out r.tokens_out;
}

-- The entry of the record's key in a map that is sorted by the keys, made where there is none.
unfoldable pub add_to_key : RequestRecord → List TokenSummary → List TokenSummary
unfolding text_le
add_to_key r [] = count_in r (new_summary r.key_name) ∷ []
add_to_key r (e ∷ es) =
    let rest = add_to_key r es in
    if str_eq e.key_name r.key_name
    then count_in r e ∷ es
    else if text_le r.key_name e.key_name
    then count_in r (new_summary r.key_name) ∷ e ∷ es
    else e ∷ rest

unfoldable pub add_all : List RequestRecord → List TokenSummary → List TokenSummary
add_all [] es = es
add_all (r ∷ rs) es = add_all rs (add_to_key r es)

-- `db` is what the database answers, `none` where there is none or its query fails.
unfoldable pub token_stats :
    Option (List TokenSummary) → ℕ → ℕ → Option String → List RequestRecord → List TokenSummary
unfolding relevant
token_stats (some tokens) now_ms window_ms model records = tokens
token_stats none now_ms window_ms model records =
    add_all (relevant now_ms window_ms model records) []

-- A sorted set of texts.
unfoldable pub add_text : String → List String → List String
unfolding text_le
add_text s [] = s ∷ []
add_text s (t ∷ ts) =
    let rest = add_text s ts in
    if str_eq t s then t ∷ ts else if text_le s t then s ∷ t ∷ ts else t ∷ rest

unfoldable pub all_texts : List String → List String
all_texts [] = []
all_texts (s ∷ ss) = add_text s (all_texts ss)

unfoldable pub distinct_models : Option (List String) → ℕ → ℕ → List RequestRecord → List String
unfolding relevant
distinct_models (some models) now_ms window_ms records = models
distinct_models none now_ms window_ms records =
    all_texts (map (λ r. r.model) (relevant now_ms window_ms none records))

-- What the entries with a name add up to, and the records of a key.
abbrev pub entry_total : (TokenSummary → ℕ) → String → List TokenSummary → ℕ
entry_total w k es = total w (filter (λ e. str_eq e.key_name k) es)

abbrev pub record_total : (RequestRecord → ℕ) → String → List RequestRecord → ℕ
record_total v k rs = total v (filter (λ r. str_eq r.key_name k) rs)

assoc : (a b c : ℕ) → (a + b) + c ≡ a + (b + c)
assoc a b c = omega arith

swap : (a b c : ℕ) → a + (b + c) ≡ b + (a + c)
swap a b c = omega arith

add_zero : (a : ℕ) → a + 0 ≡ a
add_zero a = omega arith

-- A figure that starts at zero and grows with each record of the entry's key.
module _ (w : TokenSummary → ℕ) (v : RequestRecord → ℕ)
    (zero_at : (k : String) → w (new_summary k) ≡ 0)
    (step : (r : RequestRecord) (e : TokenSummary) → w (count_in r e) ≡ add64 (w e) (v r))
    (k : String) where
  entry_total-cons :
      (e : TokenSummary) (es : List TokenSummary)
      → entry_total w k (e ∷ es) ≡ (if str_eq e.key_name k then w e else 0) + entry_total w k es
  entry_total-cons e es = elim (Bool-cases (str_eq e.key_name k)) [
    | inl h ↦ rw (filter-true (λ x. str_eq x.key_name k) e es h, h) refl
    | inr h ↦ rw (filter-false (λ x. str_eq x.key_name k) e es h, h) (omega arith)
  ]

  record_total-cons :
      (r : RequestRecord) (rs : List RequestRecord)
      → record_total v k (r ∷ rs) ≡ (if str_eq r.key_name k then v r else 0) + record_total v k rs
  record_total-cons r rs = elim (Bool-cases (str_eq r.key_name k)) [
    | inl h ↦ rw (filter-true (λ x. str_eq x.key_name k) r rs h, h) refl
    | inr h ↦ rw (filter-false (λ x. str_eq x.key_name k) r rs h, h) (omega arith)
  ]

  grown :
      (b : Bool) (r : RequestRecord) (e : TokenSummary)
      → (if b then v r else 0) + (if b then w e else 0) < 2 ^ 64
      → (if b then w (count_in r e) else 0) ≡ (if b then v r else 0) + (if b then w e else 0)
  grown true r e small = omega (arith, step r e)
  grown false r e small = omega arith

  none_yet : (b : Bool) (key_name : String) → (if b then w (new_summary key_name) else 0) ≡ 0
  none_yet true key_name = zero_at key_name
  none_yet false key_name = refl

  entry_total-new :
      (r : RequestRecord) (es : List TokenSummary)
      → (if str_eq r.key_name k then v r else 0) + entry_total w k es < 2 ^ 64
      → entry_total w k (count_in r (new_summary r.key_name) ∷ es)
        ≡ (if str_eq r.key_name k then v r else 0) + entry_total w k es
  entry_total-new r es small =
      let b = str_eq r.key_name k in
      omega (
        arith,
        entry_total-cons (count_in r (new_summary r.key_name)) es,
        grown b r (new_summary r.key_name) (omega (arith, none_yet b r.key_name)),
        none_yet b r.key_name,
      )

  entry_total-add_to_key :
      (r : RequestRecord) (es : List TokenSummary)
      → (if str_eq r.key_name k then v r else 0) + entry_total w k es < 2 ^ 64
      → entry_total w k (add_to_key r es)
        ≡ (if str_eq r.key_name k then v r else 0) + entry_total w k es
  unfolding add_to_key
  entry_total-add_to_key r [] small = entry_total-new r [] small
  entry_total-add_to_key r (e ∷ es) small = elim (Bool-cases (str_eq e.key_name r.key_name)) [
    | inl h ↦
        let same : e.key_name ≡ r.key_name = (eq_iff e.key_name r.key_name).0 h in
        let agree : str_eq e.key_name k ≡ str_eq r.key_name k = ap (λ n. str_eq n k) same in
        rw (add_to_key, h)
          (entry_total-cons (count_in r e) es
            ∙ ap (λ n. n + entry_total w k es)
                (grown (str_eq e.key_name k) r e (
                  rw (agree) (
                    let parts = entry_total-cons e es in
                    let part = rw agree at parts in omega (arith, part))))
            ∙ ap
                (λ b.
                  ((if b then v r else 0) + (if str_eq e.key_name k then w e else 0))
                  + entry_total w k es)
                agree
            ∙ assoc (if str_eq r.key_name k then v r else 0)
                (if str_eq e.key_name k then w e else 0) (entry_total w k es)
            ∙ ap (λ n. (if str_eq r.key_name k then v r else 0) + n) (sym (entry_total-cons e es)))
    | inr h ↦ elim (Bool-cases (text_le r.key_name e.key_name)) [
      | inl g ↦ rw (add_to_key, h, g) (entry_total-new r (e ∷ es) small)
      | inr g ↦
          rw (add_to_key, h, g)
            (entry_total-cons e (add_to_key r es)
              ∙ ap (λ n. (if str_eq e.key_name k then w e else 0) + n)
                  (entry_total-add_to_key r es (omega (arith, entry_total-cons e es)))
              ∙ swap (if str_eq e.key_name k then w e else 0)
                  (if str_eq r.key_name k then v r else 0) (entry_total w k es)
              ∙ ap (λ n. (if str_eq r.key_name k then v r else 0) + n)
                  (sym (entry_total-cons e es)))
    ]
  ]

  entry_total-add_all :
      (rs : List RequestRecord) (es : List TokenSummary)
      → record_total v k rs + entry_total w k es < 2 ^ 64
      → entry_total w k (add_all rs es) ≡ record_total v k rs + entry_total w k es
  unfolding add_all
  entry_total-add_all [] es small = omega arith
  entry_total-add_all (r ∷ rs) es small =
      let first = entry_total-add_to_key r es (omega (arith, record_total-cons r rs)) in
      entry_total-add_all rs (add_to_key r es) (omega (arith, first, record_total-cons r rs))
      ∙ ap (λ n. record_total v k rs + n) first
      ∙ swap (record_total v k rs) (if str_eq r.key_name k then v r else 0) (entry_total w k es)
      ∙ sym (
          assoc (if str_eq r.key_name k then v r else 0) (record_total v k rs) (entry_total w k es))
      ∙ ap (λ n. n + entry_total w k es) (sym (record_total-cons r rs))

  entry_total-fresh :
      (rs : List RequestRecord)
      → record_total v k rs < 2 ^ 64
      → entry_total w k (add_all rs []) ≡ record_total v k rs
  entry_total-fresh rs small =
      entry_total-add_all rs [] (omega arith) ∙ add_zero (record_total v k rs)

-- Where the database does not answer, the entries with a key's name add up to what the records of that
-- key in the window and of the model add up to: their number, their errors, and their tokens, as long as
-- each of these totals is below 2^64.
pub token_stats-totals :
    (k : String) (now_ms window_ms : ℕ) (model : Option String) (records : List RequestRecord)
    → record_total (λ r. 1) k (relevant now_ms window_ms model records) < 2 ^ 64
    → record_total (λ r. one_if (is_error r)) k (relevant now_ms window_ms model records) < 2 ^ 64
    → record_total (λ r. r.tokens_in) k (relevant now_ms window_ms model records) < 2 ^ 64
    → record_total (λ r. r.tokens_out) k (relevant now_ms window_ms model records) < 2 ^ 64
    → let es = token_stats none now_ms window_ms model records in
      let rs = relevant now_ms window_ms model records in
      (entry_total (λ e. e.count) k es ≡ record_total (λ r. 1) k rs)
      × (entry_total (λ e. e.errors) k es ≡ record_total (λ r. one_if (is_error r)) k rs)
      × (entry_total (λ e. e.tokens_in) k es ≡ record_total (λ r. r.tokens_in) k rs)
      × (entry_total (λ e. e.tokens_out) k es ≡ record_total (λ r. r.tokens_out) k rs)
unfolding token_stats
token_stats-totals k now_ms window_ms model records some_count some_errors some_in some_out =
    let rs = relevant now_ms window_ms model records in
    (
      entry_total-fresh (λ e. e.count) (λ r. 1) (λ n. refl) (λ r e. refl) k rs some_count,
      entry_total-fresh (λ e. e.errors) (λ r. one_if (is_error r)) (λ n. refl) (λ r e. refl) k rs
          some_errors,
      entry_total-fresh (λ e. e.tokens_in) (λ r. r.tokens_in) (λ n. refl) (λ r e. refl) k rs
          some_in,
      entry_total-fresh (λ e. e.tokens_out) (λ r. r.tokens_out) (λ n. refl) (λ r e. refl) k rs
          some_out,
    )
