-- ===== src/UsageParse/Lines.antt =====
-- A stream of bytes cut into lines, against the loop that drains the accumulator's buffer.
use mathlib.Core.List.{append_assoc, append-nil}
use mybro.Json.{Value}
use mybro.Prelude.{
  ℕ, zero, suc, ◌≤◌, ◌<◌, ◌≡◌, refl, ap, ◌∙◌, inl, inr, true, false, Option, none, some, List, [],
  ◌∷◌, ◌++◌, length, Option-cases, Bool-cases, ◌==◌, if◌then◌else◌, arith,
}
use mybro.UsageParse.{Usage, Accumulator, newline, split_line, process_line, drain}

-- The complete lines of `cur ++ bs`, each with its newline, and what is left after the last one.
unfoldable pub scan : List ℕ → List ℕ → List (List ℕ) × List ℕ
scan cur [] = ([], cur)
scan cur (b ∷ bs) =
    let next = scan [] bs in
    let rest = scan (cur ++ b ∷ []) bs in
    if b == newline then ((cur ++ b ∷ []) ∷ next.0, next.1) else rest

pub scan-newline :
    (cur : List ℕ) (b : ℕ) (bs : List ℕ)
    → (b == newline) ≡ true
    → scan cur (b ∷ bs) ≡ ((cur ++ b ∷ []) ∷ (scan [] bs).0, (scan [] bs).1)
unfolding scan
scan-newline cur b bs h = rw h

pub scan-other :
    (cur : List ℕ) (b : ℕ) (bs : List ℕ)
    → (b == newline) ≡ false
    → scan cur (b ∷ bs) ≡ scan (cur ++ b ∷ []) bs
unfolding scan
scan-other cur b bs h = rw h

-- Cutting can stop and go on anywhere.
pub scan-append :
    (cur xs ys : List ℕ)
    → scan cur (xs ++ ys)
      ≡ ((scan cur xs).0 ++ (scan (scan cur xs).1 ys).0, (scan (scan cur xs).1 ys).1)
unfolding scan
scan-append cur [] ys = refl
scan-append cur (b ∷ bs) ys = elim (Bool-cases (b == newline)) [
  | inl h ↦ rw (h, scan-append [] bs ys)
  | inr h ↦ rw (h, scan-append (cur ++ b ∷ []) bs ys)
]

-- What is left holds no newline.
pub scan-rest :
    (cur bs : List ℕ) → scan [] cur ≡ ([], cur) → scan [] (scan cur bs).1 ≡ ([], (scan cur bs).1)
unfolding scan
scan-rest cur [] h = h
scan-rest cur (b ∷ bs) h = elim (Bool-cases (b == newline)) [
  | inl e ↦ rw e (scan-rest [] bs refl)
  | inr e ↦ rw e (scan-rest (cur ++ b ∷ []) bs (rw (scan-append [] cur (b ∷ []), h) (rw e)))
]

split_line-cons :
    (b : ℕ) (bs : List ℕ)
    → split_line (b ∷ bs) ≡ (
        if b == newline
        then some (b ∷ [], bs)
        else elim (split_line bs) [ none ↦ none | some (line, after) ↦ some (b ∷ line, after) ])
unfolding split_line
split_line-cons b bs = refl

pub split_line-none : (cur bs : List ℕ) → split_line bs ≡ none → scan cur bs ≡ ([], cur ++ bs)
unfolding scan
split_line-none cur [] h = rw append-nil
split_line-none cur (b ∷ bs) h = elim (Bool-cases (b == newline)) [
  | inl e ↦ absurd (ground (arith, split_line-cons b bs))
  | inr e ↦ elim (Option-cases (split_line bs)) [
    | inl out ↦
        scan-other cur b bs e
        ∙ split_line-none (cur ++ b ∷ []) bs out
        ∙ ap (λ (t : List ℕ). let r : List (List ℕ) × List ℕ = ([], t) in r)
            (append_assoc cur (b ∷ []) bs)
    | inr ((l, r), found) ↦ absurd (ground (arith, split_line-cons b bs))
  ]
]

pub split_line-some :
    (cur bs line rest : List ℕ)
    → split_line bs ≡ some (line, rest)
    → (scan cur bs ≡ ((cur ++ line) ∷ (scan [] rest).0, (scan [] rest).1))
      × (length rest < length bs)
unfolding split_line
split_line-some cur [] line rest h = absurd (ground arith)
split_line-some cur (b ∷ bs) line rest h = elim (Bool-cases (b == newline)) [
  | inl e ↦
      let same : b ∷ [] ≡ line = ground (arith, split_line-cons b bs) in
      let after : bs ≡ rest = ground (arith, split_line-cons b bs) in
      rw (← same, ← after) (scan-newline cur b bs e, omega arith)
  | inr e ↦ elim (Option-cases (split_line bs)) [
    | inl out ↦ absurd (ground (arith, split_line-cons b bs))
    | inr ((l, r), found) ↦
        let same : b ∷ l ≡ line = ground (arith, split_line-cons b bs) in
        let after : r ≡ rest = ground (arith, split_line-cons b bs) in
        let (cut, shorter) = split_line-some (cur ++ b ∷ []) bs l r found in
        rw (← same, ← after)
          (scan-other cur b bs e ∙ cut ∙ rw (append_assoc cur (b ∷ []) l), omega arith)
  ]
]

module _ (from_str from_slice : List ℕ → Option Value) where
  -- The usage after all lines of a list.
  unfoldable pub process_all : List (List ℕ) → Usage → Usage
  process_all [] u = u
  process_all (line ∷ lines) u = process_all lines (process_line from_str from_slice line u)

  pub process_all-append :
      (ls ms : List (List ℕ)) (u : Usage)
      → process_all (ls ++ ms) u ≡ process_all ms (process_all ls u)
  unfolding process_all
  process_all-append [] ms u = refl
  process_all-append (l ∷ ls) ms u = process_all-append ls ms (process_line from_str from_slice l u)

  empty :
      (buf : List ℕ) (u : Usage)
      → length buf ≤ 0
      → ◌≡◌ {A = Accumulator}
          (record { line_buf = buf; usage = u })
          (record { line_buf = (scan [] buf).1; usage = process_all (scan [] buf).0 u })
  unfolding scan process_all
  empty [] u h = refl
  empty (b ∷ bs) u h = absurd (omega arith)

  -- With a round for each byte the loop processes every complete line, in order, and leaves the rest.
  pub drain-scan :
      (fuel : ℕ) (a : Accumulator)
      → length a.line_buf ≤ fuel
      → drain from_str from_slice fuel a ≡ record {
        line_buf = (scan [] a.line_buf).1;
        usage = process_all (scan [] a.line_buf).0 a.usage;
      }
  unfolding drain process_all
  drain-scan zero a h = empty a.line_buf a.usage h
  drain-scan (suc fuel) a h = elim (Option-cases (split_line a.line_buf)) [
    | inl out ↦ rw (out, drain) (rw (split_line-none [] a.line_buf out))
    | inr ((line, rest), found) ↦
        let (cut, shorter) = split_line-some [] a.line_buf line rest found in
        rw (found, drain)
          (rw cut (
            drain-scan fuel
              (record { line_buf = rest; usage = process_line from_str from_slice line a.usage })
              (omega arith)))
  ]
