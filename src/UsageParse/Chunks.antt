-- ===== src/UsageParse/Chunks.antt =====
-- The accumulator over a whole stream: where the chunks end does not matter.
use mybro.Json.{Value}
use mybro.Prelude.{ℕ, ◌≡◌, refl, ◌∙◌, Option, List, [], ◌∷◌, ◌++◌, length, arith}
use mybro.UsageParse.{no_usage, Accumulator, new_accumulator, ingest, finish}
use mybro.UsageParse.Lines.{
  scan, scan-append, scan-rest, process_all, process_all-append, drain-scan,
}

-- The bytes of all chunks.
unfoldable pub concat : List (List ℕ) → List ℕ
concat [] = []
concat (c ∷ cs) = c ++ concat cs

-- The lines of a stream: the complete ones, and an unfinished last one.
unfoldable pub lines : List ℕ → List (List ℕ)
lines bs = elim (scan [] bs).1 [ [] ↦ (scan [] bs).0 | c ∷ cs ↦ (scan [] bs).0 ++ (c ∷ cs) ∷ [] ]

module _ (from_str from_slice : List ℕ → Option Value) where
  unfoldable pub ingest_all : List (List ℕ) → Accumulator → Accumulator
  ingest_all [] a = a
  ingest_all (c ∷ cs) a = ingest_all cs (ingest from_str from_slice c a)

  -- A buffer with no newline in it.
  abbrev IsOpen : Accumulator → Type 0
  IsOpen a = scan [] a.line_buf ≡ ([], a.line_buf)

  after : List ℕ → Accumulator → Accumulator
  after bs a = record {
    line_buf = (scan a.line_buf bs).1;
    usage = process_all from_str from_slice (scan a.line_buf bs).0 a.usage;
  }

  ingest-after :
      (c : List ℕ) (a : Accumulator) → IsOpen a → ingest from_str from_slice c a ≡ after c a
  unfolding ingest after
  ingest-after c a open_buf =
      drain-scan from_str from_slice (length (a.line_buf ++ c))
        (record a { line_buf = a.line_buf ++ c }) (omega arith)
      ∙ rw (scan-append [] a.line_buf c, open_buf)

  after-IsOpen : (c : List ℕ) (a : Accumulator) → IsOpen a → IsOpen (after c a)
  unfolding after
  after-IsOpen c a open_buf = scan-rest a.line_buf c open_buf

  after-append : (xs ys : List ℕ) (a : Accumulator) → after ys (after xs a) ≡ after (xs ++ ys) a
  unfolding after
  after-append xs ys a =
      rw (
        scan-append a.line_buf xs ys,
        process_all-append from_str from_slice (scan a.line_buf xs).0,
      )

  ingest_all-after :
      (cs : List (List ℕ)) (a : Accumulator) → IsOpen a → ingest_all cs a ≡ after (concat cs) a
  unfolding ingest_all concat after scan process_all
  ingest_all-after [] a open_buf = refl
  ingest_all-after (c ∷ cs) a open_buf =
      rw (ingest-after c a open_buf)
        (ingest_all-after cs (after c a) (after-IsOpen c a open_buf) ∙ after-append c (concat cs) a)

  finish-lines :
      (done : List (List ℕ)) (rest : List ℕ)
      → (finish from_str from_slice
          (record { line_buf = rest; usage = process_all from_str from_slice done no_usage })).1
        ≡ process_all from_str from_slice
            (elim rest [ [] ↦ done | c ∷ cs ↦ done ++ (c ∷ cs) ∷ [] ])
            no_usage
  unfolding finish process_all
  finish-lines done [] = refl
  finish-lines done (c ∷ cs) = rw (process_all-append from_str from_slice done)

  -- For every way to cut a stream into chunks, the usage that the accumulator ends with is that of
  -- the lines of the whole stream, processed in order, an unfinished last line included.
  pub finish-ingest_all :
      (cs : List (List ℕ))
      → (finish from_str from_slice (ingest_all cs new_accumulator)).1
        ≡ process_all from_str from_slice (lines (concat cs)) no_usage
  unfolding lines after scan
  finish-ingest_all cs =
      rw (ingest_all-after cs new_accumulator refl)
        (finish-lines (scan [] (concat cs)).0 (scan [] (concat cs)).1)
