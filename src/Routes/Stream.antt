-- ===== src/Routes/Stream.antt =====
-- src/routes/stream.rs with the callbacks of src/routes/chat.rs: a streamed response and its record.
use mybro.Prelude.{
  ℕ, ◌≡◌, refl, ap, Bool, true, false, ◌||◌, Option, none, some, List, [], ◌∷◌, ◌++◌, ltb,
  if◌then◌else◌, map,
}
use mybro.Routes.{Env, elapsed_ms}
use mybro.Stats.{RequestRecord}
use mybro.UsageParse.{Usage, no_usage, Accumulator, new_accumulator, ingest, finish}
use mybro.UsageParse.Chunks.{concat, ingest_all, lines, finish-ingest_all}
use mybro.UsageParse.Lines.{process_all}

-- What the byte stream of a response yields, each at its instant: a chunk, or an error.
pub data Item : Type 0 where
  chunk : ℕ → List ℕ → Item
  broken : ℕ → Item

-- `on_complete`: the record that is handed to the collector.
unfoldable pub on_complete : ℕ → ℕ → Usage → RequestRecord → RequestRecord
on_complete now req_start usage r = record r {
  duration_ms = elapsed_ms now req_start;
  tokens_in = usage.tokens_in;
  tokens_out = usage.tokens_out;
  cached_tokens = usage.cached;
  cache_creation_tokens = usage.creation;
  cached = ltb 0 usage.cached || ltb 0 usage.creation;
}

-- `on_first`, where it is called for the first time.
unfoldable pub on_first : ℕ → ℕ → Bool → RequestRecord → RequestRecord
on_first now start first_arrived r =
    if first_arrived then r else record r { ttft_ms = some (elapsed_ms now start) }

-- The time to the first chunk, if there is one.
abbrev pub first_ttft : ℕ → List (ℕ × List ℕ) → Option ℕ → Option ℕ
first_ttft start [] old = old
first_ttft start (c ∷ cs) old = some (elapsed_ms c.0 start)

-- Chunks with their instants, and no error.
abbrev pub chunks : List (ℕ × List ℕ) → List Item
chunks [] = []
chunks (c ∷ cs) = chunk c.0 c.1 ∷ chunks cs

module _ (env : Env) (start req_start finished_at : ℕ) where
  -- The stream that `pipe_response` makes, consumed to its end at `finished_at`. The result is the
  -- record of `on_complete`; an error ends the stream before it.
  unfoldable pub pipe_response :
      Bool → List Item → Accumulator → RequestRecord → Option RequestRecord
  pipe_response first_arrived [] a r =
      some (on_complete finished_at req_start (finish env.from_str env.from_slice a).1 r)
  pipe_response first_arrived (broken now ∷ items) a r = none
  pipe_response first_arrived (chunk now bytes ∷ items) a r =
      pipe_response true items (ingest env.from_str env.from_slice bytes a)
        (on_first now start first_arrived r)

  pipe-arrived :
      (cs : List (ℕ × List ℕ)) (a : Accumulator) (r : RequestRecord)
      → pipe_response true (chunks cs) a r
        ≡ some (
            on_complete finished_at req_start
              (finish env.from_str env.from_slice
                (ingest_all env.from_str env.from_slice (map (λ c. c.1) cs) a)).1
              r)
  unfolding pipe_response ingest_all on_first
  pipe-arrived [] a r = refl
  pipe-arrived (c ∷ cs) a r = pipe-arrived cs (ingest env.from_str env.from_slice c.1 a) r

  -- A stream that ends without an error leaves one record: the one it began with, with the time from
  -- the call to the first chunk, the duration from the request to the end, and the four figures of the usage
  -- of the lines of the whole text, however it was cut into chunks; it is cached where a cache was read or
  -- written.
  pub pipe_response-chunks :
      (cs : List (ℕ × List ℕ)) (r : RequestRecord)
      → pipe_response false (chunks cs) new_accumulator r ≡ (
          let u =
            process_all env.from_str env.from_slice (lines (concat (map (λ c. c.1) cs))) no_usage in
          some (record r {
            duration_ms = elapsed_ms finished_at req_start;
            ttft_ms = first_ttft start cs r.ttft_ms;
            tokens_in = u.tokens_in;
            tokens_out = u.tokens_out;
            cached_tokens = u.cached;
            cache_creation_tokens = u.creation;
            cached = ltb 0 u.cached || ltb 0 u.creation;
          }))
  unfolding pipe_response on_first on_complete ingest_all
  pipe_response-chunks [] r =
      ap (λ u. some (on_complete finished_at req_start u r))
        (finish-ingest_all env.from_str env.from_slice [])
  pipe_response-chunks (c ∷ cs) r =
      rw (← finish-ingest_all env.from_str env.from_slice (map (λ c. c.1) (c ∷ cs))) (
        pipe-arrived cs (ingest env.from_str env.from_slice c.1 new_accumulator)
          (record r { ttft_ms = some (elapsed_ms c.0 start) }))

  -- A stream that breaks off with an error, after any chunks, leaves no record.
  pub pipe_response-broken :
      (cs : List (ℕ × List ℕ)) (now : ℕ) (items : List Item) (first : Bool) (a : Accumulator)
      (r : RequestRecord)
      → pipe_response first (chunks cs ++ broken now ∷ items) a r ≡ none
  unfolding pipe_response
  pipe_response-broken [] now items first a r = refl
  pipe_response-broken (c ∷ cs) now items first a r =
      pipe_response-broken cs now items true (ingest env.from_str env.from_slice c.1 a)
        (on_first c.0 start first r)
