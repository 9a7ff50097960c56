-- ===== src/Routes/Trace.antt =====
-- What a run of a handler did, read off its effects.
use mathlib.Core.List.{append_assoc}
use mybro.Prelude.{
  ℕ, zero, suc, ◌+◌, ◌≡◌, refl, ap, sym, ◌∙◌, Bool, true, false, not, ◌&&◌, ◌||◌, List, [], ◌∷◌,
  ◌++◌, ◌==◌,
}
use mybro.Routes.{
  Answer, response, transport, Effect, called, logged, throttled, recorded, slept, Reply, streaming,
  json_body, sse_text, error_body, passed_on, passed_text, bad_gateway, exhausted,
}
use mybro.Routes.Chat.{max_retries, delay_ms}
use mybro.Stats.{RequestRecord}

abbrev pub collect {ℓ} : {A : Type ℓ} → (Effect → List A) → List Effect → List A
collect f [] = []
collect f (e ∷ es) = f e ++ collect f es

pub collect-append {ℓ} :
    {A : Type ℓ} (f : Effect → List A) (es fs : List Effect)
    → collect f (es ++ fs) ≡ collect f es ++ collect f fs
collect-append f [] fs = refl
collect-append f (e ∷ es) fs =
    ap (λ r. f e ++ r) (collect-append f es fs)
    ∙ sym (append_assoc (f e) (collect f es) (collect f fs))

abbrev pub record_of : Effect → List RequestRecord
record_of (recorded r) = r ∷ []
record_of (called k a) = []
record_of (logged a s b) = []
record_of throttled = []
record_of (slept d) = []

abbrev pub call_of : Effect → List Answer
call_of (recorded r) = []
call_of (called k a) = a ∷ []
call_of (logged a s b) = []
call_of throttled = []
call_of (slept d) = []

abbrev pub sleep_of : Effect → List ℕ
sleep_of (recorded r) = []
sleep_of (called k a) = []
sleep_of (logged a s b) = []
sleep_of throttled = []
sleep_of (slept d) = d ∷ []

-- The records for the statistics, the answers of the upstream, and the sleeps, each in order.
abbrev pub records : List Effect → List RequestRecord
records es = collect record_of es

abbrev pub calls : List Effect → List Answer
calls es = collect call_of es

abbrev pub sleeps : List Effect → List ℕ
sleeps es = collect sleep_of es

abbrev pub retryable : Answer → Bool
retryable (response r) = r.status == 500 || r.status == 503
retryable (transport e) = true

abbrev pub one_of : ℕ → List RequestRecord → Bool
one_of status [] = false
one_of status (r ∷ []) = r.status == status
one_of status (r ∷ s ∷ rs) = false

-- A streamed reply has no record yet; any other has one, with the reply's status; the loop's end is
-- never reached. Where there was no response the record has 502; the reply is a bare Json, sent with 200.
abbrev pub one_record : Reply → List RequestRecord → Bool
one_record (streaming s r t) [] = true
one_record (streaming s r t) (x ∷ xs) = false
one_record (json_body b) rs = one_of 200 rs
one_record (sse_text t) rs = one_of 200 rs
one_record (error_body s t) rs = one_of s rs
one_record (passed_on s h b) rs = one_of s rs
one_record (passed_text s h t) rs = one_of s rs
one_record (bad_gateway t) rs = one_of 502 rs
one_record exhausted rs = false

-- From the given attempt on: each answer but the last asks for another attempt, and the last does so
-- only at the last attempt allowed.
abbrev pub retried : ℕ → List Answer → Bool
retried attempt [] = false
retried attempt (a ∷ []) = not (retryable a) || attempt == max_retries
retried attempt (a ∷ b ∷ more) = retryable a && retried (attempt + 1) (b ∷ more)

abbrev pub delays : ℕ → ℕ → List ℕ
delays attempt zero = []
delays attempt (suc n) = delay_ms attempt ∷ delays (attempt + 1) n
