-- ===== src/Startup/Examples.antt =====
-- The start at concrete inputs: tests, and its theorem applied.
use mybro.Prelude.{ℕ, ◌+◌, ◌<◌, ◌≡◌, refl, none, some, [], ◌∷◌, ltb, ◌==◌, if◌then◌else◌, arith}
use mybro.Startup.{
  default_args, parse_cli_args, Bound, listening, in_use, Addr, host_port, other, at,
  bind_with_retry,
}
use mybro.Startup.Binding.{bind_with_retry-free}

-- A value is taken as it comes, also where it looks like an option.
parsed :
    parse_cli_args "" (
      "--mock-upstream" ∷ "9000" ∷ "--otel-endpoint" ∷ "--otel-enabled" ∷ "--mock-delay-ms" ∷ "x"
      ∷ [])
    ≡ some
        (record (default_args "") { mock_upstream = some 9000; otel_endpoint = "--otel-enabled" })
unfolding parse_cli_args
parsed = refl

helps : parse_cli_args "" ("--verbose" ∷ "-h" ∷ []) ≡ none
unfolding parse_cli_args
helps = refl

abbrev two_used : ℕ → Addr → Bound
two_used n (host_port host port) = if ltb port 8086 then in_use else listening
two_used n (other s) = in_use

two_used-in_use : (m i : ℕ) → i < 2 → two_used m (host_port "127.0.0.1" (8084 + i)) ≡ in_use
two_used-in_use m i h = ground arith

bind_with_retry-free_example :
    bind_with_retry two_used 9 (host_port "127.0.0.1" 8084) ≡ at (host_port "127.0.0.1" 8086)
bind_with_retry-free_example =
    bind_with_retry-free two_used "127.0.0.1" 2 8084 9 (omega arith) (omega arith) two_used-in_use
      (λ m. refl)

-- After the last port comes port 0, which the system replaces by any free one.
abbrev last_used : ℕ → Addr → Bound
last_used n (host_port host port) = if port == 65535 then in_use else listening
last_used n (other s) = in_use

wraps : bind_with_retry last_used 9 (host_port "127.0.0.1" 65535) ≡ at (host_port "127.0.0.1" 0)
unfolding bind_with_retry
wraps = refl
