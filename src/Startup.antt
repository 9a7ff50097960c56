-- ===== src/Startup.antt =====
-- src/main.rs: the command line, what is asked of the upstream at the start and every five minutes, and the
-- port. An address is its parts at the colons; that a printed port is read back as it was is not modelled.
pub mod Binding
mod Examples
use mybro.Access.{active_key}
use mybro.Catalog.{Catalog, Snapshot, set_catalog, from_info, fetched}
use mybro.Concurrency.{Fetched, Caches, Effective, fetch_concurrency, get_effective_concurrency}
use mybro.Config.{Config}
use mybro.Config.Duration.{parse_below}
use mybro.Gate.Permits.{Semaphore}
use mybro.Gate.{Gate, reconcile}
use mybro.Json.{Value}
use mybro.KeyPool.{PoolInner}
use mybro.Prelude.{
  ℕ, zero, suc, ◌+◌, ◌%◌, ◌^◌, String, str_eq, is_empty, Bool, true, false, Option, none, some,
  List, [], ◌∷◌, ltb, leb, if◌then◌else◌,
}

pub record CliArgs : Type 0 where
  pub otel_endpoint : String
  pub otel_service_name : String
  pub otel_enabled : Bool
  pub dev_proxy : Option String
  pub mock_upstream : Option ℕ
  pub mock_delay_ms : ℕ
  pub mock_concurrency : ℕ

-- `endpoint` is the environment's, or the empty text.
abbrev pub default_args : String → CliArgs
default_args endpoint = record {
  otel_endpoint = endpoint;
  otel_service_name = "mybro";
  otel_enabled = false;
  dev_proxy = none;
  mock_upstream = none;
  mock_delay_ms = 0;
  mock_concurrency = 8;
}

pub data Flag : Type 0 where
  endpoint_flag service_name_flag enabled_flag dev_proxy_flag upstream_flag delay_flag
        concurrency_flag :
      Flag
  help_flag unknown_flag : Flag

unfoldable pub flag_of : String → Flag
flag_of arg =
    if str_eq arg "--otel-endpoint"
    then endpoint_flag
    else if str_eq arg "--otel-service-name"
    then service_name_flag
    else if str_eq arg "--otel-enabled"
    then enabled_flag
    else if str_eq arg "--dev-proxy"
    then dev_proxy_flag
    else if str_eq arg "--mock-upstream"
    then upstream_flag
    else if str_eq arg "--mock-delay-ms"
    then delay_flag
    else if str_eq arg "--mock-concurrency"
    then concurrency_flag
    else if str_eq arg "--help"
    then help_flag
    else if str_eq arg "-h"
    then help_flag
    else unknown_flag

abbrev pub takes_value : Flag → Bool
takes_value endpoint_flag = true
takes_value service_name_flag = true
takes_value enabled_flag = false
takes_value dev_proxy_flag = true
takes_value upstream_flag = true
takes_value delay_flag = true
takes_value concurrency_flag = true
takes_value help_flag = false
takes_value unknown_flag = false

abbrev pub or_default : String → Option String → String
or_default d none = d
or_default d (some s) = s

abbrev pub number_or : ℕ → ℕ → Option String → ℕ
number_or bound old none = old
number_or bound old (some s) = elim (parse_below bound s) [ none ↦ old | some n ↦ n ]

abbrev pub port_or : Option ℕ → Option String → Option ℕ
port_or old none = old
port_or old (some s) = elim (parse_below (2 ^ 16) s) [ none ↦ old | some n ↦ some n ]

-- What an option makes of the arguments, with the one that follows it.
unfoldable pub set_flag : Flag → Option String → CliArgs → CliArgs
unfolding parse_below
set_flag endpoint_flag next cli = record cli { otel_endpoint = or_default "" next }
set_flag service_name_flag next cli = record cli { otel_service_name = or_default "" next }
set_flag enabled_flag next cli = record cli { otel_enabled = true }
set_flag dev_proxy_flag next cli = record cli {
  dev_proxy = some (or_default "http://localhost:5173" next);
}
set_flag upstream_flag next cli = record cli { mock_upstream = port_or cli.mock_upstream next }
set_flag delay_flag next cli = record cli {
  mock_delay_ms = number_or (2 ^ 64) cli.mock_delay_ms next;
}
set_flag concurrency_flag next cli = record cli {
  mock_concurrency = number_or (2 ^ 64) cli.mock_concurrency next;
}
set_flag help_flag next cli = cli
set_flag unknown_flag next cli = cli

abbrev pub is_help : Flag → Bool
is_help help_flag = true
is_help endpoint_flag = false
is_help service_name_flag = false
is_help enabled_flag = false
is_help dev_proxy_flag = false
is_help upstream_flag = false
is_help delay_flag = false
is_help concurrency_flag = false
is_help unknown_flag = false

-- `waiting` is an option whose value comes next. `none` is the exit after the help.
unfoldable pub parse_from : Option Flag → List String → CliArgs → Option CliArgs
unfolding flag_of set_flag
parse_from none [] cli = some cli
parse_from (some f) [] cli = some (set_flag f none cli)
parse_from (some f) (arg ∷ args) cli = parse_from none args (set_flag f (some arg) cli)
parse_from none (arg ∷ args) cli =
    let f = flag_of arg in
    let rest =
      parse_from (if takes_value f then some f else none) args
        (if takes_value f then cli else set_flag f none cli) in
    if is_help f then none else rest

unfoldable pub parse_cli_args : String → List String → Option CliArgs
unfolding parse_from
parse_cli_args endpoint args = parse_from none args (default_args endpoint)

-- What `TcpListener::bind` comes to.
pub data Bound : Type 0 where
  listening in_use refused : Bound

-- Two parts of which the second is a port, or any other text.
pub data Addr : Type 0 where
  host_port : String → ℕ → Addr
  other : String → Addr

pub data Listening : Type 0 where
  at : Addr → Listening
  panicked out_of_fuel : Listening

-- `port + 1` on 16 bits, as in a release build.
abbrev pub next_port : ℕ → ℕ
next_port port = (port + 1) % 2 ^ 16

-- `attempt n addr` is what the n-th call of `bind` comes to; two seconds pass after a retry.
unfoldable pub bind_from : (ℕ → Addr → Bound) → ℕ → ℕ → Addr → ℕ → Listening
bind_from attempt zero n addr retries = out_of_fuel
bind_from attempt (suc fuel) n addr retries = elim (attempt n addr) [
  | listening ↦ at addr
  | refused ↦ panicked
  | in_use ↦ elim (ltb retries 3) [
    | true ↦ bind_from attempt fuel (n + 1) addr (retries + 1)
    | false ↦ elim addr [
      | other s ↦ panicked
      | host_port host port ↦ bind_from attempt fuel (n + 1) (host_port host (next_port port)) 0
    ]
  ]
]

unfoldable pub bind_with_retry : (ℕ → Addr → Bound) → ℕ → Addr → Listening
unfolding bind_from
bind_with_retry attempt fuel addr = bind_from attempt fuel 0 addr 0

-- `hard_cap.or(limit)`.
abbrev pub limit_of : Effective → Option ℕ
limit_of eff = elim eff.hard_cap [ some c ↦ some c | none ↦ eff.limit ]

-- A key to ask the upstream with; the outer `none` is the panic of the pool's state.
abbrev pub key_to_ask : ℕ → Config → PoolInner → Option (Option String)
key_to_ask now cfg pool = elim (active_key now cfg pool) [
  | none ↦ none
  | some none ↦ some none
  | some (some k) ↦ some (if is_empty k then none else some k)
]

module _ (semaphore : Semaphore) (from_slice : List ℕ → Option Value) where
  -- The gate is sized by a fetch that tells the concurrency: at the start (`fresh`), and by the task.
  unfoldable pub refresh :
      Bool
      → ℕ
      → Config
      → PoolInner
      → Fetched × ℕ
      → Caches
      → Gate semaphore
      → Option (Caches × Gate semaphore)
  unfolding fetch_concurrency get_effective_concurrency reconcile
  refresh fresh now cfg pool fetch caches gate = elim (key_to_ask now cfg pool) [
    | none ↦ none
    | some none ↦ some (caches, gate)
    | some (some k) ↦
        let r = fetch_concurrency from_slice now fresh fetch caches in
        elim (r.0) [
          | none ↦ some (r.1, gate)
          | some conc ↦
              let eff = get_effective_concurrency cfg.override_concurrency r.1 in
              some (r.1, reconcile semaphore (limit_of eff) gate)
        ]
  ]

-- The first catalog; `none` is a panic. It does not note when it was fetched.
module _ (from_slice : List ℕ → Option (List (String × Value)))
    (to_lowercase : String → String) where
  unfoldable pub seed_catalog : ℕ → Config → PoolInner → Fetched → Snapshot → Option Snapshot
  unfolding set_catalog from_info fetched
  seed_catalog now cfg pool fetch s = elim (key_to_ask now cfg pool) [
    | none ↦ none
    | some none ↦ some s
    | some (some k) ↦ elim (fetched from_slice to_lowercase fetch) [
      | none ↦ some s
      | some info ↦ elim (from_info to_lowercase info) [
        | none ↦ none
        | some cat ↦ some (set_catalog cat s)
      ]
    ]
  ]
