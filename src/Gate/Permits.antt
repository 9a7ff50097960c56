-- ===== src/Gate/Permits.antt =====
-- What the gate uses of `tokio::sync::Semaphore`, with the laws that its documentation gives.
use mybro.Prelude.{ℕ, zero, suc, ◌+◌, ◌≡◌, refl, Option, none, some, arith}

-- `try_acquire` is also how a waiting `acquire_owned` completes: it takes one permit, and it goes on
-- waiting where there is none. A permit that is forgotten is one that is never released.
pub record Semaphore : Type 1 where
  pub Sem : Type 0
  pub available : Sem → ℕ
  pub create : ℕ → Sem
  pub try_acquire : Sem → Option Sem
  pub release : Sem → Sem
  pub add_permits : ℕ → Sem → Sem
  pub available-create : (n : ℕ) → available (create n) ≡ n
  pub available-try_acquire : (s t : Sem) → try_acquire s ≡ some t → available s ≡ available t + 1
  pub try_acquire-none : (s : Sem) → try_acquire s ≡ none → available s ≡ 0
  pub available-release : (s : Sem) → available (release s) ≡ available s + 1
  pub available-add_permits : (n : ℕ) (s : Sem) → available (add_permits n s) ≡ available s + n

abbrev take_one : ℕ → Option ℕ
take_one zero = none
take_one (suc n) = some n

pub take_one-some : (s t : ℕ) → take_one s ≡ some t → s ≡ t + 1
take_one-some s t h = ground arith

pub take_one-none : (s : ℕ) → take_one s ≡ none → s ≡ 0
take_one-none s h = ground arith

-- A counter meets the laws.
abbrev pub counting : Semaphore
counting = record {
  Sem = ℕ;
  available = λ s. s;
  create = λ n. n;
  try_acquire = take_one;
  release = λ s. s + 1;
  add_permits = λ n s. s + n;
  available-create = λ n. refl;
  available-try_acquire = take_one-some;
  try_acquire-none = take_one-none;
  available-release = λ s. refl;
  available-add_permits = λ n s. refl;
}
