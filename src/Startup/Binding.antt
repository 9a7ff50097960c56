-- ===== src/Startup/Binding.antt =====
-- Which port the program ends up on.
use mybro.Prelude.{ℕ, zero, suc, ◌+◌, ◌*◌, ◌^◌, ◌<◌, ◌≡◌, refl, sym, ap, ◌∙◌, String, arith}
use mybro.Startup.{
  Bound, listening, in_use, Addr, host_port, at, next_port, bind_from, bind_with_retry,
}

module _ (attempt : ℕ → Addr → Bound) (host : String) where
  -- Four calls on a port that is in use lead to the next port.
  four_calls :
      (port fuel n : ℕ)
      → ((m : ℕ) → attempt m (host_port host port) ≡ in_use)
      → bind_from attempt (suc (suc (suc (suc fuel)))) n (host_port host port) 0
        ≡ bind_from attempt fuel (n + 1 + 1 + 1 + 1) (host_port host (next_port port)) 0
  unfolding bind_from
  four_calls port fuel n busy =
      rw (bind_from, busy n, busy (n + 1), busy (n + 1 + 1), busy (n + 1 + 1 + 1)) refl

  bind_from-busy :
      (k port fuel n : ℕ)
      → port + k < 2 ^ 16
      → 4 * k < fuel
      → ((m i : ℕ) → i < k → attempt m (host_port host (port + i)) ≡ in_use)
      → ((m : ℕ) → attempt m (host_port host (port + k)) ≡ listening)
      → bind_from attempt fuel n (host_port host port) 0 ≡ at (host_port host (port + k))
  unfolding bind_from
  bind_from-busy zero port zero n small enough busy free = absurd (omega arith)
  bind_from-busy zero port (suc fuel) n small enough busy free =
      let e : port + 0 ≡ port = omega arith in
      let here : attempt n (host_port host port) ≡ listening =
        ap (λ q. attempt n (host_port host q)) (sym e) ∙ free n in
      rw (bind_from, here) (ap (λ q. at (host_port host q)) (sym e))
  bind_from-busy (suc k) port (suc (suc (suc (suc fuel)))) n small enough busy free =
      let zero_at : port + 0 ≡ port = omega arith in
      let next : next_port port ≡ port + 1 = omega arith in
      let step : (i : ℕ) → port + suc i ≡ port + 1 + i = λ i. omega arith in
      four_calls port fuel n
        (λ m. ap (λ q. attempt m (host_port host q)) (sym zero_at) ∙ busy m 0 (omega arith))
      ∙ ap (λ q. bind_from attempt fuel (n + 1 + 1 + 1 + 1) (host_port host q) 0) next
      ∙ bind_from-busy k (port + 1) fuel (n + 1 + 1 + 1 + 1) (omega arith) (omega arith)
          (λ m i lt.
            ap (λ q. attempt m (host_port host q)) (sym (step i)) ∙ busy m (suc i) (omega arith))
          (λ m. ap (λ q. attempt m (host_port host q)) (sym (step k)) ∙ free m)
      ∙ ap (λ q. at (host_port host q)) (sym (step k))
  bind_from-busy (suc k) port zero n small enough busy free = absurd (omega arith)
  bind_from-busy (suc k) port (suc zero) n small enough busy free = absurd (omega arith)
  bind_from-busy (suc k) port (suc (suc zero)) n small enough busy free = absurd (omega arith)
  bind_from-busy (suc k) port (suc (suc (suc zero))) n small enough busy free = absurd (omega arith)

  -- Where the first k ports from the configured one on stay in use and the next one is free, and all of them
  -- are below 2^16, at most four calls for each used port and one more lead to the first free port.
  pub bind_with_retry-free :
      (k port fuel : ℕ)
      → port + k < 2 ^ 16
      → 4 * k < fuel
      → ((m i : ℕ) → i < k → attempt m (host_port host (port + i)) ≡ in_use)
      → ((m : ℕ) → attempt m (host_port host (port + k)) ≡ listening)
      → bind_with_retry attempt fuel (host_port host port) ≡ at (host_port host (port + k))
  unfolding bind_with_retry
  bind_with_retry-free k port fuel small enough busy free =
      bind_from-busy k port fuel 0 small enough busy free
