-- ===== src/Server/Polling.antt =====
-- autoscale/http_server.go and autoscale/rpc_server.go: the loops that wait for a topology.
use tiflash_autoscale.Prelude.{
  ℕ, zero, suc, ◌+◌, ◌-◌, ◌*◌, ◌/◌, ◌≤◌, ◌<◌, ltb, leb, String, ◌≡◌, refl, Bool, true, false, some,
  List, [], arith, Bool-cases, ◌⊎◌, inl, inr, subst,
}
use tiflash_autoscale.Float.{Float64}
use tiflash_autoscale.Config.{Settings}
use tiflash_autoscale.Meta.{get_topology}
use tiflash_autoscale.Resize.World.{World}
use tiflash_autoscale.Server.{
  second, http_resume_wait_timeout_sec, http_resume_check_interval_ms, rpc_timeout_sec, Turn,
  is_empty, resume, wait_topology, rpc_wait_topology,
}

-- A sleep takes the time it should, at least: a tenth of a second here and there.
abbrev pub pause_ns : ℕ
pause_ns = http_resume_check_interval_ms * 1000000

abbrev pub Ticks : {fl : Float64} → (ℕ → Turn fl) → Type 0
Ticks turns = (i : ℕ) → (turns i).time + pause_ns ≤ (turns (suc i)).time

-- The program after so many sleeps of the HTTP loop, each with the resume that follows it; and the
-- success of the last resume.
abbrev pub after_sleeps :
    (fl : Float64) → Settings fl → (ℕ → Turn fl) → String → World fl × Bool → ℕ → World fl × Bool
after_sleeps fl g turns tenant s zero = s
after_sleeps fl g turns tenant s (suc n) =
    resume fl g (turns n).answer tenant ((turns n).others (after_sleeps fl g turns tenant s n).0)

-- The program after so many sleeps of the grpc loop.
abbrev pub after_turns : {fl : Float64} → (ℕ → Turn fl) → World fl → ℕ → World fl
after_turns turns w zero = w
after_turns turns w (suc n) = (turns n).others (after_turns turns w n)

module _ (fl : Float64) (g : Settings fl) (turns : ℕ → Turn fl) (tenant : String) where
  -- There is no topology.
  abbrev pub Lacks : World fl → Type 0
  Lacks w = is_empty (get_topology tenant w.meta) ≡ true

  -- The clock in a turn, against the two limits.
  abbrev pub in_time : ℕ → ℕ → Bool
  in_time st i = ltb ((turns i).time - st) (http_resume_wait_timeout_sec * second)

  abbrev pub rpc_in_time : ℕ → ℕ → Bool
  rpc_in_time st i = leb ((turns i).time / second - st / second) rpc_timeout_sec

  -- A waiting loop ends in turn n: each turn before it has found no topology and is in time, and turn
  -- n has found one or is late.
  abbrev pub EndsAt : (ℕ → World fl) → (ℕ → Bool) → ℕ → Type 0
  EndsAt at timely n =
      ((i : ℕ) → i < n → Lacks (at i) × (timely i ≡ true))
      × ((is_empty (get_topology tenant (at n).meta) ≡ false) ⊎ (timely n ≡ false))

  one_more : (P : ℕ → Type 0) (n : ℕ) → ((i : ℕ) → i < n → P i) → P n → (i : ℕ) → i < suc n → P i
  one_more P n before here i h = elim (Bool-cases (ltb i n)) [
    | inl b ↦ before i (ground (arith, b))
    | inr b ↦ let e : n ≡ i = ground (arith, b, h) in subst P e here
  ]

  module _ (ticks : Ticks turns) (st : ℕ) where
    time_passes :
        (i : ℕ) → st + i * pause_ns ≤ (turns i).time → st + suc i * pause_ns ≤ (turns (suc i)).time
    time_passes i h = omega (arith, h, ticks i)

    -- At most 150 sleeps of a tenth of a second fit into 15 seconds.
    pub wait_topology-EndsAt :
        (s : World fl × Bool) (fuel i : ℕ)
        → 151 ≤ fuel + i
        → i ≤ 150
        → st + i * pause_ns ≤ (turns i).time
        → let at = after_sleeps fl g turns tenant s in
          ((j : ℕ) → j < i → Lacks (at j).0 × (in_time st j ≡ true))
          → (n : ℕ) × (n ≤ 150)
            × (wait_topology fl g turns st tenant fuel i (at i).0 (at i).1 ≡ some (at n))
            × EndsAt (λ j. (at j).0) (in_time st) n
    unfolding wait_topology
    wait_topology-EndsAt s zero i f few t waited = absurd (omega (arith, f, few))
    wait_topology-EndsAt s (suc fuel) i f few t waited =
        let at = after_sleeps fl g turns tenant s in
        elim (Bool-cases (is_empty (get_topology tenant (at i).0.meta))) [
          | inr e ↦ (i, few, rw e refl, (waited, inl e))
          | inl e ↦ elim (Bool-cases (in_time st i)) [
            | inr l ↦ (i, few, rw (e, l) refl, (waited, inr l))
            | inl l ↦
                let (n, m, r, q) =
                  wait_topology-EndsAt s fuel (suc i) (omega (arith, f)) (ground (arith, t, l))
                    (time_passes i t)
                    (one_more (λ j. Lacks (at j).0 × (in_time st j ≡ true)) i waited (e, l)) in
                (n, m, rw (e, l) r, q)
          ]
        ]

    -- At most 610 fit into the 61 seconds that are 60 when their fractions are dropped.
    pub rpc_wait_topology-EndsAt :
        (w : World fl) (fuel i : ℕ)
        → 611 ≤ fuel + i
        → i ≤ 610
        → st + i * pause_ns ≤ (turns i).time
        → let at = after_turns turns w in
          ((j : ℕ) → j < i → Lacks (at j) × (rpc_in_time st j ≡ true))
          → (n : ℕ) × (n ≤ 610)
            × (topo : List String) × (rpc_wait_topology fl g turns st tenant fuel i (at i)
                ≡ some (at n, topo))
            × ((j : ℕ) → j < n → Lacks (at j) × (rpc_in_time st j ≡ true))
            × (((rpc_in_time st n ≡ true)
                  × (is_empty topo ≡ false)
                  × (topo ≡ get_topology tenant (at n).meta))
                ⊎ ((rpc_in_time st n ≡ false) × (topo ≡ [])))
    unfolding rpc_wait_topology
    rpc_wait_topology-EndsAt w zero i f few t waited = absurd (omega (arith, f, few))
    rpc_wait_topology-EndsAt w (suc fuel) i f few t waited =
        let at = after_turns turns w in
        elim (Bool-cases (rpc_in_time st i)) [
          | inr l ↦ (i, few, [], rw l refl, waited, inr (l, refl))
          | inl l ↦ elim (Bool-cases (is_empty (get_topology tenant (at i).meta))) [
            | inr e ↦
                (i, few, get_topology tenant (at i).meta, rw (l, e) refl, waited, inl (l, e, refl))
            | inl e ↦
                let (n, m, topo, r, before, q) =
                  rpc_wait_topology-EndsAt w fuel (suc i) (omega (arith, f)) (ground (arith, t, l))
                    (time_passes i t)
                    (one_more (λ j. Lacks (at j) × (rpc_in_time st j ≡ true)) i waited (e, l)) in
                (n, m, topo, rw (l, e) r, before, q)
          ]
        ]
