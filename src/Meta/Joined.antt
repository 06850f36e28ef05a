-- ===== src/Meta/Joined.antt =====
-- What registering tenants and correcting their pods does to the states of tenants.
use tiflash_autoscale.Prelude.{
  ℕ, ℤ, String, str_eq, str_eq_iff, ◌≡◌, refl, ◌∙◌, false, not, ◌&&◌, inl, inr, arith,
  if◌then◌else◌, Bool-cases, Option-cases,
}
use tiflash_autoscale.Dict
use tiflash_autoscale.Dict.Laws.{lookup-insert}
use tiflash_autoscale.Float.{Float64}
use tiflash_autoscale.Config.{Settings, ConfigOfComputeCluster}
use tiflash_autoscale.Tenant.{
  TenantState, resumed, TenantDesc, state_eq, set_pod_with_tenant_info, set_state,
}
use tiflash_autoscale.Meta.{AutoScaleMeta, on_tenant, drop_pod}
use tiflash_autoscale.Meta.Setup.{
  auto_registers, setup_auto_pause_tenant_with_state, setup_tenant_with_config, find_or_register,
  update_local_meta_pod_of_tenant,
}
use tiflash_autoscale.Meta.States.{
  Evolve, Same, OrResumed, Evolve-refl, Evolve-map, Same-trans, trans-Same, drop_pod-Evolve,
  set_pod_with_tenant_info-Evolve,
}

-- A new name in the map of tenants.
insert-Evolve :
    (k : String) (u : TenantDesc) (c : AutoScaleMeta)
    → Dict.has k c.tenant_map ≡ false
    → Evolve Same c (record c { tenant_map = Dict.insert k u c.tenant_map })
insert-Evolve k u c n j t e =
    (t, ground (arith, lookup-insert k j u c.tenant_map, str_eq_iff k j, n, e), refl)

pub setup_tenant_with_config-Evolve :
    (k : String) (holder : ConfigOfComputeCluster) (s : TenantState) (c : AutoScaleMeta)
    → Evolve Same c (setup_tenant_with_config k holder s c).0
unfolding setup_tenant_with_config
setup_tenant_with_config-Evolve k holder s c = elim (Bool-cases (Dict.has k c.tenant_map)) [
  | inl b ↦ rw b (Evolve-refl Same c c (λ s. refl) refl)
  | inr b ↦ rw b (insert-Evolve k _ c b)
]

module _ (fl : Float64) (g : Settings fl) where
  pub setup_auto_pause_tenant_with_state-Evolve :
      (k : String) (lo hi : ℤ) (s : TenantState) (c : AutoScaleMeta)
      → Evolve Same c (setup_auto_pause_tenant_with_state fl g k lo hi s c).0
  unfolding setup_auto_pause_tenant_with_state
  setup_auto_pause_tenant_with_state-Evolve k lo hi s c =
      elim (Bool-cases (Dict.has k c.tenant_map)) [
        | inl b ↦ rw b (Evolve-refl Same c c (λ s. refl) refl)
        | inr b ↦ rw b (insert-Evolve k _ c b)
      ]

  -- What find_or_register writes over a tenant.
  resume-Evolve :
      (k : String) (u : TenantDesc) (c : AutoScaleMeta)
      → Evolve OrResumed c
          (record c { tenant_map = Dict.insert k (set_state resumed u) c.tenant_map })
  unfolding set_state
  resume-Evolve k u c j t e = elim (Bool-cases (str_eq k j)) [
    | inl d ↦ (
      set_state resumed u,
      lookup-insert k j (set_state resumed u) c.tenant_map ∙ rw d refl,
      inr refl,
    )
    | inr d ↦ (t, lookup-insert k j (set_state resumed u) c.tenant_map ∙ rw d e, inl refl)
  ]

  find_or_register-Evolve :
      (k : String) (c : AutoScaleMeta) → Evolve OrResumed c (find_or_register fl g k c).0
  unfolding find_or_register
  find_or_register-Evolve k c =
      let keep : Evolve OrResumed c c = Evolve-refl OrResumed c c (λ s. inl refl) refl in
      elim (Bool-cases (str_eq k "")) [
        | inl b ↦ rw b keep
        | inr b ↦ elim (Option-cases (Dict.lookup k c.tenant_map)) [
          | inl n ↦ elim (Bool-cases (auto_registers g.option_run_mode)) [
            | inl a ↦
                rw (b, n, a)
                  (Evolve-map Same OrResumed c
                    (setup_auto_pause_tenant_with_state fl g k g.default_min_cnt_of_pod
                      g.default_max_cnt_of_pod resumed c).0
                    (λ s s'. inl)
                    (setup_auto_pause_tenant_with_state-Evolve k g.default_min_cnt_of_pod
                      g.default_max_cnt_of_pod resumed c))
            | inr a ↦ rw (b, n, a) keep
          ]
          | inr (u, n) ↦
              elim (Bool-cases (auto_registers g.option_run_mode && not c.is_runtime_ready)) [
                | inl a ↦ rw (b, n, a) (resume-Evolve k u c)
                | inr a ↦ elim (Bool-cases (state_eq u.state resumed)) [
                  | inl d ↦ rw (b, n, a, d) keep
                  | inr d ↦ rw (b, n, a, d) (resume-Evolve k u c)
                ]
              ]
        ]
      ]

  pub update_local_meta_pod_of_tenant-Evolve :
      (now : ℤ) (p : ℕ) (k : String) (start : ℤ) (c : AutoScaleMeta)
      → Evolve OrResumed c (update_local_meta_pod_of_tenant fl g now p k start c)
  unfolding update_local_meta_pod_of_tenant
  update_local_meta_pod_of_tenant-Evolve now p k start c =
      let name = (c.heap p).name in
      let c1 =
        if str_eq (c.heap p).tenant_name k
        then c
        else on_tenant (c.heap p).tenant_name (drop_pod now name) c in
      let first : Evolve Same c c1 = elim (Bool-cases (str_eq (c.heap p).tenant_name k)) [
        | inl b ↦ rw b (Evolve-refl Same c c (λ s. refl) refl)
        | inr b ↦ rw b (drop_pod-Evolve now (c.heap p).tenant_name name c)
      ] in
      let (c2, found) = find_or_register fl g k c1 in
      let second : Evolve OrResumed c c2 =
        Same-trans OrResumed c c1 c2 first (find_or_register-Evolve k c1) in
      elim (Bool-cases found) [
        | inl b ↦ rw b (
            trans-Same OrResumed c c2 (on_tenant k (set_pod_with_tenant_info name p start) c2)
              second (set_pod_with_tenant_info-Evolve k name p start c2))
        | inr b ↦ rw b second
      ]
