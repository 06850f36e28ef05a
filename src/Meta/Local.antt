-- ===== src/Meta/Local.antt =====
-- UpdateLocalMetaPodOfTenant: a pod says which tenant it serves, and the meta data follows.
use tiflash_autoscale.Prelude.{
  ℕ, ℤ, ◌<◌, String, str_eq, str_eq_iff, ◌≡◌, refl, sym, subst, true, false, ◌&&◌, not, some, List,
  contains, without_absent, arith, if◌then◌else◌, Bool-cases, Option-cases, inl, inr,
}
use tiflash_autoscale.Dict
use tiflash_autoscale.Dict.Laws.{lookup-insert}
use tiflash_autoscale.Float.{Float64}
use tiflash_autoscale.Config.{Settings}
use tiflash_autoscale.Pod.{PodHeap}
use tiflash_autoscale.Tenant.{
  TenantState, resumed, TenantDesc, state_eq, set_state, set_pod_with_tenant_info,
  new_auto_pause_tenant_desc_with_state,
}
use tiflash_autoscale.Tenant.Shrinks.{remove_pod-Shrinks, set_pod_with_tenant_info-Grows}
use tiflash_autoscale.Meta.{AutoScaleMeta, on_tenant, drop_pod}
use tiflash_autoscale.Meta.Setup.{
  auto_registers, setup_auto_pause_tenant_with_state, find_or_register,
  update_local_meta_pod_of_tenant,
}
use tiflash_autoscale.Meta.Desc.{
  get_tenant_desc_or_warmed_pool, on_tenant-Changes, on_tenant_missing,
}
use tiflash_autoscale.Meta.Good.{Good, Grows-Good}
use tiflash_autoscale.Meta.Events.{Good-Fits, drop_pod-Good, drop_pod-unlisted}
use tiflash_autoscale.Meta.Register.{put_desc, find_or_register-Good}

-- The pods are as they were, and no descriptor has a pod that it had not.
record NoMorePods (c c' : AutoScaleMeta) : Type 0 where
  heap : c'.heap ≡ c.heap
  next : c'.next_pod ≡ c.next_pod
  lists :
      (j : String) (s : TenantDesc) (p : ℕ)
      → get_tenant_desc_or_warmed_pool j c' ≡ some s
      → contains p s.pod_list ≡ true
      → (t : TenantDesc) × (get_tenant_desc_or_warmed_pool j c ≡ some t)
        × (contains p t.pod_list ≡ true)

NoMorePods-refl : (c : AutoScaleMeta) → NoMorePods c c
NoMorePods-refl c = record { heap = refl; next = refl; lists = λ j s p e m. (s, e, m) }

put_desc-NoMorePods :
    (k : String) (t : TenantDesc) (c : AutoScaleMeta)
    → ((p : ℕ)
        → contains p t.pod_list ≡ true
        → (s : TenantDesc) × (Dict.lookup k c.tenant_map ≡ some s) × (contains p s.pod_list ≡ true))
    → NoMorePods c (put_desc k t c)
unfolding get_tenant_desc_or_warmed_pool
put_desc-NoMorePods k t c old = record {
  heap = refl;
  next = refl;
  lists = λ j s p e m. elim (Bool-cases (str_eq j "")) [
    | inl a ↦ (s, ground (arith, a), m)
    | inr a ↦ elim (Bool-cases (str_eq k j)) [
      | inl b ↦
          let (s', f, n) = old p (ground (arith, a, b, lookup-insert k j t c.tenant_map)) in
          (s', ground (arith, str_eq_iff k j, a, b), n)
      | inr b ↦ (s, ground (arith, a, b, lookup-insert k j t c.tenant_map), m)
    ]
  ];
}

-- Names and addresses of pods outlive a drop.
pub drop_pod-same :
    (now : ℤ) (k name : String) (c : AutoScaleMeta) (moving : List ℕ)
    → Good c moving
    → (p : ℕ)
    → let c' = on_tenant k (drop_pod now name) c in
      ((c'.heap p).name ≡ (c.heap p).name)
      × ((c'.heap p).ip ≡ (c.heap p).ip)
      × (c'.next_pod ≡ c.next_pod)
drop_pod-same now k name c moving v p = elim (Option-cases (get_tenant_desc_or_warmed_pool k c)) [
  | inl e ↦ rw (on_tenant_missing k (drop_pod now name) c e) (refl, refl, refl)
  | inr (t, e) ↦
      let ch = on_tenant-Changes k (drop_pod now name) c t e in
      let sh = remove_pod-Shrinks now name c.heap t (v.owned k t e).0 in
      (ground (arith, ch.heap, sh.names p), ground (arith, ch.heap, sh.ips p), ch.next)
]

module _ (fl : Float64) (g : Settings fl) where
  setup-NoMorePods :
      (k : String) (lo hi : ℤ) (s : TenantState) (c : AutoScaleMeta)
      → NoMorePods c (setup_auto_pause_tenant_with_state fl g k lo hi s c).0
  unfolding setup_auto_pause_tenant_with_state new_auto_pause_tenant_desc_with_state
  setup-NoMorePods k lo hi s c = elim (Option-cases (Dict.lookup k c.tenant_map)) [
    | inl e ↦
        rw (e, setup_auto_pause_tenant_with_state)
          (put_desc-NoMorePods k _ c (λ p m. absurd (ground arith)))
    | inr (t, e) ↦ rw (e, setup_auto_pause_tenant_with_state) (NoMorePods-refl c)
  ]

  find_or_register-NoMorePods :
      (k : String) (c : AutoScaleMeta) → NoMorePods c (find_or_register fl g k c).0
  unfolding find_or_register set_state
  find_or_register-NoMorePods k c = elim (Bool-cases (str_eq k "")) [
    | inl a ↦ rw a (NoMorePods-refl c)
    | inr a ↦ elim (Option-cases (Dict.lookup k c.tenant_map)) [
      | inl e ↦ elim (Bool-cases (auto_registers g.option_run_mode)) [
        | inl b ↦ rw (a, e, b, find_or_register) (setup-NoMorePods k _ _ resumed c)
        | inr b ↦ rw (a, e, b, find_or_register) (NoMorePods-refl c)
      ]
      | inr (t, e) ↦
          let w = put_desc-NoMorePods k (set_state resumed t) c (λ p m. (t, e, m)) in
          elim (Bool-cases (auto_registers g.option_run_mode && not c.is_runtime_ready)) [
            | inl b ↦ rw (a, e, b, find_or_register) w
            | inr b ↦ elim (Bool-cases (state_eq t.state resumed)) [
              | inl d ↦ rw (a, e, b, d, find_or_register) (NoMorePods-refl c)
              | inr d ↦ rw (a, e, b, d, find_or_register) w
            ]
          ]
    ]
  ]

  -- What the last step does, where a pod stands in the tenant's descriptor at most.
  assign-Good :
      (k : String) (p : ℕ) (start : ℤ) (c : AutoScaleMeta) (moving : List ℕ)
      → Good c moving
      → contains p moving ≡ false
      → p < c.next_pod
      → str_eq (c.heap p).ip "" ≡ false
      → ((j : String) (s : TenantDesc)
          → get_tenant_desc_or_warmed_pool j c ≡ some s
          → contains p s.pod_list ≡ true
          → j ≡ k)
      → Good (on_tenant k (set_pod_with_tenant_info (c.heap p).name p start) c) moving
  assign-Good k p start c moving v away known has_ip alone =
      let f = set_pod_with_tenant_info (c.heap p).name p start in
      elim (Option-cases (get_tenant_desc_or_warmed_pool k c)) [
        | inl e ↦ rw (on_tenant_missing k f c e) v
        | inr (t, e) ↦ subst (Good (on_tenant k f c)) (without_absent p moving away) (
            Grows-Good p e
              (set_pod_with_tenant_info-Grows (c.heap p).name p start c.heap t (v.owned k t e).0
                (Good-Fits c moving k t p v e known))
              known has_ip alone (on_tenant-Changes k f c t e) v)
      ]

  -- The last two steps, from meta data in which the pod stands in its new tenant at most.
  unfoldable pub finish : String → String → ℕ → ℤ → AutoScaleMeta → AutoScaleMeta
  finish k name p start c =
      let r = find_or_register fl g k c in
      if r.1 then on_tenant k (set_pod_with_tenant_info name p start) r.0 else r.0

  pub update_local_eq :
      (now : ℤ) (p : ℕ) (tenant : String) (start : ℤ) (c : AutoScaleMeta)
      → update_local_meta_pod_of_tenant fl g now p tenant start c
        ≡ finish tenant (c.heap p).name p start (
            if str_eq (c.heap p).tenant_name tenant
            then c
            else on_tenant (c.heap p).tenant_name (drop_pod now (c.heap p).name) c)
  unfolding update_local_meta_pod_of_tenant finish
  update_local_eq now p tenant start c = refl

  finish-Good :
      (k : String) (p : ℕ) (start : ℤ) (c : AutoScaleMeta) (moving : List ℕ)
      → Good c moving
      → contains p moving ≡ false
      → p < c.next_pod
      → str_eq (c.heap p).ip "" ≡ false
      → ((j : String) (s : TenantDesc)
          → get_tenant_desc_or_warmed_pool j c ≡ some s
          → contains p s.pod_list ≡ true
          → j ≡ k)
      → Good (finish k (c.heap p).name p start c) moving
  unfolding finish
  finish-Good k p start c moving v away known has_ip alone =
      let c' = (find_or_register fl g k c).0 in
      let w = find_or_register-Good fl g k c moving v in
      let n = find_or_register-NoMorePods k c in
      elim (Bool-cases (find_or_register fl g k c).1) [
        | inl b ↦ rw b (
            subst
              (λ (h : PodHeap).
                Good (on_tenant k (set_pod_with_tenant_info (h p).name p start) c') moving)
              n.heap
              (assign-Good k p start c' moving w away (ground (arith, n.next))
                (ground (arith, n.heap))
                (λ j s e m. let (t, f, i) = n.lists j s p e m in alone j t f i)))
        | inr b ↦ rw b w
      ]

  -- A pod that no call is moving, and that has an address, goes to the tenant it names; if that
  -- is another one than before, it leaves the one before.
  pub update_local_meta_pod_of_tenant-Good :
      (now : ℤ) (p : ℕ) (tenant : String) (start : ℤ) (c : AutoScaleMeta) (moving : List ℕ)
      → Good c moving
      → contains p moving ≡ false
      → p < c.next_pod
      → str_eq (c.heap p).ip "" ≡ false
      → Good (update_local_meta_pod_of_tenant fl g now p tenant start c) moving
  update_local_meta_pod_of_tenant-Good now p tenant start c moving v away known has_ip =
      let old = (c.heap p).tenant_name in
      let name = (c.heap p).name in
      let c' = on_tenant old (drop_pod now name) c in
      let good : Good (finish tenant name p start (if str_eq old tenant then c else c')) moving =
        elim (Bool-cases (str_eq old tenant)) [
          | inl b ↦ rw b (
              finish-Good tenant p start c moving v away known has_ip (λ j s e m.
                ground (arith, v.owned j s e, (v.owned j s e).0.listed p, str_eq_iff old tenant)))
          | inr b ↦
              let (names, ips, next) = drop_pod-same now old name c moving v p in
              rw b (
                subst (λ n. Good (finish tenant n p start c') moving) names
                  (finish-Good tenant p start c' moving (drop_pod-Good now old name c moving v) away
                    (ground (arith, next)) (ground (arith, ips))
                    (λ j s e m. absurd (ground (arith, drop_pod-unlisted now p c moving j s v e)))))
        ] in
      subst (λ x. Good x moving) (sym (update_local_eq now p tenant start c)) good
