-- ===== src/Meta/Register.antt =====
-- New tenants, changes of a tenant's state, and UpdateLocalMetaPodOfTenant.
use tiflash_autoscale.Prelude.{
  ℕ, ℤ, String, str_eq, str_eq_iff, ◌≡◌, refl, ap, ◌∙◌, false, ◌&&◌, not, some, List, [], arith,
  Bool-cases, Option-cases, inl, inr,
}
use tiflash_autoscale.Dict
use tiflash_autoscale.Dict.{Dict}
use tiflash_autoscale.Dict.Laws.{lookup-insert}
use tiflash_autoscale.Float.{Float64}
use tiflash_autoscale.Config.{Settings, ConfigOfComputeCluster}
use tiflash_autoscale.Pod.{PodHeap}
use tiflash_autoscale.Tenant.{
  TenantState, resumed, TenantDesc, state_eq, switch_state, set_state,
  new_auto_pause_tenant_desc_with_state, new_tenant_desc_with_config_and_state,
}
use tiflash_autoscale.Tenant.Consistent.{Consistent}
use tiflash_autoscale.Tenant.Shrinks.{Shrinks, Shrinks-refl}
use tiflash_autoscale.Meta.{AutoScaleMeta}
use tiflash_autoscale.Meta.Setup.{
  auto_registers, setup_auto_pause_tenant_with_state, find_or_register, setup_tenant_with_config,
}
use tiflash_autoscale.Meta.Desc.{get_tenant_desc_or_warmed_pool, Changes}
use tiflash_autoscale.Meta.Good.{Good, Shrinks-Good, changed_at}

-- A descriptor without pods.
pub Empty-Consistent :
    (h : PodHeap) (t : TenantDesc) → t.pod_map ≡ [] → t.pod_list ≡ [] → Consistent h t
Empty-Consistent h t m l = record {
  listed = λ p e. absurd (ground (arith, l));
  mapped = λ k p e. absurd (unfold Dict.lookup in ground (arith, m));
  distinct = rw l tt;
  keys = rw m tt;
  counted = rw (l, m) refl;
}

-- A name that stood for no descriptor gets one without pods.
pub New-Good :
    {k : String} {t' : TenantDesc} {c c' : AutoScaleMeta} {moving : List ℕ}
    → t'.name ≡ k
    → t'.pod_map ≡ []
    → t'.pod_list ≡ []
    → Changes k c.heap t' c c'
    → Good c moving
    → Good c' moving
New-Good {k} {t'} {c} {c'} {moving} name m l ch v = record {
  owned = λ j s e. elim (changed_at j s ch e) [
    | inl (a, b) ↦ (
      rw (b, ch.heap) (Empty-Consistent c.heap t' m l),
      ap (λ (x : TenantDesc). x.name) b ∙ name ∙ a,
    )
    | inr (a, b) ↦ (rw ch.heap (v.owned j s b).0, (v.owned j s b).1)
  ];
  listed = λ j s p e n. elim (changed_at j s ch e) [
    | inl (a, b) ↦ absurd (ground (arith, l))
    | inr (a, b) ↦ ground (arith, ch.heap, ch.next, v.listed j s p b n)
  ];
  registered = λ j p e. ground (arith, ch.heap, ch.pods, ch.next, v.registered j p);
  unique = λ p q a b e. ground (arith, ch.heap, ch.next, v.unique p q);
  loose = λ p n.
      let f = v.loose p n in
      record {
        known = ground (arith, ch.next, f.known);
        has_ip = ground (arith, ch.heap, f.has_ip);
        no_tenant = ground (arith, ch.heap, f.no_tenant);
        unlisted = λ j s e. elim (changed_at j s ch e) [
          | inl (a, b) ↦ ground (arith, l)
          | inr (a, b) ↦ f.unlisted j s b
        ];
      };
}

abbrev pub put_desc : String → TenantDesc → AutoScaleMeta → AutoScaleMeta
put_desc k t c = record c { tenant_map = Dict.insert k t c.tenant_map }

put_desc-Changes :
    (k : String) (t : TenantDesc) (c : AutoScaleMeta)
    → str_eq k "" ≡ false
    → Changes k c.heap t c (put_desc k t c)
unfolding get_tenant_desc_or_warmed_pool
put_desc-Changes k t c named = record {
  heap = refl;
  next = refl;
  pods = refl;
  descs = λ j. ground (arith, str_eq_iff k j, str_eq_iff j "", lookup-insert k j t c.tenant_map);
}

-- The state of a descriptor is no matter of its pods.
set_state-Shrinks :
    (s : TenantState) (h : PodHeap) (t : TenantDesc)
    → Consistent h t
    → Shrinks h t h (set_state s t)
unfolding set_state
set_state-Shrinks s h t v = record {
  consistent = record {
    listed = v.listed;
    mapped = v.mapped;
    distinct = v.distinct;
    keys = v.keys;
    counted = v.counted;
  };
  same_name = refl;
  names = λ q. refl;
  ips = λ q. refl;
  sub = λ q m. m;
  others = λ q m. refl;
  released = λ q m n. absurd (ground arith);
}

pub switch_state-Shrinks :
    (from to : TenantState) (h : PodHeap) (t : TenantDesc)
    → Consistent h t
    → Shrinks h t h (switch_state from to t).0
unfolding switch_state
switch_state-Shrinks from to h t v = elim (Bool-cases (state_eq t.state from)) [
  | inl e ↦ rw e (unfold set_state in set_state-Shrinks to h t v)
  | inr e ↦ rw e (Shrinks-refl h t v)
]

pub desc_of_named :
    (k : String) (c : AutoScaleMeta)
    → str_eq k "" ≡ false
    → get_tenant_desc_or_warmed_pool k c ≡ Dict.lookup k c.tenant_map
unfolding get_tenant_desc_or_warmed_pool
desc_of_named k c named = rw named refl

set_state-Good :
    (s : TenantState) (k : String) (t : TenantDesc) (c : AutoScaleMeta) (moving : List ℕ)
    → Good c moving
    → str_eq k "" ≡ false
    → Dict.lookup k c.tenant_map ≡ some t
    → Good (put_desc k (set_state s t) c) moving
set_state-Good s k t c moving v named e =
    let found = desc_of_named k c named ∙ e in
    Shrinks-Good found (set_state-Shrinks s c.heap t (v.owned k t found).0)
      (put_desc-Changes k (set_state s t) c named) v

pub setup_tenant_with_config-Good :
    (k : String) (holder : ConfigOfComputeCluster) (s : TenantState) (c : AutoScaleMeta)
    (moving : List ℕ)
    → Good c moving
    → str_eq k "" ≡ false
    → Good (setup_tenant_with_config k holder s c).0 moving
unfolding setup_tenant_with_config new_tenant_desc_with_config_and_state
setup_tenant_with_config-Good k holder s c moving v named =
    elim (Option-cases (Dict.lookup k c.tenant_map)) [
      | inl e ↦
          rw (e, setup_tenant_with_config)
            (New-Good {k = k} refl refl refl (put_desc-Changes k _ c named) v)
      | inr (t, e) ↦ rw (e, setup_tenant_with_config) v
    ]

module _ (fl : Float64) (g : Settings fl) where
  pub setup_auto_pause_tenant_with_state-Good :
      (k : String) (lo hi : ℤ) (s : TenantState) (c : AutoScaleMeta) (moving : List ℕ)
      → Good c moving
      → str_eq k "" ≡ false
      → Good (setup_auto_pause_tenant_with_state fl g k lo hi s c).0 moving
  unfolding setup_auto_pause_tenant_with_state new_auto_pause_tenant_desc_with_state
  setup_auto_pause_tenant_with_state-Good k lo hi s c moving v named =
      elim (Option-cases (Dict.lookup k c.tenant_map)) [
        | inl e ↦
            rw (e, setup_auto_pause_tenant_with_state)
              (New-Good {k = k} refl refl refl (put_desc-Changes k _ c named) v)
        | inr (t, e) ↦ rw (e, setup_auto_pause_tenant_with_state) v
      ]

  pub find_or_register-Good :
      (k : String) (c : AutoScaleMeta) (moving : List ℕ)
      → Good c moving
      → Good (find_or_register fl g k c).0 moving
  unfolding find_or_register
  find_or_register-Good k c moving v = elim (Bool-cases (str_eq k "")) [
    | inl a ↦ rw a v
    | inr a ↦ elim (Option-cases (Dict.lookup k c.tenant_map)) [
      | inl e ↦ elim (Bool-cases (auto_registers g.option_run_mode)) [
        | inl b ↦
            rw (a, e, b, find_or_register)
              (setup_auto_pause_tenant_with_state-Good k _ _ resumed c moving v a)
        | inr b ↦ rw (a, e, b, find_or_register) v
      ]
      | inr (t, e) ↦
          elim (Bool-cases (auto_registers g.option_run_mode && not c.is_runtime_ready)) [
            | inl b ↦ rw (a, e, b, find_or_register) (set_state-Good resumed k t c moving v a e)
            | inr b ↦ elim (Bool-cases (state_eq t.state resumed)) [
              | inl d ↦ rw (a, e, b, d, find_or_register) v
              | inr d ↦
                  rw (a, e, b, d, find_or_register) (set_state-Good resumed k t c moving v a e)
            ]
          ]
    ]
  ]
