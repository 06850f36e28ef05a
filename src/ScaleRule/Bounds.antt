-- ===== src/ScaleRule/Bounds.antt =====
-- autoscale/scale_rule.go: the rule, the bounds of a tenant and the use of its processors.
use tiflash_autoscale.Prelude.{
  ℕ, ℤ, pos, negsuc, ◌+ℤ◌, ◌-ℤ◌, ltb_ℤ, ◌≤ℤ◌, max_ℤ, min_ℤ, ◌≡◌, refl, Bool, true, ◌&&◌, some,
  arith, Bool-cases, ◌⊎◌, inl, inr,
}
use tiflash_autoscale.Float.{Float64}
use tiflash_autoscale.Config.{Settings, get_min_cnt_of_pod, get_max_cnt_of_pod}
use tiflash_autoscale.Tenant.{TenantDesc, get_cnt_of_pods}
use tiflash_autoscale.ScaleRule.{
  scale_out, scale_in, target_cnt_of_pod, compute_best_pods_in_rule_of_compute, unchanged,
}

module _ (fl : Float64) (g : Settings fl) where
  scale_out-bounds :
      (old : ℕ) (lo hi target : ℤ) (b : Bool)
      → lo ≤ℤ pos old
      → pos old ≤ℤ hi
      → let r = scale_out fl g old hi target b in
        (r ≡ unchanged fl g)
        ⊎ ((r.1 ≡ r.0 -ℤ pos old) × (lo ≤ℤ r.0) × (r.0 ≤ℤ hi) × (pos old ≤ℤ r.0))
  unfolding scale_out ◌+ℤ◌ ◌-ℤ◌ min_ℤ
  scale_out-bounds old lo hi target b x y = elim (Bool-cases (ltb_ℤ target (pos old))) [
    | inl e ↦ rw e (inl refl)
    | inr e ↦ elim (Bool-cases b) [
      | inl d ↦ rw (e, d) (inr (refl, ground arith, ground arith, ground arith))
      | inr d ↦ rw (e, d) (inr (refl, ground arith, ground arith, ground arith))
    ]
  ]

  scale_in-bounds :
      (old : ℕ) (lo hi target : ℤ) (b : Bool)
      → lo ≤ℤ pos old
      → pos old ≤ℤ hi
      → let r = scale_in fl g old lo target b in
        (r ≡ unchanged fl g)
        ⊎ ((r.1 ≡ r.0 -ℤ pos old) × (lo ≤ℤ r.0) × (r.0 ≤ℤ hi) × (r.0 ≤ℤ pos old))
  unfolding scale_in ◌+ℤ◌ ◌-ℤ◌ max_ℤ
  scale_in-bounds old lo hi target b x y = elim (Bool-cases (ltb_ℤ (pos old) target)) [
    | inl e ↦ rw e (inl refl)
    | inr e ↦ elim (Bool-cases b) [
      | inl d ↦ rw (e, d) (inr (refl, ground arith, ground arith, ground arith))
      | inr d ↦ rw (e, d) (inr (refl, ground arith, ground arith, ground arith))
    ]
  ]

  abbrev pub limit_usage : fl.Float → fl.Float
  limit_usage upper = fl.mul (fl.of_int (pos g.default_core_of_pod)) upper

  -- For a tenant whose number of pods is within its bounds, the rule says either that there is no
  -- change, or a number of pods within the bounds and how it differs from the one there is: no
  -- fewer pods if the use is above the upper limit, no more if it is below the lower one.
  pub rule_bounds :
      (t : TenantDesc) (usage lower upper : fl.Float)
      → get_min_cnt_of_pod fl g t.conf ≤ℤ pos (get_cnt_of_pods t)
      → pos (get_cnt_of_pods t) ≤ℤ get_max_cnt_of_pod fl g t.conf
      → let r = compute_best_pods_in_rule_of_compute fl g (some t) usage lower upper in
        (r ≡ (negsuc 0, pos 0))
        ⊎ ((r.1 ≡ r.0 -ℤ pos (get_cnt_of_pods t))
            × (get_min_cnt_of_pod fl g t.conf ≤ℤ r.0)
            × (r.0 ≤ℤ get_max_cnt_of_pod fl g t.conf)
            × (((fl.lt (limit_usage upper) usage ≡ true) × (pos (get_cnt_of_pods t) ≤ℤ r.0))
                ⊎ ((fl.lt usage (limit_usage lower) ≡ true) × (r.0 ≤ℤ pos (get_cnt_of_pods t)))))
  unfolding compute_best_pods_in_rule_of_compute
  rule_bounds t usage lower upper x y =
      let low = limit_usage lower in
      let up = limit_usage upper in
      let old = get_cnt_of_pods t in
      let lo = get_min_cnt_of_pod fl g t.conf in
      let hi = get_max_cnt_of_pod fl g t.conf in
      elim (Bool-cases (fl.le upper lower)) [
        | inl a ↦ rw a (inl refl)
        | inr a ↦ elim (Bool-cases (fl.le low usage && fl.le usage up)) [
          | inl b ↦ rw (a, b) (inl refl)
          | inr b ↦ elim (Bool-cases (fl.eq (fl.add low up) (fl.of_int (pos 0)))) [
            | inl c ↦ rw (a, b, c) (inl refl)
            | inr c ↦ elim (Bool-cases (fl.lt up usage)) [
              | inl d ↦
                  rw (a, b, c, d)
                    (elim (scale_out-bounds old lo hi (target_cnt_of_pod fl g old usage lower upper)
                      _ x y) [ inl u ↦ inl u | inr (u, v, w, z) ↦ inr (u, v, w, inl (refl, z)) ])
              | inr d ↦ elim (Bool-cases (fl.lt usage low)) [
                | inl e ↦
                    rw (a, b, c, d, e)
                      (elim (scale_in-bounds old lo hi
                        (target_cnt_of_pod fl g old usage lower upper) _ x y) [
                          | inl u ↦ inl u
                          | inr (u, v, w, z) ↦ inr (u, v, w, inr (refl, z))
                        ])
                | inr e ↦ rw (a, b, c, d, e) (inl refl)
              ]
            ]
          ]
        ]
      ]
