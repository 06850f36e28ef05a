-- ===== src/Resize/Prepared.antt =====
-- autoscale/meta.go: the state that NewAutoScaleMeta makes, among the states that the steps reach.
use tiflash_autoscale.Prelude.{
  ℤ, pos, leb_ℤ, String, str_eq, ◌≡◌, refl, Bool, true, false, Option, none, [], if◌then◌else◌,
  Bool-cases, inl, inr,
}
use tiflash_autoscale.Float.{Float64}
use tiflash_autoscale.Config.{Settings, CustomScaleRule, new_cpu_scale_rule}
use tiflash_autoscale.Tenant.{TenantState, resumed, paused}
use tiflash_autoscale.Meta.{AutoScaleMeta}
use tiflash_autoscale.Meta.Setup.{new_auto_scale_meta}
use tiflash_autoscale.Meta.Mock.{
  is_local, mock_config, setup_manual_pause_mock_tenant, setup_auto_pause_mock_tenant,
  load_tenants_4_test, prepare_auto_scale_meta,
}
use tiflash_autoscale.Resize.World.{World}
use tiflash_autoscale.Resize.Steps.{Reachable, start, and_then, new_tenant, new_auto_pause_tenant}

module _ (fl : Float64) (g : Settings fl) (w : World fl) (now : ℤ) where
  abbrev With : AutoScaleMeta → Type 0
  With c = Reachable fl g (record w { meta = c })

  manual-With :
      (name : String) (lo hi : ℤ) (disabled : Bool) (window : ℤ) (rule : Option CustomScaleRule)
      (c : AutoScaleMeta)
      → str_eq name "" ≡ false
      → With c
      → With (setup_manual_pause_mock_tenant fl g now name lo hi disabled window rule c)
  unfolding setup_manual_pause_mock_tenant
  manual-With name lo hi disabled window rule c named r =
      and_then _ _ r
        (new_tenant name (mock_config fl g now lo hi disabled (pos 0) window rule) resumed named) tt

  auto-With :
      (name : String) (lo hi : ℤ) (disabled : Bool) (interval window : ℤ)
      (rule : Option CustomScaleRule) (state : TenantState) (c : AutoScaleMeta)
      → str_eq name "" ≡ false
      → With c
      → With
          (setup_auto_pause_mock_tenant fl g now name lo hi disabled interval window rule state c).0
  unfolding setup_auto_pause_mock_tenant
  auto-With name lo hi disabled interval window rule state c named r =
      elim (Bool-cases (leb_ℤ interval (pos 0))) [
        | inl b ↦ rw b r
        | inr b ↦ rw b (
            and_then _ _ r
              (new_tenant name (mock_config fl g now lo hi disabled interval window rule) state
                named)
              tt)
      ]

  load_tenants_4_test-With : (c : AutoScaleMeta) → With c → With (load_tenants_4_test fl g now c)
  unfolding load_tenants_4_test
  load_tenants_4_test-With c r =
      let r1 = and_then _ _ r (new_auto_pause_tenant "t1" (pos 1) (pos 4) paused refl) tt in
      let rule = new_cpu_scale_rule (pos 40) (pos 80) in
      let r2 = manual-With "t2" (pos 1) (pos 4) false (pos 60) none _ refl r1 in
      let r3 = manual-With "t3" (pos 1) (pos 4) true (pos 60) none _ refl r2 in
      let r4 =
        manual-With "t4" (pos 1) (pos 4) false (pos 120) (new_cpu_scale_rule (pos 60) (pos 80)) _
          refl r3 in
      let r5 =
        manual-With "t5" (pos 1) (pos 4) false (pos 60) (new_cpu_scale_rule (pos 99) (pos 100)) _
          refl r4 in
      let r6 =
        manual-With "t6" (pos 1) (pos 4) false (pos 60) (new_cpu_scale_rule (pos 99) (pos 100)) _
          refl r5 in
      let r7 =
        manual-With "t7" (pos 1) (pos 4) false (pos 60) (new_cpu_scale_rule (pos 20) (pos 80)) _
          refl r6 in
      let r8 = auto-With "t8" (pos 1) (pos 4) false (pos 60) (pos 120) rule paused _ refl r7 in
      let r9 = auto-With "t9" (pos 1) (pos 4) false (pos 60) (pos 60) rule resumed _ refl r8 in
      let r10 = auto-With "t10" (pos 1) (pos 4) false (pos 1800) (pos 60) rule paused _ refl r9 in
      auto-With "t11" (pos 1) (pos 4) false (pos 300) (pos 120) rule resumed _ refl r10

  -- Where no call runs and no pod is waited for or asked, a world with the meta data of NewAutoScaleMeta is one
  -- that the steps reach.
  pub prepared-Reachable :
      (special : Bool)
      → w.calls ≡ []
      → w.waits ≡ []
      → w.asked ≡ []
      → w.corrections ≡ []
      → Reachable fl g (record w { meta = prepare_auto_scale_meta fl g special now })
  unfolding prepare_auto_scale_meta
  prepared-Reachable special calls waits asked corrections =
      let first : With (new_auto_scale_meta fl g) =
        start (record w { meta = new_auto_scale_meta fl g }) refl calls waits asked corrections in
      let c =
        if special
        then setup_manual_pause_mock_tenant fl g now "fixpool" (pos 1) (pos 1) false (pos 300) none
            (new_auto_scale_meta fl g)
        else new_auto_scale_meta fl g in
      let second : With c = elim (Bool-cases special) [
        | inl b ↦ rw b (manual-With "fixpool" (pos 1) (pos 1) false (pos 300) none _ refl first)
        | inr b ↦ rw b first
      ] in
      elim (Bool-cases (is_local g.option_run_mode)) [
        | inl b ↦ rw b (load_tenants_4_test-With c second)
        | inr b ↦ rw b second
      ]
