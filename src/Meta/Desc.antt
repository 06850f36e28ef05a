-- ===== src/Meta/Desc.antt =====
-- Which descriptor a name stands for (getTenantDescOrWarmedPool), and what on_tenant changes.
use tiflash_autoscale.Prelude.{
  String, str_eq, str_eq_iff, ◌≡◌, Option, none, some, arith, if◌then◌else◌, Bool-cases, inl, inr,
}
use tiflash_autoscale.Dict
use tiflash_autoscale.Dict.Laws.{lookup-insert}
use tiflash_autoscale.Pod.{PodHeap}
use tiflash_autoscale.Tenant.{TenantDesc}
use tiflash_autoscale.Meta.{AutoScaleMeta, on_tenant}

unfoldable pub get_tenant_desc_or_warmed_pool : String → AutoScaleMeta → Option TenantDesc
get_tenant_desc_or_warmed_pool tenant c =
    if str_eq tenant "" then some c.prewarm_pool.warmed_pods else Dict.lookup tenant c.tenant_map

-- The descriptor of one name and the heap have changed.
pub record Changes (k : String) (h' : PodHeap) (t' : TenantDesc) (c c' : AutoScaleMeta)
    : Type 0 where
  pub heap : c'.heap ≡ h'
  pub next : c'.next_pod ≡ c.next_pod
  pub pods : c'.pod_desc_map ≡ c.pod_desc_map
  pub descs :
      (j : String)
      → get_tenant_desc_or_warmed_pool j c'
        ≡ (if str_eq k j then some t' else get_tenant_desc_or_warmed_pool j c)

pub on_tenant_missing :
    (k : String) (f : PodHeap → TenantDesc → PodHeap × TenantDesc) (c : AutoScaleMeta)
    → get_tenant_desc_or_warmed_pool k c ≡ none
    → on_tenant k f c ≡ c
unfolding on_tenant get_tenant_desc_or_warmed_pool
on_tenant_missing k f c e = ground arith

pub on_tenant-Changes :
    (k : String) (f : PodHeap → TenantDesc → PodHeap × TenantDesc) (c : AutoScaleMeta)
    (t : TenantDesc)
    → get_tenant_desc_or_warmed_pool k c ≡ some t
    → Changes k (f c.heap t).0 (f c.heap t).1 c (on_tenant k f c)
unfolding on_tenant get_tenant_desc_or_warmed_pool
on_tenant-Changes k f c t e = elim (Bool-cases (str_eq k "")) [
  | inl b ↦ record {
    heap = ground (arith);
    next = ground arith;
    pods = ground arith;
    descs = λ j. ground (arith, str_eq_iff k "", str_eq_iff k j, str_eq_iff j "");
  }
  | inr b ↦ record {
    heap = ground arith;
    next = ground arith;
    pods = ground arith;
    descs = λ j. ground (
      arith,
      str_eq_iff k "",
      str_eq_iff k j,
      str_eq_iff j "",
      lookup-insert k j (f c.heap t).1 c.tenant_map,
    );
  }
]
