-- ===== src/Resize/Reload.antt =====
-- autoscale/meta.go: TryToReloadConf, and the invariant of AutoScaleMeta.
use tiflash_autoscale.Prelude.{ℕ, String, false, ◌≡◌, refl, sym, ap, ◌∙◌, List, length, arith}
use tiflash_autoscale.Dict
use tiflash_autoscale.Config.{ConfigOfComputeCluster}
use tiflash_autoscale.Pod.{PodHeap}
use tiflash_autoscale.Tenant.{TenantDesc, try_to_reload_conf, change_holder}
use tiflash_autoscale.Tenant.Consistent.{Consistent}
use tiflash_autoscale.Tenant.Shrinks.{Shrinks}
use tiflash_autoscale.Meta.{AutoScaleMeta, on_tenant}
use tiflash_autoscale.Meta.Good.{Good}
use tiflash_autoscale.Resize.Moving.{relabel-Good}

-- A descriptor with the same name and the same pods.
relabeled-Shrinks :
    (h : PodHeap) (t t' : TenantDesc)
    → t'.name ≡ t.name
    → t'.pod_list ≡ t.pod_list
    → t'.pod_map ≡ t.pod_map
    → Consistent h t
    → Shrinks h t h t'
relabeled-Shrinks h t t' a b c v = record {
  consistent = record {
    listed = λ p e. ground (arith, a, b, c, v.listed p);
    mapped = λ k p e. ground (arith, b, c, v.mapped k p);
    distinct = rw b v.distinct;
    keys = rw c v.keys;
    counted = ap (λ m. Dict.size m) c ∙ v.counted ∙ sym (ap (λ l. length l) b);
  };
  same_name = a;
  names = λ q. refl;
  ips = λ q. refl;
  sub = λ q m. ground (arith, b);
  others = λ q m. refl;
  released = λ q m n. absurd (ground (arith, b));
}

pub reload-Good :
    (k : String) (c : AutoScaleMeta) (moving : List ℕ)
    → Good c moving
    → Good (on_tenant k (λ h t. (h, (try_to_reload_conf false t).0)) c) moving
reload-Good k c moving v =
    relabel-Good k (λ t. (try_to_reload_conf false t).0) c moving
      (λ t.
        relabeled-Shrinks c.heap t (try_to_reload_conf false t).0
          (unfold try_to_reload_conf in ground arith) (unfold try_to_reload_conf in ground arith)
          (unfold try_to_reload_conf in ground arith))
      v

pub conf_changes-Good :
    (k : String) (latest : ConfigOfComputeCluster) (c : AutoScaleMeta) (moving : List ℕ)
    → Good c moving
    → Good (on_tenant k (λ h t. (h, change_holder latest t)) c) moving
conf_changes-Good k latest c moving v =
    relabel-Good k (change_holder latest) c moving
      (λ t w. relabeled-Shrinks c.heap t _ refl refl refl w) v
