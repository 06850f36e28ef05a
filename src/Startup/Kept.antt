-- ===== src/Startup/Kept.antt =====
-- autoscale/meta.go: SortPodsAtStartUp, and the invariant of AutoScaleMeta.
use tiflash_autoscale.Prelude.{
  ℕ, suc, ◌==◌, String, ◌≡◌, refl, sym, ◌∙◌, true, false, List, [], ◌∷◌, length, contains,
  AllDistinct, if◌then◌else◌, arith, Option-cases, inl, inr,
}
use tiflash_autoscale.Pod.{PodHeap}
use tiflash_autoscale.Tenant.{TenantDesc}
use tiflash_autoscale.Tenant.Consistent.{Consistent}
use tiflash_autoscale.Tenant.Shrinks.{Shrinks}
use tiflash_autoscale.Meta.{AutoScaleMeta, on_tenant}
use tiflash_autoscale.Meta.Desc.{
  get_tenant_desc_or_warmed_pool, on_tenant-Changes, on_tenant_missing,
}
use tiflash_autoscale.Meta.Good.{Good, Shrinks-Good}
use tiflash_autoscale.Startup.{insert_by_start, sort_by_start, sort_pods_at_start_up}

module _ (h : PodHeap) where
  contains-insert_by_start :
      (p q : ℕ) (ps : List ℕ)
      → contains q (insert_by_start h p ps) ≡ (if p == q then true else contains q ps)
  unfolding insert_by_start
  contains-insert_by_start p q [] = refl
  contains-insert_by_start p q (r ∷ ps) = ground (arith, contains-insert_by_start p q ps)

  AllDistinct-insert_by_start :
      (p : ℕ) (ps : List ℕ)
      → AllDistinct ps
      → contains p ps ≡ false
      → AllDistinct (insert_by_start h p ps)
  unfolding insert_by_start
  AllDistinct-insert_by_start p [] d n = (refl, tt)
  AllDistinct-insert_by_start p (r ∷ ps) d n =
      ground (arith, AllDistinct-insert_by_start p ps d.1, contains-insert_by_start p r ps)

  length-insert_by_start : (p : ℕ) (ps : List ℕ) → length (insert_by_start h p ps) ≡ suc (length ps)
  unfolding insert_by_start
  length-insert_by_start p [] = refl
  length-insert_by_start p (r ∷ ps) = ground (arith, length-insert_by_start p ps)

  contains-sort_by_start : (q : ℕ) (ps : List ℕ) → contains q (sort_by_start h ps) ≡ contains q ps
  unfolding sort_by_start
  contains-sort_by_start q [] = refl
  contains-sort_by_start q (p ∷ ps) =
      ground (arith, contains-insert_by_start p q (sort_by_start h ps), contains-sort_by_start q ps)

  AllDistinct-sort_by_start : (ps : List ℕ) → AllDistinct ps → AllDistinct (sort_by_start h ps)
  unfolding sort_by_start
  AllDistinct-sort_by_start [] d = tt
  AllDistinct-sort_by_start (p ∷ ps) d =
      AllDistinct-insert_by_start p (sort_by_start h ps) (AllDistinct-sort_by_start ps d.1)
        (contains-sort_by_start p ps ∙ d.0)

  length-sort_by_start : (ps : List ℕ) → length (sort_by_start h ps) ≡ length ps
  unfolding sort_by_start
  length-sort_by_start [] = refl
  length-sort_by_start (p ∷ ps) =
      ground (arith, length-insert_by_start p (sort_by_start h ps), length-sort_by_start ps)

  sort-Shrinks : (t : TenantDesc) → Consistent h t → Shrinks h t h (sort_pods_at_start_up h t)
  unfolding sort_pods_at_start_up
  sort-Shrinks t v =
      let same = λ (q : ℕ). contains-sort_by_start q t.pod_list in
      record {
        consistent = record {
          listed = λ p e. v.listed p (sym (same p) ∙ e);
          mapped = λ k p e. ((v.mapped k p e).0, same p ∙ (v.mapped k p e).1);
          distinct = AllDistinct-sort_by_start t.pod_list v.distinct;
          keys = v.keys;
          counted = v.counted ∙ sym (length-sort_by_start t.pod_list);
        };
        same_name = refl;
        names = λ q. refl;
        ips = λ q. refl;
        sub = λ q m. sym (same q) ∙ m;
        others = λ q m. refl;
        released = λ q m n. absurd (ground (arith, same q));
      }

pub sort-Good :
    (k : String) (c : AutoScaleMeta) (moving : List ℕ)
    → Good c moving
    → Good (on_tenant k (λ h t. (h, sort_pods_at_start_up h t)) c) moving
sort-Good k c moving v = elim (Option-cases (get_tenant_desc_or_warmed_pool k c)) [
  | inl e ↦ rw (on_tenant_missing k (λ h t. (h, sort_pods_at_start_up h t)) c e) v
  | inr (t, e) ↦
      Shrinks-Good e (sort-Shrinks c.heap t (v.owned k t e).0)
        (on_tenant-Changes k (λ h t. (h, sort_pods_at_start_up h t)) c t e) v
]
