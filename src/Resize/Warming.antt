-- ===== src/Resize/Warming.antt =====
-- DoPodsWarm keeps the invariant of the meta data: the pods that it takes out of the pool are
-- deleted, or go back.
use tiflash_autoscale.Prelude.{
  ℕ, ℤ, pos, without, ◌-ℤ◌, ltb_ℤ, min_ℤ, pos_part, str_eq_iff, ◌≡◌, refl, false, some, is_some,
  List, [], ◌∷◌, ◌++◌, map, arith, Bool-cases, inl, inr,
}
use tiflash_autoscale.Pod.{PodHeap}
use tiflash_autoscale.Tenant.{get_cnt_of_pods}
use tiflash_autoscale.Tenant.Shrinks.{Shrinks-refl}
use tiflash_autoscale.Pool.{PrewarmPool, get_warmed_pods, put_warmed_pod}
use tiflash_autoscale.Cluster.{
  CloneSet, Api, remove_pods, put_all, warm_delta, warm_add, warm_remove, do_pods_warm,
}
use tiflash_autoscale.Meta.{AutoScaleMeta, put_back}
use tiflash_autoscale.Meta.Desc.{get_tenant_desc_or_warmed_pool, Changes}
use tiflash_autoscale.Meta.Good.{Good, Shrinks-Good}
use tiflash_autoscale.Resize.Count.{count-append, count-without}
use tiflash_autoscale.Resize.Moving.{Good-sub, put_back_loose}
use tiflash_autoscale.Resize.Begin.{Once, with_pool, get_warmed_pods-Good}

-- A pool with the same pods.
same_pods-Good :
    (p : PrewarmPool) (c : AutoScaleMeta) (moving : List ℕ)
    → p.warmed_pods ≡ c.prewarm_pool.warmed_pods
    → Good c moving
    → Good (with_pool c.heap p c) moving
same_pods-Good p c moving same v =
    let t = c.prewarm_pool.warmed_pods in
    let e : get_tenant_desc_or_warmed_pool "" c ≡ some t =
      unfold get_tenant_desc_or_warmed_pool in refl in
    let ch : Changes "" c.heap t c (with_pool c.heap p c) = record {
      heap = refl;
      next = refl;
      pods = refl;
      descs = λ j.
          unfold get_tenant_desc_or_warmed_pool in
          ground (arith, str_eq_iff j "", str_eq_iff "" j, same);
    } in
    Shrinks-Good e (Shrinks-refl c.heap t (v.owned "" t e).0) ch v

put_all-Good :
    (now : ℤ) (ps : List ℕ) (h : PodHeap) (p : PrewarmPool) (c : AutoScaleMeta) (moving : List ℕ)
    → Good (with_pool h p c) (ps ++ moving)
    → Once (ps ++ moving)
    → Good (with_pool (put_all now ps h p).0 (put_all now ps h p).1 c) moving
unfolding put_all
put_all-Good now [] h p c moving v once = v
put_all-Good now (q ∷ qs) h p c moving v once =
    let r = put_warmed_pod now "" q false h p in
    let v' : Good (with_pool r.0 r.1 c) (without q (q ∷ qs ++ moving)) =
      unfold put_back in
      put_back_loose now "" q (with_pool h p c) (q ∷ qs ++ moving) v (ground arith) in
    put_all-Good now qs r.0 r.1 c moving
      (Good-sub _ _ _ v' (λ x. ground (arith, count-without q x (q ∷ qs ++ moving), once x)))
      (λ x. ground (arith, once x))

warm_remove-Good :
    (api : ℕ → Api) (now delta : ℤ) (cs : CloneSet) (c : AutoScaleMeta) (moving : List ℕ)
    → Good c moving
    → Once moving
    → let r = warm_remove api now delta c.heap c.prewarm_pool cs in
      Good (with_pool r.0 r.1 c) moving
unfolding warm_remove
warm_remove-Good api now delta cs c moving v once =
    let over = pos (get_cnt_of_pods c.prewarm_pool.warmed_pods) -ℤ c.prewarm_pool.soft_limit in
    let n = pos_part (min_ℤ (pos 0 -ℤ delta) over) in
    let r = get_warmed_pods now "" n c.heap c.prewarm_pool in
    elim (Bool-cases (ltb_ℤ (pos 0) over)) [
      | inr b ↦ rw b v
      | inl b ↦
          let (w, o) = get_warmed_pods-Good now "" n c moving v once in
          let names = map (λ q. (r.0 q).name) r.3 in
          elim (Bool-cases (is_some (remove_pods api names 2 cs).1)) [
            | inl d ↦ rw (b, d) (Good-sub _ _ _ w (λ q. omega (arith, count-append q r.3 moving)))
            | inr d ↦ rw (b, d) (put_all-Good now r.3 r.0 r.1 c moving w o)
          ]
    ]

pub do_pods_warm-Good :
    (api : ℕ → Api) (now : ℤ) (cs : CloneSet) (c : AutoScaleMeta) (moving : List ℕ)
    → Good c moving
    → Once moving
    → let r = do_pods_warm api now c.heap c.prewarm_pool cs in Good (with_pool r.0 r.1 c) moving
unfolding do_pods_warm warm_add
do_pods_warm-Good api now cs c moving v once =
    let (p, delta) = warm_delta now c.prewarm_pool in
    let w : Good (with_pool c.heap p c) moving =
      same_pods-Good p c moving (unfold warm_delta in refl) v in
    elim (Bool-cases (ltb_ℤ (pos 0) delta)) [
      | inl a ↦ rw a (same_pods-Good _ c moving (unfold warm_delta in refl) v)
      | inr a ↦ elim (Bool-cases (ltb_ℤ delta (pos 0))) [
        | inl b ↦ rw (a, b) (warm_remove-Good api now delta cs (with_pool c.heap p c) moving w once)
        | inr b ↦ rw (a, b) w
      ]
    ]
