-- ===== src/Cluster/Limit.antt =====
-- autoscale/meta.go: the removing branch of DoPodsWarm, and the limit of the pool.
use tiflash_autoscale.Prelude.{
  ℕ, ℤ, pos, negsuc, pos_part, neg_part, ◌-ℤ◌, ◌≤ℤ◌, int_laws, ltb_ℤ, min_ℤ, ◌+◌, ◌≤◌, ◌≡◌, refl,
  ap, true, false, is_some, List, [], ◌∷◌, length, length-append, Option-cases, Bool-cases, arith,
  inl, inr, map,
}
use tiflash_autoscale.Dict
use tiflash_autoscale.Dict.{Dict}
use tiflash_autoscale.Dict.Laws.{size-insert_absent, size-insert_present}
use tiflash_autoscale.Pod.{PodHeap}
use tiflash_autoscale.Tenant.{get_cnt_of_pods, get_pod_names, set_pod}
use tiflash_autoscale.Tenant.Consistent.{Consistent}
use tiflash_autoscale.Pool.{PrewarmPool, take_pods, get_warmed_pods, put_warmed_pod}
use tiflash_autoscale.Pool.Take.{Taken, take_pods-Taken}
use tiflash_autoscale.Cluster.{CloneSet, Api, remove_pods, put_all, warm_remove}

put_warmed_pod_grows :
    (now : ℤ) (q : ℕ) (h : PodHeap) (p : PrewarmPool)
    → get_cnt_of_pods p.warmed_pods
      ≤ get_cnt_of_pods (put_warmed_pod now "" q false h p).1.warmed_pods
unfolding put_warmed_pod set_pod get_cnt_of_pods
put_warmed_pod_grows now q h p =
    elim (Option-cases (Dict.lookup (h q).name p.warmed_pods.pod_map)) [
      | inl e ↦ omega (arith, size-insert_absent (h q).name q p.warmed_pods.pod_map e)
      | inr (r, e) ↦ omega (arith, size-insert_present (h q).name q {w = r} p.warmed_pods.pod_map e)
    ]

put_all_grows :
    (now : ℤ) (qs : List ℕ) (h : PodHeap) (p : PrewarmPool)
    → get_cnt_of_pods p.warmed_pods ≤ get_cnt_of_pods (put_all now qs h p).1.warmed_pods
unfolding put_all
put_all_grows now [] h p = omega arith
put_all_grows now (q ∷ qs) h p =
    let r = put_warmed_pod now "" q false h p in
    omega (arith, put_warmed_pod_grows now q h p, put_all_grows now qs r.0 r.1)

-- getWarmedPods takes no more pods than it is asked for.
get_warmed_pods_takes :
    (now : ℤ) (n : ℕ) (h : PodHeap) (p : PrewarmPool)
    → Consistent h p.warmed_pods
    → get_cnt_of_pods p.warmed_pods
      ≤ n + get_cnt_of_pods (get_warmed_pods now "" n h p).1.warmed_pods
unfolding get_warmed_pods get_cnt_of_pods
get_warmed_pods_takes now n h p v =
    let t = p.warmed_pods in
    let tk : Taken h t n (take_pods now (get_pod_names h t) n [] h t) [] =
      unfold get_pod_names in take_pods-Taken now t.pod_list n [] h h t (λ q. refl) refl v in
    omega (
      arith,
      v.counted,
      tk.shrinks.consistent.counted,
      tk.left,
      ap length tk.split,
      length-append tk.taken (take_pods now (get_pod_names h t) n [] h t).1.pod_list,
    )

positive_lem : (a : ℤ) → ltb_ℤ (pos 0) a ≡ true → neg_part a ≡ 0
positive_lem (pos n) h = refl
positive_lem (negsuc n) h = absurd (ground arith)

pos_part-min : (a b : ℤ) → pos_part (min_ℤ a b) ≤ pos_part b
unfolding min_ℤ
pos_part-min a b = ground arith

-- If the pool is consistent and has at least as many pods as its limit, it still has after DoPodsWarm has removed
-- pods, whether the API agrees or refuses.
pub warm_remove_keeps_limit :
    (api : ℕ → Api) (now delta : ℤ) (h : PodHeap) (p : PrewarmPool) (cs : CloneSet)
    → Consistent h p.warmed_pods
    → p.soft_limit ≤ℤ pos (get_cnt_of_pods p.warmed_pods)
    → p.soft_limit ≤ℤ pos (get_cnt_of_pods (warm_remove api now delta h p cs).1.warmed_pods)
unfolding warm_remove
warm_remove_keeps_limit api now delta h p cs v room =
    let over = pos (get_cnt_of_pods p.warmed_pods) -ℤ p.soft_limit in
    let n = pos_part (min_ℤ (pos 0 -ℤ delta) over) in
    let r = get_warmed_pods now "" n h p in
    elim (Bool-cases (ltb_ℤ (pos 0) over)) [
      | inr b ↦ rw b room
      | inl b ↦
          let kept : p.soft_limit ≤ℤ pos (get_cnt_of_pods r.1.warmed_pods) = omega (
            int_laws,
            room,
            get_warmed_pods_takes now n h p v,
            pos_part-min (pos 0 -ℤ delta) over,
            positive_lem over b,
          ) in
          let names = map (λ q. (r.0 q).name) r.3 in
          elim (Bool-cases (is_some (remove_pods api names 2 cs).1)) [
            | inl d ↦ rw (b, d) kept
            | inr d ↦ rw (b, d) (omega (arith, kept, put_all_grows now r.3 r.0 r.1))
          ]
    ]
