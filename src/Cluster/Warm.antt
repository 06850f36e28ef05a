-- ===== src/Cluster/Warm.antt =====
-- autoscale/meta.go: the adding branch of DoPodsWarm, and the pods that are pending.
use tiflash_autoscale.Prelude.{
  ℕ, suc, ℤ, pos, ◌+ℤ◌, ◌-ℤ◌, ◌<ℤ◌, ltb_ℤ, InInt32, int32-of-InInt32, int_laws, ◌≡◌, refl, ap, ◌∙◌,
  true, none, some, [], ◌∷◌, Bool-cases, arith, inl, inr,
}
use tiflash_autoscale.Dict
use tiflash_autoscale.Dict.{Dict}
use tiflash_autoscale.Dict.Laws.{size-insert_absent}
use tiflash_autoscale.Pod.{PodHeap}
use tiflash_autoscale.Tenant.{get_cnt_of_pods, set_pod}
use tiflash_autoscale.Pool.{PrewarmPool, PrewarmPoolOpResult, put_warmed_pod}
use tiflash_autoscale.Cluster.{CloneSet, Api, add_new_pods, recent_fail_cnt, warm_delta, warm_add}

recent_idem :
    (now : ℤ) (m : Dict PrewarmPoolOpResult)
    → recent_fail_cnt now (recent_fail_cnt now m).1 ≡ recent_fail_cnt now m
unfolding recent_fail_cnt
recent_idem now [] = refl
recent_idem now ((k, v) ∷ m) = elim (Bool-cases (ltb_ℤ (now -ℤ pos 300) v.last_ts)) [
  | inl e ↦ ground (arith, e, recent_idem now m)
  | inr e ↦ ground (arith, e, recent_idem now m)
]

-- A full request for what is missing leaves nothing missing.
settled : (f l n pending : ℤ) → f +ℤ l -ℤ (pending +ℤ (f +ℤ l -ℤ (pending +ℤ n)) +ℤ n) ≡ pos 0
settled f l n pending = omega int_laws

warm_add_done :
    (api : ℕ → Api) (delta : ℤ) (p : PrewarmPool) (cs cs' ret : CloneSet)
    → InInt32 delta
    → InInt32 (p.cnt_of_pending +ℤ delta)
    → add_new_pods api delta 2 cs ≡ (cs', some ret)
    → warm_add api delta p cs ≡ (record p { cnt_of_pending = p.cnt_of_pending +ℤ delta }, cs')
unfolding warm_add
warm_add_done api delta p cs cs' ret a b e =
    rw (int32-of-InInt32 delta a, e, int32-of-InInt32 (p.cnt_of_pending +ℤ delta) b) refl

delta_after :
    (now : ℤ) (p : PrewarmPool)
    → let d = warm_delta now p in
      (warm_delta now (record d.0 { cnt_of_pending = p.cnt_of_pending +ℤ d.1 })).1 ≡ pos 0
unfolding warm_delta
delta_after now p =
    let m = p.tenant_last_op_result_map in
    let f = pos (recent_fail_cnt now m).0 in
    let n = pos (get_cnt_of_pods p.warmed_pods) in
    ap
      (λ (r : ℕ × Dict PrewarmPoolOpResult).
        pos r.0
        +ℤ p.soft_limit
        -ℤ (p.cnt_of_pending +ℤ (f +ℤ p.soft_limit -ℤ (p.cnt_of_pending +ℤ n)) +ℤ n))
      (recent_idem now m)
    ∙ settled f p.soft_limit n p.cnt_of_pending

-- Where the numbers fit in an int32: once DoPodsWarm has asked for the pods that the pool is short
-- of, and the API has agreed, it finds at the same time that the pool is short of none.
pub warm_settles :
    (api : ℕ → Api) (now : ℤ) (p : PrewarmPool) (cs cs' ret : CloneSet)
    → InInt32 (warm_delta now p).1
    → InInt32 (p.cnt_of_pending +ℤ (warm_delta now p).1)
    → add_new_pods api (warm_delta now p).1 2 cs ≡ (cs', some ret)
    → (warm_delta now (warm_add api (warm_delta now p).1 (warm_delta now p).0 cs).0).1 ≡ pos 0
warm_settles api now p cs cs' ret a b e =
    ap (λ r. (warm_delta now r.0).1)
      (warm_add_done api (warm_delta now p).1 (warm_delta now p).0 cs cs' ret a
        (unfold warm_delta in b) e)
    ∙ (unfold warm_delta in delta_after now p)

back : (a d : ℤ) → a +ℤ d +ℤ (pos 0 -ℤ d) ≡ a
back a d = omega int_laws

-- Where the numbers fit in an int32: if the API refuses, the pool is as it was before, with no pod
-- more pending.
pub warm_reverts :
    (api : ℕ → Api) (delta : ℤ) (p : PrewarmPool) (cs cs' : CloneSet)
    → InInt32 delta
    → InInt32 (pos 0 -ℤ delta)
    → InInt32 p.cnt_of_pending
    → InInt32 (p.cnt_of_pending +ℤ delta)
    → add_new_pods api delta 2 cs ≡ (cs', none)
    → warm_add api delta p cs ≡ (p, cs')
unfolding warm_add
warm_reverts api delta p cs cs' a a' b b' e =
    rw
      (
        int32-of-InInt32 delta a,
        e,
        int32-of-InInt32 (p.cnt_of_pending +ℤ delta) b',
        int32-of-InInt32 (pos 0 -ℤ delta) a',
        back p.cnt_of_pending delta,
        int32-of-InInt32 p.cnt_of_pending b,
      )
      refl

minus_one : (c : ℤ) → pos 0 <ℤ c → InInt32 c → InInt32 (c -ℤ pos 1)
unfolding ◌-ℤ◌
minus_one c a b = ground arith

one_less : (f l c : ℤ) (n : ℕ) → f +ℤ l -ℤ (c -ℤ pos 1 +ℤ pos (suc n)) ≡ f +ℤ l -ℤ (c +ℤ pos n)
one_less f l c n = omega int_laws

-- While pods are pending and their number fits in an int32, the arrival of a pod that the pool does
-- not have changes nothing in what DoPodsWarm finds the pool to be short of.
pub arrival_keeps_delta :
    (now : ℤ) (pod : ℕ) (h : PodHeap) (p : PrewarmPool)
    → Dict.lookup (h pod).name p.warmed_pods.pod_map ≡ none
    → pos 0 <ℤ p.cnt_of_pending
    → InInt32 p.cnt_of_pending
    → (warm_delta now (put_warmed_pod now "" pod true h p).1).1 ≡ (warm_delta now p).1
unfolding warm_delta put_warmed_pod set_pod get_cnt_of_pods
arrival_keeps_delta now pod h p absent positive range =
    let one : ltb_ℤ (pos 0) p.cnt_of_pending ≡ true = ground arith in
    rw
      (
        one,
        int32-of-InInt32 (p.cnt_of_pending -ℤ pos 1) (minus_one p.cnt_of_pending positive range),
        size-insert_absent (h pod).name pod p.warmed_pods.pod_map absent,
      )
      (one_less _ p.soft_limit p.cnt_of_pending (Dict.size p.warmed_pods.pod_map))
