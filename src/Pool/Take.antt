-- ===== src/Pool/Take.antt =====
-- autoscale/meta.go: the loop of getWarmedPods, and the list of the pool.
use mathlib.Core.List.{append-nil, append_assoc}
use tiflash_autoscale.Prelude.{
  ℕ, zero, suc, ℤ, ◌+◌, ◌≡◌, refl, sym, ap, ◌∙◌, subst, String, false, Option, none, some, List, [],
  ◌∷◌, ◌++◌, map, length, contains, without, without_absent, AllDistinct, arith, ◌⊎◌, inl, inr,
}
use tiflash_autoscale.Dict
use tiflash_autoscale.Pod.{PodHeap, clear_tenant_info}
use tiflash_autoscale.Tenant.{TenantDesc}
use tiflash_autoscale.Tenant.Consistent.{Consistent, remove_pod_listed}
use tiflash_autoscale.Tenant.Shrinks.{Shrinks, Shrinks-refl, Shrinks-trans, remove_pod-Shrinks}
use tiflash_autoscale.Pool.{take_pods}

without-head : (p : ℕ) (ps : List ℕ) → contains p ps ≡ false → without p (p ∷ ps) ≡ ps
unfolding without
without-head p ps h = ground (arith, without_absent p ps h)

name-clear_tenant_info :
    (now : ℤ) (p q : ℕ) (h : PodHeap) → (clear_tenant_info now p h q).name ≡ (h q).name
unfolding clear_tenant_info
name-clear_tenant_info now p q h = ground arith

-- What a call has taken, against the list before it.
pub record Taken (h : PodHeap) (t : TenantDesc) (cnt : ℕ) (r : PodHeap × TenantDesc × ℕ × List ℕ)
    (acc : List ℕ) : Type 0 where
  pub taken : List ℕ
  pub result : r.3 ≡ acc ++ taken
  pub split : t.pod_list ≡ taken ++ r.1.pod_list
  pub left : r.2 + length taken ≡ cnt
  pub full : (r.2 ≡ 0) ⊎ (r.1.pod_list ≡ [])
  pub shrinks : Shrinks h t r.0 r.1

abbrev step :
    ℤ
    → List String
    → ℕ
    → List ℕ
    → PodHeap × TenantDesc × Option ℕ
    → PodHeap × TenantDesc × ℕ × List ℕ
step now ks cnt acc r = elim r.2 [
  | none ↦ take_pods now ks (suc cnt) acc r.0 r.1
  | some p ↦ take_pods now ks cnt (acc ++ p ∷ []) r.0 r.1
]

pub take_pods-Taken :
    (now : ℤ) (ps : List ℕ) (cnt : ℕ) (acc : List ℕ) (h0 h : PodHeap) (c : TenantDesc)
    → ((q : ℕ) → (h0 q).name ≡ (h q).name)
    → c.pod_list ≡ ps
    → Consistent h c
    → Taken h c cnt (take_pods now (map (λ p. (h0 p).name) ps) cnt acc h c) acc
unfolding take_pods
take_pods-Taken now [] cnt acc h0 h c names e v = record {
  taken = [];
  result = sym (append-nil acc);
  split = refl;
  left = omega arith;
  full = inr e;
  shrinks = Shrinks-refl h c v;
}
take_pods-Taken now (p ∷ ps) zero acc h0 h c names e v = record {
  taken = [];
  result = sym (append-nil acc);
  split = refl;
  left = omega arith;
  full = inl refl;
  shrinks = Shrinks-refl h c v;
}
take_pods-Taken now (p ∷ ps) (suc cnt) acc h0 h c names e v =
    let k = (h0 p).name in
    let found : Dict.lookup k c.pod_map ≡ some p = rw (names p) ((v.listed p (ground arith)).0) in
    let q = remove_pod_listed now k p h c found in
    let h' = clear_tenant_info now p h in
    let c' : TenantDesc = record c {
      pod_list = without p c.pod_list;
      pod_map = Dict.remove k c.pod_map;
    } in
    let d : AllDistinct (p ∷ ps) = subst AllDistinct e v.distinct in
    let a : Shrinks h c h' c' =
      subst (λ r. Shrinks h c r.0 r.1) q (remove_pod-Shrinks now k h c v) in
    let tail : without p c.pod_list ≡ ps = rw e (without-head p ps d.0) in
    let ih =
      take_pods-Taken now ps cnt (acc ++ p ∷ []) h0 h' c'
        (λ j. names j ∙ sym (name-clear_tenant_info now p j h)) tail a.consistent in
    subst (λ r. Taken h c (suc cnt) r acc)
      (sym (ap (step now (map (λ j. (h0 j).name) ps) cnt acc) q))
      (record {
        taken = p ∷ ih.taken;
        result = ih.result ∙ append_assoc acc (p ∷ []) ih.taken;
        split = e ∙ ap (◌∷◌ p) (sym tail ∙ ih.split);
        left = omega (arith, ih.left);
        full = ih.full;
        shrinks = Shrinks-trans a ih.shrinks;
      })
