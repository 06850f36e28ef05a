-- ===== src/Resize/Undo.antt =====
-- autoscale/meta.go: the loop over the undo list of addPodIntoTenant, and the list of the pool.
use mathlib.Core.List.{append_assoc, append-nil}
use tiflash_autoscale.Prelude.{
  ℕ, ℤ, String, ◌≡◌, refl, sym, ap, ◌∙◌, true, false, some, List, [], ◌∷◌, ◌++◌, contains, All,
  arith, Option-cases, inl, inr,
}
use tiflash_autoscale.Dict
use tiflash_autoscale.Pod.{set_tenant_info}
use tiflash_autoscale.Tenant.{TenantDesc, set_pod}
use tiflash_autoscale.Pool.{put_warmed_pod}
use tiflash_autoscale.Meta.{AutoScaleMeta, put_back}
use tiflash_autoscale.Meta.Desc.{get_tenant_desc_or_warmed_pool}
use tiflash_autoscale.Meta.Good.{Good}
use tiflash_autoscale.Resize.{undo_add}
use tiflash_autoscale.Resize.Count.{count-without}
use tiflash_autoscale.Resize.Moving.{Good-sub, put_back_loose}
use tiflash_autoscale.Resize.Begin.{Once, warmed_pods-note_op_result}

abbrev pub pool_list : AutoScaleMeta → List ℕ
pool_list c = c.prewarm_pool.warmed_pods.pod_list

-- No pod of the pool has the name of a pod that moves.
pub absent_from_pool :
    (p : ℕ) (c : AutoScaleMeta) (others : List ℕ)
    → Good c others
    → contains p others ≡ true
    → Dict.has (c.heap p).name c.prewarm_pool.warmed_pods.pod_map ≡ false
absent_from_pool p c others v m =
    let t = c.prewarm_pool.warmed_pods in
    let l = v.loose p m in
    let e : get_tenant_desc_or_warmed_pool "" c ≡ some t =
      unfold get_tenant_desc_or_warmed_pool in refl in
    elim (Option-cases (Dict.lookup (c.heap p).name t.pod_map)) [
      | inl n ↦ rw n refl
      | inr (q, n) ↦
          let (named, inside) = (v.owned "" t e).0.mapped (c.heap p).name q n in
          let same = v.unique q p (v.listed "" t q e inside).0 l.known named in
          absurd (ground (arith, l.unlisted "" t e, inside, same))
    ]

pub put_back_end :
    (now : ℤ) (k : String) (p : ℕ) (c : AutoScaleMeta)
    → Dict.has (c.heap p).name c.prewarm_pool.warmed_pods.pod_map ≡ false
    → pool_list (put_back now k p false c) ≡ pool_list c ++ p ∷ []
unfolding put_back put_warmed_pod set_pod
put_back_end now k p c absent =
    ap (λ (t : TenantDesc). t.pod_list) (warmed_pods-note_op_result now k 0 _) ∙ rw absent refl

put_back_list :
    (now : ℤ) (k : String) (p : ℕ) (c : AutoScaleMeta) (others : List ℕ)
    → Good c others
    → contains p others ≡ true
    → pool_list (put_back now k p false c) ≡ pool_list c ++ p ∷ []
put_back_list now k p c others v m = put_back_end now k p c (absent_from_pool p c others v m)

-- The name of a pod, and which pods Kubernetes knows, do not change.
pub put_back_names :
    (now : ℤ) (k : String) (p q : ℕ) (c : AutoScaleMeta)
    → (((put_back now k p false c).heap q).name ≡ (c.heap q).name)
      × ((put_back now k p false c).pod_desc_map ≡ c.pod_desc_map)
      × ((put_back now k p false c).tenant_map ≡ c.tenant_map)
unfolding put_back put_warmed_pod set_pod set_tenant_info
put_back_names now k p q c = (ground arith, refl, refl)

abbrev pub AllKnown : AutoScaleMeta → List ℕ → Type 0
AllKnown c ps = All (λ (p : ℕ). Dict.has (c.heap p).name c.pod_desc_map ≡ true) ps

put_back-AllKnown :
    (now : ℤ) (k : String) (p : ℕ) (c : AutoScaleMeta) (ps : List ℕ)
    → AllKnown c ps
    → AllKnown (put_back now k p false c) ps
put_back-AllKnown now k p c [] a = tt
put_back-AllKnown now k p c (q ∷ ps) (h, a) =
    (ground (arith, put_back_names now k p q c, h), put_back-AllKnown now k p c ps a)

pub undo_add_list :
    (now : ℤ) (k : String) (ps : List ℕ) (c : AutoScaleMeta) (others : List ℕ)
    → Good c (ps ++ others)
    → Once (ps ++ others)
    → AllKnown c ps
    → (pool_list (undo_add now k ps c) ≡ pool_list c ++ ps)
      × ((undo_add now k ps c).tenant_map ≡ c.tenant_map)
unfolding undo_add
undo_add_list now k [] c others v once known = (sym (append-nil (pool_list c)), refl)
undo_add_list now k (p ∷ ps) c others v once (h, known) =
    let m : contains p (p ∷ ps ++ others) ≡ true = ground arith in
    let c1 = put_back now k p false c in
    let v1 =
      Good-sub _ _ (ps ++ others) (put_back_loose now k p c (p ∷ ps ++ others) v m)
        (λ q. ground (arith, count-without p q (p ∷ ps ++ others), once q)) in
    let (a, b) =
      undo_add_list now k ps c1 others v1 (λ q. ground (arith, once q))
        (put_back-AllKnown now k p c ps known) in
    (
      rw h (
          a
          ∙ ap (λ (l : List ℕ). l ++ ps) (put_back_list now k p c (p ∷ ps ++ others) v m)
          ∙ append_assoc (pool_list c) (p ∷ []) ps),
      rw (undo_add, h) (b ∙ (put_back_names now k p p c).2),
    )
