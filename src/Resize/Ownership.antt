-- ===== src/Resize/Ownership.antt =====
-- What AutoScaleMeta promises of every reachable state: whose pods are whose.
use tiflash_autoscale.Prelude.{
  ℕ, ℤ, pos, String, str_eq, str_eq_iff, str_append, ◌≡◌, refl, sym, ap, ◌∙◌, subst, true, false,
  some, List, [], ◌∷◌, map, length, contains, arith,
}
use tiflash_autoscale.Dict
use tiflash_autoscale.Dict.Laws.{lookup-remove}
use tiflash_autoscale.Float.{Float64}
use tiflash_autoscale.Config.{Settings}
use tiflash_autoscale.Pod.{PodHeap}
use tiflash_autoscale.Tenant.{TenantDesc, get_cnt_of_pods, get_pod_addrs, pod_addrs}
use tiflash_autoscale.Meta.{
  AutoScaleMeta, get_tenant_info_of_pod, get_topology, handle_k8s_del_pod_event,
  remove_pod_from_cluster_without_lock, on_tenant,
}
use tiflash_autoscale.Meta.Desc.{get_tenant_desc_or_warmed_pool}
use tiflash_autoscale.Meta.Good.{owner_unique}
use tiflash_autoscale.Meta.Events.{drop_pod-unlisted}
use tiflash_autoscale.Meta.Register.{desc_of_named}
use tiflash_autoscale.Resize.World.{World}
use tiflash_autoscale.Resize.Count.{count, contains-eq-count}
use tiflash_autoscale.Resize.Reply.{moving}
use tiflash_autoscale.Resize.Steps.{Reachable}
use tiflash_autoscale.Resize.Safety.{Reachable-Safe}

module _ (fl : Float64) (g : Settings fl) (w : World fl) (r : Reachable fl g w) where
  -- In every state that is reached without a correction of ApiGetCurrentTenantAndCorrect being
  -- written to a pod that a running call has taken, that is by undisturbed steps, two descriptors
  -- whose lists hold the same pod have the same name: no pod stands in two tenants, or in a tenant
  -- and in the pool.
  pub one_owner :
      (j k : String) (s t : TenantDesc) (p : ℕ)
      → get_tenant_desc_or_warmed_pool j w.meta ≡ some s
      → get_tenant_desc_or_warmed_pool k w.meta ≡ some t
      → contains p s.pod_list ≡ true
      → contains p t.pod_list ≡ true
      → j ≡ k
  one_owner j k s t p e f m n =
      owner_unique w.meta (moving w) p j k s t (Reachable-Safe fl g w r).good e f m n

  -- In every state that is reached without a correction of ApiGetCurrentTenantAndCorrect being
  -- written to a pod that a running call has taken, that is by undisturbed steps, a pod that a
  -- running call has taken and not yet handed on stands in the lists of running calls once, names
  -- no tenant, and stands in the list of no descriptor.
  pub moving_unlisted :
      (p : ℕ) (k : String) (t : TenantDesc)
      → contains p (moving w) ≡ true
      → get_tenant_desc_or_warmed_pool k w.meta ≡ some t
      → (count p (moving w) ≡ 1)
        × ((w.meta.heap p).tenant_name ≡ "")
        × (contains p t.pod_list ≡ false)
  moving_unlisted p k t m e =
      let s = Reachable-Safe fl g w r in
      let l = s.good.loose p m in
      (ground (arith, s.once p, contains-eq-count p (moving w)), l.no_tenant, l.unlisted k t e)

  -- In every state that is reached without a correction of ApiGetCurrentTenantAndCorrect being
  -- written to a pod that a running call has taken, that is by undisturbed steps, a pod in the list
  -- of a descriptor names that descriptor's tenant, stands in its map under its own name, and has
  -- an address.
  pub listed_lem :
      (k : String) (t : TenantDesc) (p : ℕ)
      → get_tenant_desc_or_warmed_pool k w.meta ≡ some t
      → contains p t.pod_list ≡ true
      → ((w.meta.heap p).tenant_name ≡ k)
        × (Dict.lookup (w.meta.heap p).name t.pod_map ≡ some p)
        × (str_eq (w.meta.heap p).ip "" ≡ false)
  listed_lem k t p e m =
      let v = (Reachable-Safe fl g w r).good in
      let (c, name) = v.owned k t e in
      ((c.listed p m).1 ∙ name, (c.listed p m).0, (v.listed k t p e m).1)

  -- In every state that undisturbed steps reach, a pod in the map of a descriptor has the name it
  -- stands under, and stands in the list too.
  pub mapped_lem :
      (k : String) (t : TenantDesc) (n : String) (p : ℕ)
      → get_tenant_desc_or_warmed_pool k w.meta ≡ some t
      → Dict.lookup n t.pod_map ≡ some p
      → ((w.meta.heap p).name ≡ n) × (contains p t.pod_list ≡ true)
  mapped_lem k t n p e m = ((Reachable-Safe fl g w r).good.owned k t e).0.mapped n p m

  addrs_all :
      (h : PodHeap) (ps : List ℕ)
      → ((p : ℕ) → contains p ps ≡ true → str_eq (h p).ip "" ≡ false)
      → pod_addrs h ps ≡ map (λ p. str_append (h p).ip ":3930") ps
  unfolding pod_addrs
  addrs_all h [] f = refl
  addrs_all h (p ∷ ps) f =
      rw (f p (ground arith), addrs_all h ps (λ q m. f q (ground (arith, m)))) refl

  length-map : (f : ℕ → String) (ps : List ℕ) → length (map f ps) ≡ length ps
  length-map f [] = refl
  length-map f (p ∷ ps) = omega (arith, length-map f ps)

  -- In every state that undisturbed steps reach, GetTopology gives for a named tenant that is known
  -- the address of each pod of its list, in the list's order and with the port, and leaves none
  -- out: there are as many as GetCntOfPods says.
  pub topology_lem :
      (k : String) (t : TenantDesc)
      → str_eq k "" ≡ false
      → Dict.lookup k w.meta.tenant_map ≡ some t
      → (get_topology k w.meta ≡ map (λ p. str_append (w.meta.heap p).ip ":3930") t.pod_list)
        × (length (get_topology k w.meta) ≡ get_cnt_of_pods t)
  unfolding get_topology get_pod_addrs get_cnt_of_pods
  topology_lem k t named e =
      let v = (Reachable-Safe fl g w r).good in
      let found : get_tenant_desc_or_warmed_pool k w.meta ≡ some t =
        desc_of_named k w.meta named ∙ e in
      let all : get_topology k w.meta
          ≡ map (λ p. str_append (w.meta.heap p).ip ":3930") t.pod_list =
        rw (e, get_topology)
          (addrs_all w.meta.heap t.pod_list (λ p m. (v.listed k t p found m).1)) in
      (
        all,
        ap length all
            ∙ length-map (λ p. str_append (w.meta.heap p).ip ":3930") t.pod_list
            ∙ sym (v.owned k t found).0.counted,
      )

  handle_found :
      (now : ℤ) (name : String) (p : ℕ) (c : AutoScaleMeta)
      → Dict.lookup name c.pod_desc_map ≡ some p
      → handle_k8s_del_pod_event now name c ≡ (remove_pod_from_cluster_without_lock now p c, false)
  unfolding handle_k8s_del_pod_event
  handle_found now name p c e = rw (e, handle_k8s_del_pod_event)

  pod_desc_map-on_tenant :
      (k : String) (f : PodHeap → TenantDesc → PodHeap × TenantDesc) (c : AutoScaleMeta)
      → (on_tenant k f c).pod_desc_map ≡ c.pod_desc_map
  unfolding on_tenant
  pod_desc_map-on_tenant k f c = ground arith

  removed_gone :
      (now : ℤ) (p : ℕ) (k : String) (t : TenantDesc)
      → get_tenant_desc_or_warmed_pool k (remove_pod_from_cluster_without_lock now p w.meta)
        ≡ some t
      → contains p t.pod_list ≡ false
  unfolding remove_pod_from_cluster_without_lock get_tenant_desc_or_warmed_pool
  removed_gone now p k t f =
      drop_pod-unlisted now p w.meta (moving w) k t (Reachable-Safe fl g w r).good
        (unfold get_tenant_desc_or_warmed_pool in f)

  removed_forgotten :
      (now : ℤ) (p : ℕ)
      → get_tenant_info_of_pod
          (w.meta.heap p).name
          (remove_pod_from_cluster_without_lock now p w.meta)
        ≡ ("", pos 0)
  unfolding remove_pod_from_cluster_without_lock get_tenant_info_of_pod
  removed_forgotten now p = ground (
    arith,
    lookup-remove (w.meta.heap p).name (w.meta.heap p).name
        (remove_pod_from_cluster_without_lock now p w.meta).pod_desc_map,
    lookup-remove (w.meta.heap p).name (w.meta.heap p).name w.meta.pod_desc_map,
    str_eq_iff (w.meta.heap p).name (w.meta.heap p).name,
  )

  -- In every state that is reached without a correction of ApiGetCurrentTenantAndCorrect being
  -- written to a pod that a running call has taken, that is by undisturbed steps, when Kubernetes
  -- deletes a pod that is known, afterwards it stands in the list of no descriptor, and
  -- GetTenantInfoOfPod knows it no more.
  pub deleted_pod_gone :
      (now : ℤ) (name : String) (p : ℕ) (k : String) (t : TenantDesc)
      → Dict.lookup name w.meta.pod_desc_map ≡ some p
      → get_tenant_desc_or_warmed_pool k (handle_k8s_del_pod_event now name w.meta).0 ≡ some t
      → (contains p t.pod_list ≡ false)
        × (get_tenant_info_of_pod name (handle_k8s_del_pod_event now name w.meta).0 ≡ ("", pos 0))
  deleted_pod_gone now name p k t e f =
      let q = handle_found now name p w.meta e in
      let n = ((Reachable-Safe fl g w r).good.registered name p e).0 in
      (
        removed_gone now p k t (subst (λ x. get_tenant_desc_or_warmed_pool k x.0 ≡ some t) q f),
        subst (λ x. get_tenant_info_of_pod name x.0 ≡ ("", pos 0)) (sym q)
            (subst
              (λ (m : String).
                get_tenant_info_of_pod m (remove_pod_from_cluster_without_lock now p w.meta)
                ≡ ("", pos 0))
              n (removed_forgotten now p)),
      )
