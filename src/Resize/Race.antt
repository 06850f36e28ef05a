-- ===== src/Resize/Race.antt =====
-- autoscale/meta.go: ApiGetCurrentTenantAndCorrect, whose tests are not under the mutex of the meta
-- data, beside removePodFromTenant.
use tiflash_autoscale.Prelude.{
  ℕ, ℤ, ◌<◌, String, str_eq, str_eq_iff, ◌≡◌, refl, sym, ap, ◌∙◌, subst, true, false, ◌&&◌, not,
  if◌then◌else◌, some, List, [], ◌∷◌, ◌++◌, contains, contains-append, arith, Bool-cases, inl, inr,
}
use tiflash_autoscale.Dict
use tiflash_autoscale.Dict.Laws.{lookup-insert}
use tiflash_autoscale.Float.{Float64}
use tiflash_autoscale.Config.{Settings}
use tiflash_autoscale.Pod.{PodHeap}
use tiflash_autoscale.Pool.{PrewarmPool}
use tiflash_autoscale.Tenant.Consistent.{Fits}
use tiflash_autoscale.Meta.Local.{drop_pod-same, finish, update_local_eq}
use tiflash_autoscale.Tenant.{TenantDesc, resumed, state_eq, set_state, set_pod_with_tenant_info}
use tiflash_autoscale.Tenant.Shrinks.{set_pod_with_tenant_info-Grows}
use tiflash_autoscale.Meta.{AutoScaleMeta, on_tenant, drop_pod, put_back}
use tiflash_autoscale.Meta.Setup.{auto_registers, find_or_register, update_local_meta_pod_of_tenant}
use tiflash_autoscale.Meta.Desc.{get_tenant_desc_or_warmed_pool, on_tenant-Changes}
use tiflash_autoscale.Meta.Good.{Good}
use tiflash_autoscale.Meta.Events.{Good-Fits, drop_pod-Good}
use tiflash_autoscale.Meta.Register.{desc_of_named, find_or_register-Good}
use tiflash_autoscale.Resize.{Call, Result, removing}
use tiflash_autoscale.Resize.World.{World, Correction, reply, on_success}
use tiflash_autoscale.Resize.Count.{contains-eq-count, count-append}
use tiflash_autoscale.Resize.Reply.{moving}
use tiflash_autoscale.Resize.Steps.{Step, correct, answer, answered, Reachable}
use tiflash_autoscale.Resize.Safety.{Reachable-Safe, count_world}
use tiflash_autoscale.Resize.Undo.{pool_list, absent_from_pool, put_back_end, put_back_names}

-- The pool does not change with a named tenant.
pool_of_named :
    (j : String) (f : PodHeap → TenantDesc → PodHeap × TenantDesc) (c : AutoScaleMeta)
    → str_eq j "" ≡ false
    → (on_tenant j f c).prewarm_pool ≡ c.prewarm_pool
unfolding on_tenant
pool_of_named j f c named = ground (arith, named)

has_moved :
    {m n : String} {a b : PrewarmPool}
    → m ≡ n
    → a ≡ b
    → Dict.has n b.warmed_pods.pod_map ≡ false
    → Dict.has m a.warmed_pods.pod_map ≡ false
has_moved e f h = rw (e, f) h

from_pool :
    (now : ℤ) (p : ℕ) (j : String) (c : AutoScaleMeta)
    → (c.heap p).tenant_name ≡ ""
    → str_eq j "" ≡ false
    → (if str_eq (c.heap p).tenant_name j
        then c
        else on_tenant (c.heap p).tenant_name (drop_pod now (c.heap p).name) c)
      ≡ on_tenant "" (drop_pod now (c.heap p).name) c
from_pool now p j c e named =
    let other : str_eq (c.heap p).tenant_name j ≡ false =
      ground (arith, e, str_eq_iff (c.heap p).tenant_name j, str_eq_iff j "") in
    rw other (ap (λ (k : String). on_tenant k (drop_pod now (c.heap p).name) c) e)

module _ (fl : Float64) (g : Settings fl) where
  -- A known tenant is found, and nothing but its state may have changed.
  find_known :
      (j : String) (t : TenantDesc) (c : AutoScaleMeta)
      → str_eq j "" ≡ false
      → Dict.lookup j c.tenant_map ≡ some t
      → let r = find_or_register fl g j c in
        (r.1 ≡ true)
        × (r.0.heap ≡ c.heap)
        × (r.0.next_pod ≡ c.next_pod)
        × (r.0.prewarm_pool ≡ c.prewarm_pool)
        × (s : TenantDesc) × (Dict.lookup j r.0.tenant_map ≡ some s)
  unfolding find_or_register
  find_known j t c named e =
      let found : Dict.lookup j (Dict.insert j (set_state resumed t) c.tenant_map)
          ≡ some (set_state resumed t) =
        ground (arith, lookup-insert j j (set_state resumed t) c.tenant_map, str_eq_iff j j) in
      elim (Bool-cases (auto_registers g.option_run_mode && not c.is_runtime_ready)) [
        | inl b ↦
            rw (named, e, b, find_or_register) (refl, refl, refl, refl, set_state resumed t, found)
        | inr b ↦ elim (Bool-cases (state_eq t.state resumed)) [
          | inl d ↦ rw (named, e, b, d, find_or_register) (refl, refl, refl, refl, t, e)
          | inr d ↦
              rw (named, e, b, d, find_or_register)
                (refl, refl, refl, refl, set_state resumed t, found)
        ]
      ]

  -- The tenant's list has the pod that is written to it; the pool is as it was.
  joined :
      (p : ℕ) (j : String) (start : ℤ) (t : TenantDesc) (c : AutoScaleMeta) (moving : List ℕ)
      → Good c moving
      → p < c.next_pod
      → str_eq j "" ≡ false
      → Dict.lookup j c.tenant_map ≡ some t
      → let c1 = (find_or_register fl g j c).0 in
        let c' = on_tenant j (set_pod_with_tenant_info (c.heap p).name p start) c1 in
        ((c'.heap p).name ≡ (c.heap p).name)
        × (c'.prewarm_pool ≡ c.prewarm_pool)
        × (s : TenantDesc) × (Dict.lookup j c'.tenant_map ≡ some s)
        × (contains p s.pod_list ≡ true)
  joined p j start t c moving v known named e =
      let c1 = (find_or_register fl g j c).0 in
      let (_, heap, next, pool, s, f) = find_known j t c named e in
      let name = (c.heap p).name in
      let add = set_pod_with_tenant_info name p start in
      let v1 = find_or_register-Good fl g j c moving v in
      let found : get_tenant_desc_or_warmed_pool j c1 ≡ some s = desc_of_named j c1 named ∙ f in
      let same : (c1.heap p).name ≡ name = ap (λ h. (h p).name) heap in
      let grows = set_pod_with_tenant_info-Grows name p start c1.heap s (v1.owned j s found).0 (
        subst (λ n. Fits c1.heap s n p) same
          (Good-Fits c1 moving j s p v1 found (ground (arith, next, known)))) in
      let ch = on_tenant-Changes j add c1 s found in
      (
        ap (λ h. (h p).name) ch.heap ∙ grows.names p ∙ same,
        pool_of_named j add c1 named ∙ pool,
        (add c1.heap s).1,
        sym (desc_of_named j (on_tenant j add c1) named)
            ∙ ch.descs j
            ∙ ground (arith, str_eq_iff j j),
        grows.has,
      )

  finish_known :
      (j name : String) (p : ℕ) (start : ℤ) (c : AutoScaleMeta)
      → (find_or_register fl g j c).1 ≡ true
      → finish fl g j name p start c
        ≡ on_tenant j (set_pod_with_tenant_info name p start) (find_or_register fl g j c).0
  unfolding finish
  finish_known j name p start c e = rw e refl

  -- What then holds.
  abbrev Written : ℕ → String → AutoScaleMeta → Type 0
  Written p j c =
      (Dict.has (c.heap p).name c.prewarm_pool.warmed_pods.pod_map ≡ false)
      × (s : TenantDesc) × (Dict.lookup j c.tenant_map ≡ some s)
      × (contains p s.pod_list ≡ true)

  -- A pod that names no tenant is written to a known one: it stands in that tenant's list, and the pool
  -- does not have it.
  written :
      (now : ℤ) (p : ℕ) (j : String) (start : ℤ) (t : TenantDesc) (c : AutoScaleMeta)
      (moving : List ℕ)
      → Good c moving
      → contains p moving ≡ true
      → str_eq j "" ≡ false
      → Dict.lookup j c.tenant_map ≡ some t
      → let c' = update_local_meta_pod_of_tenant fl g now p j start c in Written p j c'
  written now p j start t c moving v m named e =
      let name = (c.heap p).name in
      let l = v.loose p m in
      let c0 = on_tenant "" (drop_pod now name) c in
      let v0 = drop_pod-Good now "" name c moving v in
      let (names, _, next) = drop_pod-same now "" name c moving v p in
      let found : Dict.lookup j c0.tenant_map ≡ some t = unfold on_tenant in e in
      let known = (find_known j t c0 named found).0 in
      let goes : update_local_meta_pod_of_tenant fl g now p j start c
          ≡ on_tenant j (set_pod_with_tenant_info name p start) (find_or_register fl g j c0).0 =
        update_local_eq fl g now p j start c
        ∙ ap (finish fl g j name p start) (from_pool now p j c l.no_tenant named)
        ∙ finish_known j name p start c0 known in
      let (kept, pool, s, f, inside) =
        joined p j start t c0 moving v0 (ground (arith, next, l.known)) named found in
      let absent = absent_from_pool p c0 moving v0 m in
      subst (Written p j) (sym goes) (
        subst
          (λ (n : String).
            Written p j
              (on_tenant j (set_pod_with_tenant_info n p start) (find_or_register fl g j c0).0))
          names (has_moved kept pool absent, s, f, inside))

  -- Two owners.
  abbrev Doubled : ℕ → String → AutoScaleMeta → Type 0
  Doubled p j c =
      (s : TenantDesc) × (Dict.lookup j c.tenant_map ≡ some s)
      × (contains p s.pod_list ≡ true)
      × (contains p (pool_list c) ≡ true)

  put_back_in :
      (now : ℤ) (k j : String) (p : ℕ) (c : AutoScaleMeta)
      → Written p j c
      → Doubled p j (put_back now k p false c)
  put_back_in now k j p c (absent, s, f, inside) = (
    s,
    ap (λ (m : Dict.Dict TenantDesc). Dict.lookup j m) (put_back_names now k p p c).2 ∙ f,
    inside,
    ap (contains p) (put_back_end now k p c absent)
        ∙ ground (arith, contains-append p (pool_list c) (p ∷ [])),
  )

  -- A pod that is unassigned goes to the pool.
  given_back :
      (now : ℤ) (p : ℕ) (k : Call) (a : Result) (w : World fl)
      → a.has_err ≡ false
      → k.direction ≡ removing
      → (reply fl g now p (some a) w k).0.meta ≡ put_back now k.tenant p false w.meta
  unfolding reply on_success
  given_back now p k a w good d = rw (good, d) refl

  -- A pod of a running call is one that moves.
  taken_moves :
      (xs ys : List Call) (k : Call) (p : ℕ) (w : World fl)
      → w.calls ≡ xs ++ k ∷ ys
      → contains p k.todo ≡ true
      → contains p (moving w) ≡ true
  taken_moves xs ys k p w e m = ground (
    arith,
    count_world fl g p xs ys k w e,
    count-append p k.todo k.undo_list,
    contains-eq-count p k.todo,
    contains-eq-count p (moving w),
  )

  -- In every state that undisturbed steps reach, let a call of removePodFromTenant still ask a pod, and
  -- let a correction of this pod wait that writes it to a known named tenant. Then the correction and an
  -- answer without an error of the pod to the call are two steps of the program, in this order, after
  -- which the pod stands in the list of that tenant and in the list of the pool.
  pub stale_correction_two_owners :
      (w : World fl)
      → Reachable fl g w
      → (xs ys : List Call) (k : Call) (us vs : List Correction) (x : Correction)
      → w.calls ≡ xs ++ k ∷ ys
      → w.corrections ≡ us ++ x ∷ vs
      → k.direction ≡ removing
      → contains x.pod k.todo ≡ true
      → str_eq x.tenant "" ≡ false
      → (t : TenantDesc) → Dict.lookup x.tenant w.meta.tenant_map ≡ some t
      → (now later : ℤ) (a : Result) → a.has_err ≡ false
      → (w1 w2 : World fl) × Step fl g w w1
        × Step fl g w1 w2
        × (s : TenantDesc) × (Dict.lookup x.tenant w2.meta.tenant_map ≡ some s)
        × (contains x.pod s.pod_list ≡ true)
        × (contains x.pod (pool_list w2.meta) ≡ true)
  stale_correction_two_owners w r xs ys k us vs x e f d m named t known now later a good =
      let safe = Reachable-Safe fl g w r in
      let moves = taken_moves xs ys k x.pod w e m in
      let l = safe.good.loose x.pod moves in
      let w1 : World fl = record w {
        meta = update_local_meta_pod_of_tenant fl g now x.pod x.tenant x.start_time w.meta;
        corrections = us ++ vs;
      } in
      let w2 : World fl = answered fl g later x.pod (some a) k (record w1 { calls = xs ++ ys }) in
      let twice =
        put_back_in later k.tenant x.tenant x.pod w1.meta (
          written now x.pod x.tenant x.start_time t w.meta (moving w) safe.good moves named
            known) in
      let (s, h, inside, back) =
        subst (Doubled x.pod x.tenant) (sym (given_back later x.pod k a _ good d)) twice in
      (
        w1,
        w2,
        correct now us vs x f l.known l.has_ip,
        answer later xs ys k x.pod (some a) e m,
        s,
        h,
        inside,
        back,
      )
