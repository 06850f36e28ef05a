-- ===== src/Meta/States.antt =====
-- What an operation of AutoScaleMeta does to the states of the tenants that it knows.
use tiflash_autoscale.Prelude.{
  ℕ, ℤ, String, str_eq, str_eq_iff, ◌≡◌, refl, sym, ap, ◌∙◌, subst, Bool, some, some_inj, ◌⊎◌, inl,
  inr, arith, Bool-cases, Option-cases,
}
use tiflash_autoscale.Dict
use tiflash_autoscale.Dict.Laws.{lookup-insert}
use tiflash_autoscale.Pod.{PodHeap}
use tiflash_autoscale.Tenant.{
  TenantState, resumed, TenantDesc, remove_pod, set_pod_with_tenant_info, set_pod,
}
use tiflash_autoscale.Meta.{
  AutoScaleMeta, on_tenant, put_back, drop_pod, add_pod, refresh_pod, update_pod,
  remove_pod_from_cluster_without_lock, handle_k8s_del_pod_event,
}

-- Each known tenant is still known, and its state has moved by R.
abbrev pub Evolve : (TenantState → TenantState → Type 0) → AutoScaleMeta → AutoScaleMeta → Type 0
Evolve R c c' =
    (k : String) (t : TenantDesc)
    → Dict.lookup k c.tenant_map ≡ some t
    → (t' : TenantDesc) × (Dict.lookup k c'.tenant_map ≡ some t') × R t.state t'.state

abbrev pub Same : TenantState → TenantState → Type 0
Same s s' = s' ≡ s

-- A pod that tells of its tenant may resume it.
abbrev pub OrResumed : TenantState → TenantState → Type 0
OrResumed s s' = (s' ≡ s) ⊎ (s' ≡ resumed)

pub Evolve-refl :
    (R : TenantState → TenantState → Type 0) (c c' : AutoScaleMeta)
    → ((s : TenantState) → R s s)
    → c'.tenant_map ≡ c.tenant_map
    → Evolve R c c'
Evolve-refl R c c' r e k t f = (t, ap (λ m. Dict.lookup k m) e ∙ f, r t.state)

pub Evolve-map :
    (R S : TenantState → TenantState → Type 0) (c c' : AutoScaleMeta)
    → ((s s' : TenantState) → R s s' → S s s')
    → Evolve R c c'
    → Evolve S c c'
Evolve-map R S c c' f v k t e = let (t', e', r) = v k t e in (t', e', f t.state t'.state r)

pub Same-trans :
    (R : TenantState → TenantState → Type 0) (a b c : AutoScaleMeta)
    → Evolve Same a b
    → Evolve R b c
    → Evolve R a c
Same-trans R a b c v w k t e =
    let (t1, e1, r1) = v k t e in
    let (t2, e2, r2) = w k t1 e1 in (t2, e2, subst (λ (s : TenantState). R s t2.state) r1 r2)

pub trans-Same :
    (R : TenantState → TenantState → Type 0) (a b c : AutoScaleMeta)
    → Evolve R a b
    → Evolve Same b c
    → Evolve R a c
trans-Same R a b c v w k t e =
    let (t1, e1, r1) = v k t e in let (t2, e2, r2) = w k t1 e1 in (t2, e2, rw r2 r1)

-- A method of one tenant moves that tenant's state only.
pub on_tenant-Evolve :
    (R : TenantState → TenantState → Type 0) (k : String)
    (f : PodHeap → TenantDesc → PodHeap × TenantDesc) (c : AutoScaleMeta)
    → ((s : TenantState) → R s s)
    → ((h : PodHeap) (t : TenantDesc) → R t.state (f h t).1.state)
    → Evolve R c (on_tenant k f c)
unfolding on_tenant
on_tenant-Evolve R k f c r m j t e = elim (Bool-cases (str_eq k "")) [
  | inl b ↦ rw b (t, e, r t.state)
  | inr b ↦ elim (Option-cases (Dict.lookup k c.tenant_map)) [
    | inl n ↦ rw (b, n) (t, e, r t.state)
    | inr (u, n) ↦ elim (Bool-cases (str_eq k j)) [
      | inl d ↦
          rw (b, n)
            (
              (f c.heap u).1,
              lookup-insert k j (f c.heap u).1 c.tenant_map ∙ rw d refl,
              let same : u ≡ t =
                    some_inj
                      (sym n ∙ ap (λ x. Dict.lookup x c.tenant_map) ((str_eq_iff k j).0 d) ∙ e) in
                  rw (← same) (m c.heap u),
            )
      | inr d ↦ rw (b, n) (t, lookup-insert k j (f c.heap u).1 c.tenant_map ∙ rw d e, r t.state)
    ]
  ]
]

state-remove_pod :
    (now : ℤ) (k : String) (h : PodHeap) (t : TenantDesc) → (remove_pod now k h t).1.state ≡ t.state
unfolding remove_pod
state-remove_pod now k h t = ground arith

pub drop_pod-Evolve :
    (now : ℤ) (k name : String) (c : AutoScaleMeta)
    → Evolve Same c (on_tenant k (drop_pod now name) c)
drop_pod-Evolve now k name c =
    on_tenant-Evolve Same k (drop_pod now name) c (λ s. refl) (λ h t. state-remove_pod now name h t)

pub set_pod-Evolve :
    (k name : String) (p : ℕ) (c : AutoScaleMeta) → Evolve Same c (on_tenant k (set_pod name p) c)
unfolding set_pod
set_pod-Evolve k name p c = on_tenant-Evolve Same k (set_pod name p) c (λ s. refl) (λ h t. refl)

pub set_pod_with_tenant_info-Evolve :
    (k name : String) (p : ℕ) (start : ℤ) (c : AutoScaleMeta)
    → Evolve Same c (on_tenant k (set_pod_with_tenant_info name p start) c)
unfolding set_pod_with_tenant_info
set_pod_with_tenant_info-Evolve k name p start c =
    on_tenant-Evolve Same k (set_pod_with_tenant_info name p start) c (λ s. refl) (λ h t. refl)

pub put_back-Evolve :
    (now : ℤ) (k : String) (p : ℕ) (new : Bool) (c : AutoScaleMeta)
    → Evolve Same c (put_back now k p new c)
unfolding put_back
put_back-Evolve now k p new c = Evolve-refl Same c (put_back now k p new c) (λ s. refl) refl

pub update_pod-Evolve :
    (now : ℤ) (name ip : String) (c : AutoScaleMeta) → Evolve Same c (update_pod now name ip c)
unfolding update_pod add_pod refresh_pod put_back
update_pod-Evolve now name ip c =
    Evolve-refl Same c (update_pod now name ip c) (λ s. refl) (ground arith)

pub handle_k8s_del_pod_event-Evolve :
    (now : ℤ) (name : String) (c : AutoScaleMeta)
    → Evolve Same c (handle_k8s_del_pod_event now name c).0
unfolding handle_k8s_del_pod_event remove_pod_from_cluster_without_lock
handle_k8s_del_pod_event-Evolve now name c = elim (Option-cases (Dict.lookup name c.pod_desc_map)) [
  | inl e ↦ rw (e, handle_k8s_del_pod_event) (Evolve-refl Same c c (λ s. refl) refl)
  | inr (p, e) ↦
      rw (e, handle_k8s_del_pod_event)
        (drop_pod-Evolve now (c.heap p).tenant_name (c.heap p).name c)
]
