-- ===== src/Tenant/Shrinks.antt =====
-- What RemovePod, PopPods and the loop of getWarmedPods have in common: pods leave a tenant.
use tiflash_autoscale.Prelude.{
  ℕ, zero, suc, ℤ, ◌==◌, ◌≡◌, refl, sym, ◌∙◌, subst, String, true, false, List, [], ◌∷◌, ◌++◌,
  contains, contains-append, contains-without, unsnoc, arith, if◌then◌else◌, Option-cases, ◌⊎◌, inl,
  inr,
}
use tiflash_autoscale.Dict
use tiflash_autoscale.Pod.{
  PodHeap, set_tenant_info, set_tenant_info_and_stime_of_assign, clear_tenant_info,
}
use tiflash_autoscale.Tenant.{
  TenantDesc, put_pod, set_pod, set_pod_with_tenant_info, remove_pod, pop_one_pod, pop_pods,
}
use tiflash_autoscale.Tenant.Consistent.{
  Consistent, Fits, remove_pod-Consistent, remove_pod_missing, remove_pod_listed,
  set_pod-Consistent, set_pod_with_tenant_info-Consistent,
}
use tiflash_autoscale.Tenant.Pop.{
  pop_one_pod-eq-remove_pod, pop_one_pod_last, pop_pods_empty, pop_pods_last,
}

pub record Shrinks (h : PodHeap) (t : TenantDesc) (h' : PodHeap) (t' : TenantDesc) : Type 0 where
  pub consistent : Consistent h' t'
  pub same_name : t'.name ≡ t.name
  pub names : (q : ℕ) → (h' q).name ≡ (h q).name
  pub ips : (q : ℕ) → (h' q).ip ≡ (h q).ip
  pub sub : (q : ℕ) → contains q t'.pod_list ≡ true → contains q t.pod_list ≡ true
  pub others : (q : ℕ) → contains q t.pod_list ≡ false → (h' q).tenant_name ≡ (h q).tenant_name
  pub released :
      (q : ℕ)
      → contains q t.pod_list ≡ true
      → contains q t'.pod_list ≡ false
      → (h' q).tenant_name ≡ ""

pub Shrinks-refl : (h : PodHeap) (t : TenantDesc) → Consistent h t → Shrinks h t h t
Shrinks-refl h t v = record {
  consistent = v;
  same_name = refl;
  names = λ q. refl;
  ips = λ q. refl;
  sub = λ q m. m;
  others = λ q m. refl;
  released = λ q m n. absurd (ground arith);
}

pub Shrinks-trans :
    {h h' h'' : PodHeap} {t t' t'' : TenantDesc}
    → Shrinks h t h' t'
    → Shrinks h' t' h'' t''
    → Shrinks h t h'' t''
Shrinks-trans {h} {h'} {h''} {t} {t'} {t''} a b = record {
  consistent = b.consistent;
  same_name = b.same_name ∙ a.same_name;
  names = λ q. b.names q ∙ a.names q;
  ips = λ q. b.ips q ∙ a.ips q;
  sub = λ q m. a.sub q (b.sub q m);
  others = λ q m. ground (arith, a.others q, b.others q, a.sub q);
  released = λ q m n. ground (arith, a.released q, b.others q, b.released q);
}

pub remove_pod-Shrinks :
    (now : ℤ) (k : String) (h : PodHeap) (t : TenantDesc)
    → Consistent h t
    → Shrinks h t (remove_pod now k h t).0 (remove_pod now k h t).1
remove_pod-Shrinks now k h t v = elim (Option-cases (Dict.lookup k t.pod_map)) [
  | inl e ↦ rw (remove_pod_missing now k h t e) (Shrinks-refl h t v)
  | inr (p, e) ↦
      subst (λ r. Shrinks h t r.0 r.1) (sym (remove_pod_listed now k p h t e))
        (record {
          consistent =
              subst (λ r. Consistent r.0 r.1) (remove_pod_listed now k p h t e)
                (remove_pod-Consistent now k h t v);
          same_name = refl;
          names = λ q. unfold clear_tenant_info in ground arith;
          ips = λ q. unfold clear_tenant_info in ground arith;
          sub = λ q m. ground (arith, contains-without p q t.pod_list);
          others = λ q m. unfold clear_tenant_info in ground (arith, v.mapped k p e);
          released =
              λ q m n. unfold clear_tenant_info in ground (arith, contains-without p q t.pod_list);
        })
]

pub pop_pods-Shrinks :
    (now : ℤ) (cnt : ℕ) (ret : List ℕ) (h : PodHeap) (t : TenantDesc)
    → Consistent h t
    → Shrinks h t (pop_pods now cnt ret h t).0 (pop_pods now cnt ret h t).1
pop_pods-Shrinks now zero ret h t v = unfold pop_pods in Shrinks-refl h t v
pop_pods-Shrinks now (suc cnt) ret h t v = elim (Option-cases (unsnoc t.pod_list)) [
  | inl e ↦
      subst (λ r. Shrinks h t r.0 r.1) (sym (pop_pods_empty now cnt ret h t e)) (Shrinks-refl h t v)
  | inr ((rest, p), e) ↦
      let a : Shrinks h t (pop_one_pod now h t).0 (pop_one_pod now h t).1 =
        subst (λ r. Shrinks h t r.0 r.1) (sym (pop_one_pod-eq-remove_pod now h t rest p v e))
          (remove_pod-Shrinks now (h p).name h t v) in
      let b = subst (λ r. Shrinks h t r.0 r.1) (pop_one_pod_last now h t rest p e) a in
      subst (λ r. Shrinks h t r.0 r.1) (sym (pop_pods_last now cnt ret h t rest p e))
        (Shrinks-trans b (pop_pods-Shrinks now cnt (ret ++ p ∷ []) _ _ b.consistent))
]

-- A pod comes to a tenant.
pub record Grows (p : ℕ) (h : PodHeap) (t : TenantDesc) (h' : PodHeap) (t' : TenantDesc)
    : Type 0 where
  pub consistent : Consistent h' t'
  pub same_name : t'.name ≡ t.name
  pub names : (q : ℕ) → (h' q).name ≡ (h q).name
  pub ips : (q : ℕ) → (h' q).ip ≡ (h q).ip
  pub sub : (q : ℕ) → contains q t'.pod_list ≡ true → (contains q t.pod_list ≡ true) ⊎ (q ≡ p)
  pub has : contains p t'.pod_list ≡ true
  pub owners : (q : ℕ) → (h' q).tenant_name ≡ (if p == q then t.name else (h q).tenant_name)

put_pod-sub :
    (p q : ℕ) (k : String) (t : TenantDesc)
    → contains q (put_pod k p t).pod_list ≡ true
    → (contains q t.pod_list ≡ true) ⊎ (q ≡ p)
put_pod-sub p q k t m = ground (arith, contains-append q t.pod_list (p ∷ []))

put_pod-has :
    (p : ℕ) (k : String) (h : PodHeap) (t : TenantDesc)
    → Consistent h t
    → Fits h t k p
    → contains p (put_pod k p t).pod_list ≡ true
put_pod-has p k h t v fits = elim (Option-cases (Dict.lookup k t.pod_map)) [
  | inl e ↦ rw e (ground (arith, contains-append p t.pod_list (p ∷ [])))
  | inr (r, e) ↦ rw e (ground (arith, fits.1 r e, v.mapped k r e))
]

pub set_pod-Grows :
    (k : String) (p : ℕ) (h : PodHeap) (t : TenantDesc)
    → Consistent h t
    → Fits h t k p
    → Grows p h t (set_pod k p h t).0 (set_pod k p h t).1
unfolding set_pod set_tenant_info
set_pod-Grows k p h t v fits = record {
  consistent = set_pod-Consistent k p h t v fits;
  same_name = refl;
  names = λ q. ground arith;
  ips = λ q. ground arith;
  sub = λ q m. put_pod-sub p q k t m;
  has = put_pod-has p k h t v fits;
  owners = λ q. ground arith;
}

pub set_pod_with_tenant_info-Grows :
    (k : String) (p : ℕ) (start : ℤ) (h : PodHeap) (t : TenantDesc)
    → Consistent h t
    → Fits h t k p
    → Grows p h t
        (set_pod_with_tenant_info k p start h t).0
        (set_pod_with_tenant_info k p start h t).1
unfolding set_pod_with_tenant_info set_tenant_info_and_stime_of_assign
set_pod_with_tenant_info-Grows k p start h t v fits = record {
  consistent = set_pod_with_tenant_info-Consistent k p start h t v fits;
  same_name = refl;
  names = λ q. ground arith;
  ips = λ q. ground arith;
  sub = λ q m. put_pod-sub p q k t m;
  has = put_pod-has p k h t v fits;
  owners = λ q. ground arith;
}
