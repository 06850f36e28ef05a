-- ===== src/Bootstrap/Created.antt =====
-- When initK8sComponents creates a CloneSet, and what DoPodsWarm finds after it.
use tiflash_autoscale.Prelude.{
  ℕ, zero, suc, ℤ, pos, ◌+ℤ◌, ◌-ℤ◌, ◌≤◌, int32, InInt32, int32-of-InInt32, String, str_eq, ◌≡◌,
  refl, sym, ap, ◌∙◌, subst, Bool, true, false, not, ◌&&◌, Option, none, some, List, [],
  if◌then◌else◌, arith, int_laws, Bool-cases, Option-cases, ◌⊎◌, inl, inr,
}
use tiflash_autoscale.Dict
use tiflash_autoscale.Dict.{Dict}
use tiflash_autoscale.Tenant.{get_cnt_of_pods}
use tiflash_autoscale.Pool.{PrewarmPool}
use tiflash_autoscale.Cluster.{warm_delta, recent_fail_cnt}
use tiflash_autoscale.Bootstrap.{
  InstalledCloneSet, StartApi, annotation_key, max_retry_times, desired_clone_set, found_clone_set,
  needs_recreate, delete_clone_set, create_clone_set, check_image, keep_or_recreate,
  init_k8s_components,
}

-- Whether the annotations say the version that the program wants.
abbrev pub is_current : Option (Dict String) → Bool
is_current none = false
is_current (some d) = elim (Dict.lookup annotation_key d) [ none ↦ false | some v ↦ str_eq "1" v ]

needs_recreate-not :
    (old : Option (Dict String)) (name image : String) (n : ℤ)
    → needs_recreate old (desired_clone_set name image n).annotations ≡ not (is_current old)
unfolding needs_recreate desired_clone_set Dict.lookup
needs_recreate-not none name image n = refl
needs_recreate-not (some d) name image n = elim (Option-cases (Dict.lookup annotation_key d)) [
  | inl e ↦ rw (needs_recreate, is_current, e) refl
  | inr (v, e) ↦ rw (needs_recreate, is_current, e) refl
]

-- One Delete among those that there are retries for is enough.
deleted_once :
    (delete : ℕ → Bool) (n i : ℕ) → i ≤ n → delete i ≡ true → delete_clone_set delete n ≡ true
unfolding delete_clone_set
deleted_once delete zero i le e = subst (λ (j : ℕ). delete j ≡ true) (omega (arith, le)) e
deleted_once delete (suc n) i le e = elim (Bool-cases (delete (suc n))) [
  | inl b ↦ rw b refl
  | inr b ↦ rw b (deleted_once delete n i (ground (arith, le, e, b)) e)
]

image_checked :
    (api : StartApi) (image old_image : String) (old again : InstalledCloneSet) (p : PrewarmPool)
    → api.patch_image image ≡ true
    → api.get_again ≡ some again
    → check_image api image (some old_image) old p
      ≡ some (p, if str_eq image old_image then old else again)
unfolding check_image
image_checked api image old_image old again p patched got =
    elim (Bool-cases (str_eq image old_image)) [
      | inl s ↦ rw s refl
      | inr s ↦ rw (s, patched, got) refl
    ]

zero_add : (l : ℤ) → pos 0 +ℤ l ≡ l
zero_add l = omega int_laws

balanced : (l : ℤ) → pos 0 +ℤ l -ℤ (l +ℤ pos 0) ≡ pos 0
balanced l = omega int_laws

all_pending :
    (f n : ℕ) (l pending : ℤ)
    → InInt32 l
    → pending ≡ pos 0
    → n ≡ 0
    → f ≡ 0
    → pos f +ℤ l -ℤ (int32 (pending +ℤ int32 l) +ℤ pos n) ≡ pos 0
all_pending f n l pending r a b c =
    rw (a, b, c, int32-of-InInt32 l r, zero_add l, int32-of-InInt32 l r)
      (ap (λ (x : ℤ). x -ℤ (l +ℤ pos 0)) (sym (zero_add l)) ∙ balanced l)

-- A pool without pods waits for just the pods of the CloneSet that it was created with.
created_settles :
    (api : StartApi) (name image : String) (now : ℤ) (p : PrewarmPool)
    → InInt32 p.soft_limit
    → p.cnt_of_pending ≡ pos 0
    → get_cnt_of_pods p.warmed_pods ≡ 0
    → p.tenant_last_op_result_map ≡ []
    → (warm_delta now (create_clone_set api (desired_clone_set name image p.soft_limit) p).0).1
      ≡ pos 0
unfolding create_clone_set desired_clone_set warm_delta recent_fail_cnt
created_settles api name image now p r a b c =
    all_pending (recent_fail_cnt now p.tenant_last_op_result_map).0 (get_cnt_of_pods p.warmed_pods)
      p.soft_limit p.cnt_of_pending r a b (ap (λ m. (recent_fail_cnt now m).0) c)

-- Where the API answers, one Delete of 101 and the patch of the image included, and the pool is new, with
-- a limit that fits in an int32: initK8sComponents returns. If no CloneSet of its name is listed, or the
-- one that is there is not of the version wanted, it has created one, and DoPodsWarm then finds that the
-- pool is short of none. Else the pool is as it was, and the CloneSet is the one that was there, read
-- again if its image was another.
pub init_k8s_components_lem :
    (api : StartApi) (name image : String) (now : ℤ) (p : PrewarmPool)
    (listed : List InstalledCloneSet) (old again created : InstalledCloneSet) (old_image : String)
    (i : ℕ)
    → api.list ≡ some listed
    → api.get ≡ some old
    → api.get_again ≡ some again
    → api.create (desired_clone_set name image p.soft_limit) ≡ some created
    → api.patch_image image ≡ true
    → i ≤ max_retry_times
    → api.delete i ≡ true
    → old.image ≡ some old_image
    → InInt32 p.soft_limit
    → p.cnt_of_pending ≡ pos 0
    → get_cnt_of_pods p.warmed_pods ≡ 0
    → p.tenant_last_op_result_map ≡ []
    → let keeps = found_clone_set name listed && is_current old.annotations in
      (p' : PrewarmPool) × (c : InstalledCloneSet) × (init_k8s_components api name image p
        ≡ some (p', c))
      × (((keeps ≡ false)
            × (c ≡ created)
            × (p'.warmed_pods ≡ p.warmed_pods)
            × ((warm_delta now p').1 ≡ pos 0))
          ⊎ ((keeps ≡ true) × (p' ≡ p) × (c ≡ (if str_eq image old_image then old else again))))
unfolding init_k8s_components create_clone_set
init_k8s_components_lem api name image now p listed old again created old_image i l e1 e2 e3 e4 le
      e5 e6 r a b c =
    let desired = desired_clone_set name image p.soft_limit in
    let p1 = (create_clone_set api desired p).0 in
    let settled = created_settles api name image now p r a b c in
    elim (Bool-cases (found_clone_set name listed)) [
      | inr f ↦ (p1, created, rw (l, f, e3) refl, inl (rw f refl, refl, refl, settled))
      | inl f ↦ elim (Bool-cases (is_current old.annotations)) [
        | inr v ↦
            let n : needs_recreate old.annotations desired.annotations ≡ true =
              needs_recreate-not old.annotations name image p.soft_limit ∙ rw v refl in
            let d = deleted_once api.delete max_retry_times i le e5 in
            (
              p1,
              created,
              rw (l, f, e1, keep_or_recreate, n, d, e3) refl,
              inl (rw (f, v) refl, refl, refl, settled),
            )
        | inl v ↦
            let n : needs_recreate old.annotations desired.annotations ≡ false =
              needs_recreate-not old.annotations name image p.soft_limit ∙ rw v refl in
            (
              p,
              if str_eq image old_image then old else again,
              rw (l, f, e1, keep_or_recreate, n)
                  (ap (λ o. check_image api image o old p) e6
                    ∙ image_checked api image old_image old again p e4 e2),
              inr (rw (f, v) refl, refl, refl),
            )
      ]
    ]
