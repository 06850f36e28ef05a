-- ===== src/Cluster/Retry.antt =====
-- autoscale/cluster.go: the retries of addNewPods and removePods.
use tiflash_autoscale.Prelude.{
  ℕ, zero, suc, ℤ, ◌+ℤ◌, int32, String, ◌≡◌, some, List, [], Option-cases, arith, inl, inr,
}
use tiflash_autoscale.Cluster.{
  CloneSet, Api, add_new_pods, remove_pods, deletion, handle_clone_set_api_error,
}

-- A CloneSet from which some attempt may start: the manager's, or one that the API has given.
pub data Base (api : ℕ → Api) (c : CloneSet) : CloneSet → Type 0 where
  known : Base api c c
  fetched : (i : ℕ) (latest : CloneSet) → (api i).get ≡ some latest → Base api c latest

rebase :
    (api : ℕ → Api) (c latest b : CloneSet) (i : ℕ)
    → (api i).get ≡ some latest
    → Base api latest b
    → Base api c b
rebase api c latest _ i e known = fetched i latest e
rebase api c latest b i e (fetched j _ f) = fetched j b f

-- The update of one attempt.
abbrev pub grown : ℤ → CloneSet → CloneSet
grown delta c = record c { replicas = int32 (c.replicas +ℤ delta) }

-- When addNewPods succeeds, the API has accepted one update, of the replicas of a CloneSet that the
-- manager had or that the API gave, plus delta once; what the API answered is kept and returned.
pub add_new_pods_once :
    (api : ℕ → Api) (delta : ℤ) (retry_cnt : ℕ) (c after ret : CloneSet)
    → add_new_pods api delta retry_cnt c ≡ (after, some ret)
    → (base : CloneSet) × (i : ℕ) × Base api c base
      × ((api i).update (grown delta base) ≡ some ret)
      × (after ≡ ret)
unfolding add_new_pods handle_clone_set_api_error
add_new_pods_once api delta zero c after ret e =
    elim (Option-cases ((api 0).update (grown delta c))) [
      | inl n ↦ absurd (ground (arith, n, e))
      | inr (x, n) ↦ (c, 0, known, ground (arith, n, e), ground (arith, n, e))
    ]
add_new_pods_once api delta (suc n) c after ret e =
    elim (Option-cases ((api (suc n)).update (grown delta c))) [
      | inr (x, u) ↦ (c, suc n, known, ground (arith, u, e), ground (arith, u, e))
      | inl u ↦ elim (Option-cases (api (suc n)).get) [
        | inl q ↦ absurd (ground (arith, u, q, e))
        | inr (latest, q) ↦
            let (base, i, b, f, d) =
              add_new_pods_once api delta n latest after ret
                (unfold add_new_pods in ground (arith, u, q, e)) in
            (base, i, rebase api c latest base (suc n) q b, f, d)
      ]
    ]

-- When removePods succeeds, the API has accepted one update, of the replicas of a CloneSet that the
-- manager had or that the API gave, less the number of pods once, that names just these pods; its
-- answer is kept as it is, and returned without the pods to delete.
pub remove_pods_once :
    (api : ℕ → Api) (pods : List String) (retry_cnt : ℕ) (c after ret : CloneSet)
    → remove_pods api pods retry_cnt c ≡ (after, some ret)
    → (base : CloneSet) × (i : ℕ) × Base api c base
      × ((api i).update (deletion pods base) ≡ some after)
      × (ret ≡ record after { pods_to_delete = [] })
unfolding remove_pods handle_clone_set_api_error
remove_pods_once api pods zero c after ret e =
    elim (Option-cases ((api 0).update (deletion pods c))) [
      | inl n ↦ absurd (ground (arith, n, e))
      | inr (x, n) ↦ (c, 0, known, ground (arith, n, e), ground (arith, n, e))
    ]
remove_pods_once api pods (suc n) c after ret e =
    elim (Option-cases ((api (suc n)).update (deletion pods c))) [
      | inr (x, u) ↦ (c, suc n, known, ground (arith, u, e), ground (arith, u, e))
      | inl u ↦ elim (Option-cases (api (suc n)).get) [
        | inl q ↦ absurd (ground (arith, u, q, e))
        | inr (latest, q) ↦
            let (base, i, b, f, d) =
              remove_pods_once api pods n latest after ret
                (unfold remove_pods in ground (arith, u, q, e)) in
            (base, i, rebase api c latest base (suc n) q b, f, d)
      ]
    ]
