-- ===== src/Tasks/Managed.antt =====
-- What a round of manageAnalyzeTasks makes of the tasks.
use tiflash_autoscale.Prelude.{
  String, str_eq, str_eq_iff, ◌≡◌, refl, ap, ◌∙◌, Bool, true, false, not, Option, none, some, List,
  [], ◌∷◌, if◌then◌else◌, arith, Bool-cases, Option-cases, inl, inr,
}
use tiflash_autoscale.Dict
use tiflash_autoscale.Dict.{Dict}
use tiflash_autoscale.Dict.Laws.{lookup-insert}
use tiflash_autoscale.Tenant.{TenantDesc}
use tiflash_autoscale.Tasks.{
  AnalyzeTask, new_analyze_task, shutdown_task, tenant_set, create_tasks, shutdown_where,
  manage_analyze_tasks,
}

-- Whether a name is that of a tenant.
abbrev pub names : String → List TenantDesc → Bool
names k [] = false
names k (t ∷ ts) = if str_eq t.name k then true else names k ts

-- The task of a name, told to end or not.
abbrev pub told : Bool → Option AnalyzeTask → Option AnalyzeTask
told b none = none
told b (some t) = some (if b then record t { end_syn = true } else t)

shutdown_task_told : (t : AnalyzeTask) → (shutdown_task t).0 ≡ record t { end_syn = true }
unfolding shutdown_task
shutdown_task_told t = elim (Bool-cases t.end_syn) [ inl b ↦ rw b refl | inr b ↦ rw b refl ]

has-tenant_set :
    (k : String) (ts : List TenantDesc) (s : Dict Bool)
    → Dict.has k (tenant_set ts s) ≡ (if names k ts then true else Dict.has k s)
unfolding tenant_set
has-tenant_set k [] s = refl
has-tenant_set k (t ∷ ts) s = elim (Bool-cases (str_eq t.name k)) [
  | inl b ↦
      has-tenant_set k ts (Dict.insert t.name true s)
      ∙ ground (arith, lookup-insert t.name k true s, b)
  | inr b ↦
      has-tenant_set k ts (Dict.insert t.name true s)
      ∙ ground (arith, lookup-insert t.name k true s, b)
]

-- The task that stands under a name after the loop over the tenants.
abbrev pub or_new : String → Bool → Option AnalyzeTask → Option AnalyzeTask
or_new k b (some t) = some t
or_new k true none = some (new_analyze_task k)
or_new k false none = none

create_one :
    (k : String) (name : String) (m : Dict AnalyzeTask)
    → Dict.lookup k (if Dict.has name m then m else Dict.insert name (new_analyze_task name) m)
      ≡ or_new k (str_eq name k) (Dict.lookup k m)
create_one k name m = elim (Bool-cases (str_eq name k)) [
  | inl b ↦ elim (Option-cases (Dict.lookup k m)) [
    | inl n ↦
        ground (arith, lookup-insert name k (new_analyze_task name) m, b, n, str_eq_iff name k)
    | inr (t, n) ↦
        ground (arith, lookup-insert name k (new_analyze_task name) m, b, n, str_eq_iff name k)
  ]
  | inr b ↦ elim (Option-cases (Dict.lookup k m)) [
    | inl n ↦ ground (arith, lookup-insert name k (new_analyze_task name) m, b, n)
    | inr (t, n) ↦ ground (arith, lookup-insert name k (new_analyze_task name) m, b, n)
  ]
]

or_new_twice :
    (k : String) (b c : Bool) (o : Option AnalyzeTask)
    → or_new k c (or_new k b o) ≡ or_new k (if b then true else c) o
or_new_twice k true c none = refl
or_new_twice k false c none = refl
or_new_twice k true c (some t) = refl
or_new_twice k false c (some t) = refl

lookup-create_tasks :
    (k : String) (ts : List TenantDesc) (m : Dict AnalyzeTask)
    → Dict.lookup k (create_tasks ts m) ≡ or_new k (names k ts) (Dict.lookup k m)
unfolding create_tasks
lookup-create_tasks k [] m = elim (Option-cases (Dict.lookup k m)) [
  | inl n ↦ rw n refl
  | inr (t, n) ↦ rw n refl
]
lookup-create_tasks k (t ∷ ts) m =
    lookup-create_tasks k ts _
    ∙ ap (or_new k (names k ts)) (create_one k t.name m)
    ∙ or_new_twice k (str_eq t.name k) (names k ts) (Dict.lookup k m)

lookup-shutdown_where :
    (k : String) (test : String → Bool) (m : Dict AnalyzeTask)
    → Dict.lookup k (shutdown_where test m) ≡ told (test k) (Dict.lookup k m)
unfolding shutdown_where Dict.lookup
lookup-shutdown_where k test [] = refl
lookup-shutdown_where k test ((j, t) ∷ m) = elim (Bool-cases (str_eq j k)) [
  | inl b ↦ rw b (
      ap (λ (u : AnalyzeTask). some (if test j then u else t)) (shutdown_task_told t)
      ∙ ap (λ (i : String). some (if test i then record t { end_syn = true } else t))
          ((str_eq_iff j k).0 b))
  | inr b ↦ rw b (lookup-shutdown_where k test m)
]

-- After a round of manageAnalyzeTasks, under every name: the task of a tenant is the one that it had, or
-- a new one that is not told to end; the task of a name that is no tenant's is told to end, and none is
-- made for it. The round that shuts down tells every task to end and makes none.
pub manage_analyze_tasks_lem :
    (shutdown : Bool) (ts : List TenantDesc) (m : Dict AnalyzeTask) (k : String)
    → Dict.lookup k (manage_analyze_tasks shutdown ts m) ≡ (
        if shutdown
        then told true (Dict.lookup k m)
        else if names k ts
        then or_new k true (Dict.lookup k m)
        else told true (Dict.lookup k m))
unfolding manage_analyze_tasks Dict.lookup
manage_analyze_tasks_lem true ts m k = lookup-shutdown_where k (λ i. true) m
manage_analyze_tasks_lem false ts m k =
    lookup-shutdown_where k (λ i. not (Dict.has i (tenant_set ts []))) (create_tasks ts m)
    ∙ ap (told (not (Dict.has k (tenant_set ts [])))) (lookup-create_tasks k ts m)
    ∙ ap (λ (b : Bool). told (not b) (or_new k (names k ts) (Dict.lookup k m)))
        (has-tenant_set k ts [])
    ∙ settled (names k ts) (Dict.lookup k m)
  where
    settled :
        (b : Bool) (o : Option AnalyzeTask)
        → told (not (if b then true else false)) (or_new k b o)
          ≡ (if b then or_new k true o else told true o)
    settled true none = refl
    settled true (some t) = refl
    settled false none = refl
    settled false (some t) = refl
