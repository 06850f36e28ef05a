-- ===== src/Bootstrap.antt =====
-- autoscale/cluster.go: initK8sComponents, up to where it has a CloneSet. What the Kubernetes API answers
-- is an argument. Of a CloneSet there are the parts that are compared or counted. `none` is a panic.
pub mod Created
use tiflash_autoscale.Prelude.{
  ℕ, zero, suc, ℤ, ◌+ℤ◌, int32, String, str_eq, Bool, true, false, not, ◌||◌, Option, none, some,
  is_some, List, [], ◌∷◌, if◌then◌else◌,
}
use tiflash_autoscale.Dict
use tiflash_autoscale.Dict.{Dict}
use tiflash_autoscale.Pool.{PrewarmPool}

-- The image is that of the first container, if there is one.
pub record InstalledCloneSet : Type 0 where
  pub name : String
  pub annotations : Option (Dict String)
  pub replicas : ℤ
  pub image : Option String

-- What the API answers to List, to the first and the second Get, to Create and to the patch of the image,
-- and to each Delete, by the number of retries that are left; none and false are errors.
pub record StartApi : Type 0 where
  pub list : Option (List InstalledCloneSet)
  pub get : Option InstalledCloneSet
  pub get_again : Option InstalledCloneSet
  pub create : InstalledCloneSet → Option InstalledCloneSet
  pub patch_image : String → Bool
  pub delete : ℕ → Bool

-- AnnotationKeyOfSupervisorRDVersionn.
abbrev pub annotation_key : String
annotation_key = "tiflash.autoscale.rdversion"

-- MaxRetryTimes.
abbrev pub max_retry_times : ℕ
max_retry_times = 100

-- The CloneSet that is wanted.
unfoldable pub desired_clone_set : String → String → ℤ → InstalledCloneSet
desired_clone_set name image soft_limit = record {
  name = name;
  annotations = some ((annotation_key, "1") ∷ []);
  replicas = int32 soft_limit;
  image = some image;
}

unfoldable pub found_clone_set : String → List InstalledCloneSet → Bool
found_clone_set name [] = false
found_clone_set name (c ∷ cs) =
    let rest = found_clone_set name cs in if str_eq c.name name then true else rest

-- Whether a CloneSet has the key of the version among its annotations.
abbrev pub has_key : Option (Dict String) → Bool
has_key none = false
has_key (some d) = Dict.has annotation_key d

-- isCloneSetNeedRecreate, of the old annotations and the desired ones.
unfoldable pub needs_recreate : Option (Dict String) → Option (Dict String) → Bool
needs_recreate none desired = has_key desired
needs_recreate (some old) desired = elim (Dict.lookup annotation_key old) [
  | none ↦ has_key desired
  | some v ↦ elim desired [
    | none ↦ false
    | some d ↦ elim (Dict.lookup annotation_key d) [ none ↦ false | some v2 ↦ not (str_eq v2 v) ]
  ]
]

-- Whether a Delete succeeds, with so many retries left.
unfoldable pub delete_clone_set : (ℕ → Bool) → ℕ → Bool
delete_clone_set delete zero = delete 0
delete_clone_set delete (suc retry_cnt) =
    let rest = delete_clone_set delete retry_cnt in if delete (suc retry_cnt) then true else rest

-- createCloneSet: its replicas are pending from here on.
unfoldable pub create_clone_set :
    StartApi → InstalledCloneSet → PrewarmPool → PrewarmPool × Option InstalledCloneSet
create_clone_set api c p =
    (record p { cnt_of_pending = int32 (p.cnt_of_pending +ℤ c.replicas) }, api.create c)

-- A CloneSet, or the panic that an error ends in.
abbrev pub or_panic :
    PrewarmPool × Option InstalledCloneSet → Option (PrewarmPool × InstalledCloneSet)
or_panic (p, none) = none
or_panic (p, some c) = some (p, c)

-- The branch that keeps the CloneSet and only sees to its image; without a container there is a panic.
unfoldable pub check_image :
    StartApi
    → String
    → Option String
    → InstalledCloneSet
    → PrewarmPool
    → Option (PrewarmPool × InstalledCloneSet)
check_image api expected_image none old p = none
check_image api expected_image (some image) old p =
    if str_eq expected_image image
    then some (p, old)
    else if api.patch_image expected_image
    then or_panic (p, api.get_again)
    else none

-- The branch for a CloneSet that is there.
unfoldable pub keep_or_recreate :
    StartApi
    → InstalledCloneSet
    → String
    → InstalledCloneSet
    → PrewarmPool
    → Option (PrewarmPool × InstalledCloneSet)
unfolding create_clone_set check_image
keep_or_recreate api desired image old p =
    if needs_recreate old.annotations desired.annotations
    then (if delete_clone_set api.delete max_retry_times
        then or_panic (create_clone_set api desired p)
        else none)
    else check_image api image old.image old p

unfoldable pub init_k8s_components :
    StartApi → String → String → PrewarmPool → Option (PrewarmPool × InstalledCloneSet)
unfolding create_clone_set keep_or_recreate desired_clone_set
init_k8s_components api name image p =
    let desired = desired_clone_set name image p.soft_limit in
    elim api.list [
      | none ↦ none
      | some listed ↦
          if not (found_clone_set name listed)
          then or_panic (create_clone_set api desired p)
          else elim api.get [ none ↦ none | some old ↦ keep_or_recreate api desired image old p ]
    ]
