-- ===== src/Meta/Update.antt =====
-- UpdatePod: what the watch on pods brings.
use tiflash_autoscale.Prelude.{
  ℕ, suc, ℤ, ◌<◌, String, str_eq, str_eq_iff, ◌≡◌, ◌≢◌, subst, true, false, none, List, contains,
  without_absent, arith, Bool-cases, Option-cases, inl, inr,
}
use tiflash_autoscale.Dict
use tiflash_autoscale.Dict.{Dict}
use tiflash_autoscale.Dict.Laws.{lookup-insert}
use tiflash_autoscale.Pod.{update}
use tiflash_autoscale.Tenant.Consistent.{Consistent-frame}
use tiflash_autoscale.Meta.{
  AutoScaleMeta, put_back, new_pod, add_pod, refresh_pod, update_pod, set_ip,
}
use tiflash_autoscale.Meta.Desc.{get_tenant_desc_or_warmed_pool}
use tiflash_autoscale.Meta.Good.{Good}
use tiflash_autoscale.Meta.Events.{put_back-Good}

-- A name that no known pod has, nor had one that is gone.
abbrev pub Fresh : String → AutoScaleMeta → Type 0
Fresh name c = (p : ℕ) → p < c.next_pod → (c.heap p).name ≢ name

abbrev insert_pod : String → String → AutoScaleMeta → AutoScaleMeta
insert_pod name ip c = record c {
  heap = update c.heap c.next_pod (new_pod name ip);
  next_pod = suc c.next_pod;
  pod_desc_map = Dict.insert name c.next_pod c.pod_desc_map;
}

insert_pod-Good :
    (name ip : String) (c : AutoScaleMeta) (moving : List ℕ)
    → Good c moving
    → Fresh name c
    → Good (insert_pod name ip c) moving
unfolding get_tenant_desc_or_warmed_pool
insert_pod-Good name ip c moving v fresh = record {
  owned = λ k t e. (
    record {
      listed = λ q m. ground (arith, v.listed k t q e, (v.owned k t e).0.listed q m);
      mapped = λ j q m. ground (arith, v.listed k t q e, (v.owned k t e).0.mapped j q m);
      distinct = (v.owned k t e).0.distinct;
      keys = (v.owned k t e).0.keys;
      counted = (v.owned k t e).0.counted;
    },
    (v.owned k t e).1,
  );
  listed = λ k t q e m. ground (arith, v.listed k t q e m);
  registered = λ k q e.
      ground (
        arith,
        v.registered k q,
        lookup-insert name k c.next_pod c.pod_desc_map,
        str_eq_iff name k,
      );
  unique = λ q r a b e. ground (arith, v.unique q r, fresh q, fresh r);
  loose = λ q m.
      let l = v.loose q m in
      record {
        known = ground (arith, l.known);
        has_ip = ground (arith, l.known, l.has_ip);
        no_tenant = ground (arith, l.known, l.no_tenant);
        unlisted = l.unlisted;
      };
}

set_ip-Good :
    (p : ℕ) (ip : String) (c : AutoScaleMeta) (moving : List ℕ)
    → Good c moving
    → str_eq ip "" ≡ false
    → Good (set_ip p ip c) moving
unfolding get_tenant_desc_or_warmed_pool
set_ip-Good p ip c moving v some_ip = record {
  owned = λ k t e. (
    Consistent-frame (λ q. ground arith) (λ q m. ground arith) (v.owned k t e).0,
    (v.owned k t e).1,
  );
  listed = λ k t q e m. ground (arith, v.listed k t q e m);
  registered = λ k q e. ground (arith, v.registered k q);
  unique = λ q r a b e. ground (arith, v.unique q r);
  loose = λ q m.
      let l = v.loose q m in
      record {
        known = l.known;
        has_ip = ground (arith, l.has_ip);
        no_tenant = ground (arith, l.no_tenant);
        unlisted = l.unlisted;
      };
}

add_pod-Good :
    (now : ℤ) (name ip : String) (c : AutoScaleMeta) (moving : List ℕ)
    → Good c moving
    → Fresh name c
    → Good (add_pod now name ip c) moving
unfolding add_pod
add_pod-Good now name ip c moving v fresh =
    let g = insert_pod-Good name ip c moving v fresh in
    elim (Bool-cases (str_eq ip "")) [
      | inl b ↦ rw b g
      | inr b ↦ rw b (
          let away : contains c.next_pod moving ≡ false =
            elim (Bool-cases (contains c.next_pod moving)) [
              | inl m ↦ absurd (omega (arith, (v.loose c.next_pod m).known))
              | inr m ↦ m
            ] in
          subst (Good (put_back now "" c.next_pod true (insert_pod name ip c)))
            (without_absent c.next_pod moving away)
            (put_back-Good now "" c.next_pod true (insert_pod name ip c) moving g (omega arith)
              (ground (arith, b))
              (λ j s e.
                unfold get_tenant_desc_or_warmed_pool in
                ground (arith, v.listed j s c.next_pod e))))
    ]

refresh_pod-Good :
    (now : ℤ) (p : ℕ) (ip : String) (c : AutoScaleMeta) (moving : List ℕ)
    → Good c moving
    → p < c.next_pod
    → Good (refresh_pod now p ip c) moving
unfolding refresh_pod
refresh_pod-Good now p ip c moving v known = elim (Bool-cases (str_eq (c.heap p).name "")) [
  | inl a ↦ rw a v
  | inr a ↦ elim (Bool-cases (str_eq (c.heap p).ip "")) [
    | inl b ↦ elim (Bool-cases (str_eq ip "")) [
      | inl d ↦ rw (a, b, d) v
      | inr d ↦
          let g = set_ip-Good p ip c moving v d in
          let away : contains p moving ≡ false = elim (Bool-cases (contains p moving)) [
            | inl m ↦ absurd (ground (arith, (v.loose p m).has_ip))
            | inr m ↦ m
          ] in
          rw (a, b, d)
            (subst (Good (put_back now "" p true (set_ip p ip c))) (without_absent p moving away) (
              put_back-Good now "" p true (set_ip p ip c) moving g known (ground (arith, d))
                (λ j s e.
                  unfold get_tenant_desc_or_warmed_pool in ground (arith, v.listed j s p e))))
    ]
    | inr b ↦ elim (Bool-cases (str_eq ip "")) [
      | inl d ↦ rw (a, b, d) v
      | inr d ↦ elim (Bool-cases (str_eq (c.heap p).ip ip)) [
        | inl e ↦ rw (a, b, d, e) v
        | inr e ↦ rw (a, b, d, e) (set_ip-Good p ip c moving v d)
      ]
    ]
  ]
]

pub update_pod-Good :
    (now : ℤ) (name ip : String) (c : AutoScaleMeta) (moving : List ℕ)
    → Good c moving
    → (Dict.lookup name c.pod_desc_map ≡ none → Fresh name c)
    → Good (update_pod now name ip c) moving
unfolding update_pod
update_pod-Good now name ip c moving v fresh =
    elim (Option-cases (Dict.lookup name c.pod_desc_map)) [
      | inl e ↦ rw (e, update_pod) (add_pod-Good now name ip c moving v (fresh e))
      | inr (p, e) ↦
          rw (e, update_pod) (refresh_pod-Good now p ip c moving v (v.registered name p e).1)
    ]
