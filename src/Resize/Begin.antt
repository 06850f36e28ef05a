-- ===== src/Resize/Begin.antt =====
-- The beginning of a call: the pods that it takes leave a descriptor, and stand in no other.

use tiflash_autoscale.Prelude.{
  ℕ, ℤ, pos, negsuc, ◌+◌, ◌≤◌, String, str_eq_iff, ◌≡◌, refl, ap, Bool, true, some, List, [], ◌++◌,
  contains, contains-append, arith, Bool-cases, Option-cases, inl, inr,
}
use tiflash_autoscale.Pod.{PodHeap}
use tiflash_autoscale.Tenant.{TenantDesc, state_eq, get_pod_names}
use tiflash_autoscale.Tenant.Shrinks.{Shrinks}
use tiflash_autoscale.Pool.{PrewarmPool, take_pods, get_warmed_pods, note_op_result}
use tiflash_autoscale.Pool.Take.{Taken, take_pods-Taken}
use tiflash_autoscale.Meta.{AutoScaleMeta, get_tenant_desc}
use tiflash_autoscale.Meta.Desc.{get_tenant_desc_or_warmed_pool, Changes}
use tiflash_autoscale.Meta.Good.{Good, Shrinks-Good}
use tiflash_autoscale.Resize.{
  adding, Begun, refused, panics, begun, begin_add, add_begin, expected_state,
}
use tiflash_autoscale.Resize.Count.{count, count-append, contains-eq-count, count_le_one}
use tiflash_autoscale.Resize.Moving.{Good-join, mark-Good, released-Loose}

abbrev pub Once : List ℕ → Type 0
Once m = (q : ℕ) → count q m ≤ 1

-- A descriptor shrinks, and the pods that it gives up join the ones that move.
pub join-Good :
    {k : String} {h' : PodHeap} {t t' : TenantDesc} {c c' : AutoScaleMeta} {moving : List ℕ}
    (pods : List ℕ)
    → get_tenant_desc_or_warmed_pool k c ≡ some t
    → Shrinks c.heap t h' t'
    → Changes k h' t' c c'
    → ((q : ℕ) → count q t.pod_list ≡ count q pods + count q t'.pod_list)
    → Good c moving
    → Once moving
    → Good c' (pods ++ moving) × Once (pods ++ moving)
join-Good {k} {h'} {t} {t'} {c} {c'} {moving} pods found sh ch split v once =
    let d = (v.owned k t found).0.distinct in
    (
      Good-join c' moving (pods ++ moving) (Shrinks-Good found sh ch v) (λ q m.
          elim (Bool-cases (contains q moving)) [
            | inl i ↦ inl i
            | inr i ↦ inr (
                released-Loose q found sh ch v
                  (ground (
                    arith,
                    split q,
                    contains-eq-count q t.pod_list,
                    contains-eq-count q pods,
                    contains-append q pods moving,
                  ))
                  (ground (
                    arith,
                    split q,
                    count_le_one q t.pod_list d,
                    contains-eq-count q t'.pod_list,
                    contains-eq-count q pods,
                    contains-append q pods moving,
                  )))
          ]),
      λ q. elim (Bool-cases (contains q moving)) [
        | inl i ↦ ground (
          arith,
          (v.loose q i).unlisted k t found,
          contains-eq-count q t.pod_list,
          split q,
          count-append q pods moving,
          once q,
        )
        | inr i ↦ ground (
          arith,
          contains-eq-count q moving,
          count_le_one q t.pod_list d,
          split q,
          count-append q pods moving,
        )
      ],
    )

-- What a call that has begun leaves behind.
abbrev pub BegunWell : List ℕ → Begun → Type 0
BegunWell moving refused = Unit
BegunWell moving panics = Unit
BegunWell moving (begun m k) =
    Good m (k.todo ++ moving) × Once (k.todo ++ moving) × (k.undo_list ≡ [])

count-Taken :
    {h : PodHeap} {t : TenantDesc} {n : ℕ} {r : PodHeap × TenantDesc × ℕ × List ℕ} (q : ℕ)
    → Taken h t n r []
    → count q t.pod_list ≡ count q r.3 + count q r.1.pod_list
count-Taken {h} {t} {n} {r} q tk =
    omega
      (arith, ap (count q) tk.split, count-append q tk.taken r.1.pod_list, ap (count q) tk.result)

pub warmed_pods-note_op_result :
    (now : ℤ) (k : String) (n : ℕ) (p : PrewarmPool)
    → (note_op_result now k n p).warmed_pods ≡ p.warmed_pods
warmed_pods-note_op_result now k n p = ground arith

-- The meta data with another heap and another pool.
abbrev pub with_pool : PodHeap → PrewarmPool → AutoScaleMeta → AutoScaleMeta
with_pool h p c = record c { heap = h; prewarm_pool = p }

pub get_warmed_pods-Good :
    (now : ℤ) (tenant : String) (n : ℕ) (c : AutoScaleMeta) (moving : List ℕ)
    → Good c moving
    → Once moving
    → let r = get_warmed_pods now tenant n c.heap c.prewarm_pool in
      Good (with_pool r.0 r.1 c) (r.3 ++ moving) × Once (r.3 ++ moving)
get_warmed_pods-Good now tenant n c moving v once =
    let t = c.prewarm_pool.warmed_pods in
    let r = get_warmed_pods now tenant n c.heap c.prewarm_pool in
    let c' : AutoScaleMeta = record c { heap = r.0; prewarm_pool = r.1 } in
    let e : get_tenant_desc_or_warmed_pool "" c ≡ some t =
      unfold get_tenant_desc_or_warmed_pool in refl in
    let s = take_pods now (get_pod_names c.heap t) n [] c.heap t in
    let tk : Taken c.heap t n s [] =
      unfold get_pod_names in
      take_pods-Taken now t.pod_list n [] c.heap c.heap t (λ q. refl) refl (v.owned "" t e).0 in
    let ch : Changes "" s.0 s.1 c c' = record {
      heap = unfold get_warmed_pods in refl;
      next = refl;
      pods = refl;
      descs = λ j.
          unfold get_warmed_pods get_tenant_desc_or_warmed_pool in
          ground (
            arith,
            str_eq_iff j "",
            str_eq_iff "" j,
            warmed_pods-note_op_result now tenant s.2 (record c.prewarm_pool { warmed_pods = s.1 }),
          );
    } in
    let sh : Shrinks c.heap t s.0 s.1 = tk.shrinks in
    join-Good r.3 e sh ch (λ q. unfold get_warmed_pods in count-Taken q tk) v once

pub begin_add-BegunWell :
    (now : ℤ) (tenant : String) (b : Bool) (n : ℕ) (c : AutoScaleMeta) (moving : List ℕ)
    → Good c moving
    → Once moving
    → BegunWell moving (begin_add now tenant b n c)
begin_add-BegunWell now tenant b n c moving v once =
    let w = get_warmed_pods-Good now tenant n c moving v once in
    (mark-Good true (get_warmed_pods now tenant n c.heap c.prewarm_pool).3 _ _ w.0, w.1, refl)

-- A number below 0 panics.
pub on_pos-BegunWell :
    (moving : List ℕ) (f : ℕ → Begun)
    → ((i : ℕ) → BegunWell moving (f i))
    → (n : ℤ) → BegunWell moving (elim n [ pos i ↦ f i | negsuc i ↦ panics ])
on_pos-BegunWell moving f w (pos i) = w i
on_pos-BegunWell moving f w (negsuc i) = tt

pub add_begin-BegunWell :
    (now : ℤ) (tenant : String) (b : Bool) (n : ℤ) (c : AutoScaleMeta) (moving : List ℕ)
    → Good c moving
    → Once moving
    → BegunWell moving (add_begin now tenant b n c)
unfolding add_begin
add_begin-BegunWell now tenant b n c moving v once =
    elim (Option-cases (get_tenant_desc tenant c)) [
      | inl e ↦ rw (e, add_begin) tt
      | inr (t, e) ↦ elim (Bool-cases (state_eq t.state (expected_state adding b))) [
        | inr d ↦ rw (e, add_begin, d) tt
        | inl d ↦
            rw (e, add_begin, d)
              (on_pos-BegunWell moving (λ i. begin_add now tenant b i c)
                (λ i. begin_add-BegunWell now tenant b i c moving v once) n)
      ]
    ]
