-- ===== src/Metrics/Latest.antt =====
-- autoscale/timeseries.go: QueryCpu, and the rates of the streams of a pod.
use mathlib.Core.List.{append-nil, append_assoc}
use tiflash_autoscale.Prelude.{
  ◌≤ℤ◌, ◌<ℤ◌, ltb_ℤ, String, str_eq, str_eq_iff, ◌≡◌, refl, sym, ap, ◌∙◌, subst, true, false,
  Option, none, some, List, [], ◌∷◌, ◌++◌, All, All-append, All-map, if◌then◌else◌, arith,
  Bool-cases, Option-cases, ◌⊎◌, inl, inr,
}
use tiflash_autoscale.Dict
use tiflash_autoscale.Dict.{Dict}
use tiflash_autoscale.Dict.Laws.{lookup-insert}
use tiflash_autoscale.Float.{Float64}
use tiflash_autoscale.Metrics.{TimeValPair, SampleStream, last_two, rate_of, is_newer, query_cpu}

module _ (fl : Float64) where
  -- The rates of a pod, in the order of the streams.
  unfoldable pub rates_of : String → List (SampleStream fl) → List (TimeValPair fl)
  rates_of k [] = []
  rates_of k (s ∷ ss) =
      let rest = rates_of k ss in
      if str_eq s.pod k
      then elim (last_two fl s.values) [ none ↦ rest | some two ↦ rate_of fl two ∷ rest ]
      else rest

  -- A value stands for a list of rates: it is the latest, and the first of these.
  abbrev pub Newest : List (TimeValPair fl) → Option (TimeValPair fl) → Type 0
  Newest ps o =
      ((o ≡ none) × (ps ≡ []))
      ⊎ ((v : TimeValPair fl) × (before : List (TimeValPair fl)) × (after : List (TimeValPair fl))
          × (o ≡ some v)
          × (ps ≡ before ++ v ∷ after)
          × All (λ (p : TimeValPair fl). p.time <ℤ v.time) before
          × All (λ (p : TimeValPair fl). p.time ≤ℤ v.time) after)

  one_more :
      (ps : List (TimeValPair fl)) (p : TimeValPair fl) (o : Option (TimeValPair fl))
      → Newest ps o
      → Newest (ps ++ p ∷ []) (if is_newer fl p o then some p else o)
  one_more ps p none (inl (e, n)) = inr (p, [], [], refl, rw n refl, tt, tt)
  one_more ps p (some u) (inl (e, n)) = absurd (ground arith)
  one_more ps p none (inr (v, xs, ys, e, n, a, b)) = absurd (ground arith)
  one_more ps p (some u) (inr (v, xs, ys, e, n, a, b)) = elim (Bool-cases (ltb_ℤ u.time p.time)) [
    | inl later ↦ rw later (
        inr (
          p,
          ps,
          [],
          refl,
          refl,
          subst (All (λ (q : TimeValPair fl). q.time <ℤ p.time)) (sym n) (
              All-append _ xs (v ∷ ys) (All-map _ _ xs (λ q h. ground (arith, e, later)) a)
                (ground (arith, e, later), All-map _ _ ys (λ q h. ground (arith, e, later)) b)),
          tt,
        ))
    | inr old ↦ rw old (
        inr (
          v,
          xs,
          ys ++ p ∷ [],
          e,
          ap (λ l. l ++ p ∷ []) n ∙ append_assoc xs (v ∷ ys) (p ∷ []),
          a,
          All-append _ ys (p ∷ []) b (ground (arith, e, old), tt),
        ))
  ]

  -- The map after one rate.
  abbrev put_rate : String → TimeValPair fl → Dict (TimeValPair fl) → Dict (TimeValPair fl)
  put_rate pod p ret = if is_newer fl p (Dict.lookup pod ret) then Dict.insert pod p ret else ret

  put_rate_own :
      (k pod : String) (p : TimeValPair fl) (ret : Dict (TimeValPair fl))
      → str_eq pod k ≡ true
      → Dict.lookup k (put_rate pod p ret)
        ≡ (if is_newer fl p (Dict.lookup k ret) then some p else Dict.lookup k ret)
  put_rate_own k pod p ret e =
      let same = (str_eq_iff pod k).0 e in
      elim (Bool-cases (is_newer fl p (Dict.lookup pod ret))) [
        | inl b ↦
            rw (b, subst (λ (j : String). is_newer fl p (Dict.lookup j ret) ≡ true) same b)
              (lookup-insert pod k p ret ∙ rw e refl)
        | inr b ↦
            rw (b, subst (λ (j : String). is_newer fl p (Dict.lookup j ret) ≡ false) same b) refl
      ]

  put_rate_other :
      (k pod : String) (p : TimeValPair fl) (ret : Dict (TimeValPair fl))
      → str_eq pod k ≡ false
      → Dict.lookup k (put_rate pod p ret) ≡ Dict.lookup k ret
  put_rate_other k pod p ret e = elim (Bool-cases (is_newer fl p (Dict.lookup pod ret))) [
    | inl b ↦ rw b (lookup-insert pod k p ret ∙ rw e refl)
    | inr b ↦ rw b refl
  ]

  loop-Newest :
      (k : String) (ss : List (SampleStream fl)) (ps : List (TimeValPair fl))
      (ret : Dict (TimeValPair fl))
      → Newest ps (Dict.lookup k ret)
      → Newest (ps ++ rates_of k ss) (Dict.lookup k (query_cpu fl ss ret))
  unfolding query_cpu rates_of
  loop-Newest k [] ps ret n =
      subst (λ (l : List (TimeValPair fl)). Newest l (Dict.lookup k ret)) (sym (append-nil ps)) n
  loop-Newest k (s ∷ ss) ps ret n = elim (Option-cases (last_two fl s.values)) [
    | inl e ↦ elim (Bool-cases (str_eq s.pod k)) [
      | inl b ↦ rw (e, b) (loop-Newest k ss ps ret n)
      | inr b ↦ rw (e, b) (loop-Newest k ss ps ret n)
    ]
    | inr (two, e) ↦
        let p = rate_of fl two in
        let ret' = put_rate s.pod p ret in
        elim (Bool-cases (str_eq s.pod k)) [
          | inl b ↦
              rw (e, b)
                (subst
                  (λ (l : List (TimeValPair fl)). Newest l (Dict.lookup k (query_cpu fl ss ret')))
                  (append_assoc ps (p ∷ []) (rates_of k ss))
                  (loop-Newest k ss (ps ++ p ∷ []) ret' (
                    subst (Newest (ps ++ p ∷ [])) (sym (put_rate_own k s.pod p ret b))
                      (one_more ps p (Dict.lookup k ret) n))))
          | inr b ↦
              rw (e, b)
                (loop-Newest k ss ps ret'
                  (subst (Newest ps) (sym (put_rate_other k s.pod p ret b)) n))
        ]
  ]

  -- For each pod QueryCpu gives nothing if no stream of the pod has two points; else it gives the rate
  -- of one of its streams, between the last two points: the latest, and of several the first.
  pub query_cpu_latest :
      (k : String) (ss : List (SampleStream fl))
      → ((Dict.lookup k (query_cpu fl ss []) ≡ none) × (rates_of k ss ≡ []))
        ⊎ ((v : TimeValPair fl) × (before : List (TimeValPair fl)) × (after : List (TimeValPair fl))
            × (Dict.lookup k (query_cpu fl ss []) ≡ some v)
            × (rates_of k ss ≡ before ++ v ∷ after)
            × All (λ (p : TimeValPair fl). p.time <ℤ v.time) before
            × All (λ (p : TimeValPair fl). p.time ≤ℤ v.time) after)
  query_cpu_latest k ss = loop-Newest k ss [] [] (inl (unfold Dict.lookup in refl, refl))
