-- ===== src/Gateway/Discovery/Ranking/Best.antt =====
-- What `search` of internal/gateway/discovery.go returns, and what it leaves out.
use rusty_gateway.Common.{
  ℕ, zero, suc, ◌≤◌, ◌<◌, ◌≡◌, refl, false, Option, List, [], ◌∷◌, map, All, arith, take, drop,
  length, is_nil, ltb, Bool-cases, In, inl, inr, ◌⊎◌, All-take, subst, sym, ap, length-map,
  length-take, In-map, In-append_cases, take-append-drop, lt→ltb, ltb→lt, ◌∙◌,
}
use rusty_gateway.Common.Text.{Text}
use rusty_gateway.Common.Text.Search.{fields}
use rusty_gateway.Gateway.Discovery.{Namespace, Tool, ToolInfo, tool_infos}
use rusty_gateway.Gateway.Discovery.Ranking.{Scored, before, sort_stable, score_of, hits, search}
use rusty_gateway.Gateway.Discovery.Ranking.Order.{
  Keeps, Ordered, All-sort_stable, sort_stable-Ordered, In-sort_stable, Ordered-take, Ordered-drop,
}

length-take_full :
    (n : ℕ) (xs : List Scored) (a : Scored) → In a (drop n xs) → length (take n xs) ≡ n
length-take_full zero xs a h = refl
length-take_full (suc n) [] a h = absurd h
length-take_full (suc n) (x ∷ xs) a h = ap suc (length-take_full n xs a h)

module _ (lower : ℕ → ℕ) (tokens : List Text) where
  abbrev pub scored : ToolInfo → Scored
  scored info = record { info = info; score = score_of lower tokens info }

  -- The tool i may stand above the tool j: a higher score, or the same one and no later name.
  abbrev pub RanksOver : ToolInfo → ToolInfo → Type 0
  RanksOver i j = Keeps (scored i) (scored j)

  abbrev pub Ranked : List ToolInfo → Type 0
  Ranked [] = Unit
  Ranked (i ∷ is) = All (RanksOver i) is × Ranked is

  -- A hit is a tool of the catalog with its own score, which is not 0.
  record IsHit (infos : List ToolInfo) (h : Scored) : Type 0 where
    pub listed : In h.info infos
    pub own_score : h.score ≡ score_of lower tokens h.info
    pub matched : 0 < h.score

  IsHit-cons :
      (i : ToolInfo) (infos : List ToolInfo) (hs : List Scored)
      → All (IsHit infos) hs
      → All (IsHit (i ∷ infos)) hs
  IsHit-cons i infos [] h = tt
  IsHit-cons i infos (x ∷ hs) h = (
    record { listed = inr h.0.listed; own_score = h.0.own_score; matched = h.0.matched },
    IsHit-cons i infos hs h.1,
  )

  hits-IsHit : (infos : List ToolInfo) → All (IsHit infos) (hits lower tokens infos)
  unfolding hits
  hits-IsHit [] = tt
  hits-IsHit (i ∷ infos) = elim (Bool-cases (ltb 0 (score_of lower tokens i))) [
    | inl pos ↦ rw pos (
      record { listed = inl refl; own_score = refl; matched = ltb→lt 0 _ pos },
      IsHit-cons i infos (hits lower tokens infos) (hits-IsHit infos),
    )
    | inr zero_score ↦
        rw zero_score (IsHit-cons i infos (hits lower tokens infos) (hits-IsHit infos))
  ]

  In-hits :
      (i : ToolInfo) (infos : List ToolInfo)
      → In i infos
      → 0 < score_of lower tokens i
      → In (scored i) (hits lower tokens infos)
  unfolding hits
  In-hits i [] h pos = absurd h
  In-hits i (j ∷ infos) (inl e) pos =
      subst (λ k. In (scored k) (hits lower tokens (j ∷ infos))) e
        (rw
          (lt→ltb 0 (score_of lower tokens j)
            (subst (λ k. 0 < score_of lower tokens k) (sym e) pos))
          (inl refl))
  In-hits i (j ∷ infos) (inr h) pos = elim (Bool-cases (ltb 0 (score_of lower tokens j))) [
    | inl more ↦ rw more (inr (In-hits i infos h pos))
    | inr none_of_it ↦ rw none_of_it (In-hits i infos h pos)
  ]

  RanksOver-All :
      (infos : List ToolInfo) (x : Scored) (ys : List Scored)
      → IsHit infos x
      → All (IsHit infos) ys
      → All (Keeps x) ys
      → All (RanksOver x.info) (map (λ h. h.info) ys)
  unfolding before
  RanksOver-All infos x [] hx hys k = tt
  RanksOver-All infos x (y ∷ ys) hx hys k =
      (ground (arith, k.0, hx.own_score, hys.0.own_score), RanksOver-All infos x ys hx hys.1 k.1)

  Ordered-Ranked :
      (infos : List ToolInfo) (hs : List Scored)
      → All (IsHit infos) hs
      → Ordered hs
      → Ranked (map (λ h. h.info) hs)
  Ordered-Ranked infos [] hit o = tt
  Ordered-Ranked infos (x ∷ hs) hit o =
      (RanksOver-All infos x hs hit.0 hit.1 o.0, Ordered-Ranked infos hs hit.1 o.1)

  hit_facts :
      (infos : List ToolInfo) (hs : List Scored)
      → All (IsHit infos) hs
      → All (λ i. In i infos × (0 < score_of lower tokens i)) (map (λ h. h.info) hs)
  hit_facts infos [] hit = tt
  hit_facts infos (x ∷ hs) hit =
      ((hit.0.listed, omega (arith, hit.0.own_score, hit.0.matched)), hit_facts infos hs hit.1)

  RanksOver-each :
      (infos : List ToolInfo) (i : ToolInfo) (ys : List Scored)
      → All (IsHit infos) ys
      → All (λ y. Keeps y (scored i)) ys
      → All (λ j. RanksOver j i) (map (λ h. h.info) ys)
  unfolding before
  RanksOver-each infos i [] hys k = tt
  RanksOver-each infos i (y ∷ ys) hys k =
      (ground (arith, k.0, hys.0.own_score), RanksOver-each infos i ys hys.1 k.1)

  module _ (infos : List ToolInfo) (limit : ℕ) where
    abbrev sorted : List Scored
    sorted = sort_stable (hits lower tokens infos)

    abbrev results : List ToolInfo
    results = map (λ h. h.info) (take limit sorted)

    kept-IsHit : All (IsHit infos) (take limit sorted)
    kept-IsHit =
        All-take (IsHit infos) limit sorted
          (All-sort_stable (IsHit infos) (hits lower tokens infos) (hits-IsHit infos))

    length-results : length results ≤ limit
    length-results = omega (
      arith,
      length-map (λ (h : Scored). h.info) (take limit sorted),
      length-take {0} limit sorted,
    )

    results-Ranked : Ranked results
    results-Ranked =
        Ordered-Ranked infos (take limit sorted) kept-IsHit
          (Ordered-take limit sorted (sort_stable-Ordered (hits lower tokens infos)))

    results_facts : All (λ i. In i infos × (0 < score_of lower tokens i)) results
    results_facts = hit_facts infos (take limit sorted) kept-IsHit

    left_out :
        (i : ToolInfo)
        → In (scored i) (drop limit sorted)
        → (length results ≡ limit) × All (λ j. RanksOver j i) results
    left_out i h = (
      length-map (λ (h : Scored). h.info) (take limit sorted)
          ∙ length-take_full limit sorted (scored i) h,
      RanksOver-each infos i (take limit sorted) kept-IsHit
          (Ordered-drop limit sorted (scored i) (sort_stable-Ordered (hits lower tokens infos)) h),
    )

    complete :
        (i : ToolInfo)
        → In i infos
        → 0 < score_of lower tokens i
        → In i results ⊎ ((length results ≡ limit) × All (λ j. RanksOver j i) results)
    complete i listed pos =
        elim (In-append_cases (scored i) (take limit sorted) (drop limit sorted) (
          subst (In (scored i)) (sym (take-append-drop limit sorted))
            (In-sort_stable (scored i) (hits lower tokens infos) (In-hits i infos listed pos)))) [
              | inl kept ↦ inl (In-map (λ h. h.info) (scored i) (take limit sorted) kept)
              | inr dropped ↦ inr (left_out i dropped)
            ]

search-eq :
    (lower : ℕ → ℕ) (catalog : Text → Option (List Tool)) (ns : Namespace) (query server : Text)
    (limit : ℕ)
    → is_nil (fields (map lower query)) ≡ false
    → search lower catalog ns query server limit
      ≡ results lower (fields (map lower query)) (tool_infos catalog ns server) limit
unfolding search
search-eq lower catalog ns query server limit some_word = rw some_word

-- With at least one word in the query, the results are at most `limit` tools of the catalog, each
-- with a score above 0, and in the order of their scores, then of their names.
pub search-Ranked :
    (lower : ℕ → ℕ) (catalog : Text → Option (List Tool)) (ns : Namespace) (query server : Text)
    (limit : ℕ)
    → is_nil (fields (map lower query)) ≡ false
    → (length (search lower catalog ns query server limit) ≤ limit)
      × Ranked lower (fields (map lower query)) (search lower catalog ns query server limit)
      × All
          (λ i.
            In i (tool_infos catalog ns server) × (0 < score_of lower (fields (map lower query)) i))
          (search lower catalog ns query server limit)
search-Ranked lower catalog ns query server limit some_word =
    let tokens = fields (map lower query) in
    let infos = tool_infos catalog ns server in
    rw (search-eq lower catalog ns query server limit some_word) (
      length-results lower tokens infos limit,
      results-Ranked lower tokens infos limit,
      results_facts lower tokens infos limit,
    )

-- With at least one word in the query, a tool of the catalog with a score above 0 is among the
-- results, unless there are already `limit` of them and it may not stand above any of these.
pub search_complete :
    (lower : ℕ → ℕ) (catalog : Text → Option (List Tool)) (ns : Namespace) (query server : Text)
    (limit : ℕ) (i : ToolInfo)
    → is_nil (fields (map lower query)) ≡ false
    → In i (tool_infos catalog ns server)
    → 0 < score_of lower (fields (map lower query)) i
    → In i (search lower catalog ns query server limit)
      ⊎ ((length (search lower catalog ns query server limit) ≡ limit)
          × All
              (λ j. RanksOver lower (fields (map lower query)) j i)
              (search lower catalog ns query server limit))
search_complete lower catalog ns query server limit i some_word listed pos =
    rw (search-eq lower catalog ns query server limit some_word)
      (complete lower (fields (map lower query)) (tool_infos catalog ns server) limit i listed pos)
