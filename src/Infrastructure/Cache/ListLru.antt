-- ===== src/Infrastructure/Cache/ListLru.antt =====
-- A small LRU over a list, the most recent entry first: it shows that what the cache asks of simplelru
-- can be had.
use shingan.Prelude.{
  ℕ, zero, suc, ◌≤◌, Bool, true, ◌≡◌, ◌≢◌, refl, sym, ap, ◌∙◌, subst, ◌⊎◌, inl, inr, ◌↔◌, Option,
  none, some, List, [], ◌∷◌, length, arith, if◌then◌else◌, Bool-cases, some_inj,
}
use shingan.Infrastructure.Cache.{Lru}

module _ {K V : Type 0} (same : K → K → Bool)
    (same_iff : (j k : K) → (same j k ≡ true) ↔ (j ≡ k)) where
  unfoldable find : K → List (K × V) → Option V
  find k [] = none
  find k ((j, v) ∷ es) = if same j k then some v else find k es

  find-nil : (k : K) → find k [] ≡ none
  unfolding find
  find-nil k = refl

  unfoldable drop_key : K → List (K × V) → List (K × V)
  drop_key k [] = []
  drop_key k ((j, v) ∷ es) = let rest = drop_key k es in if same j k then rest else (j, v) ∷ rest

  unfoldable take : ℕ → List (K × V) → List (K × V)
  take zero es = []
  take (suc n) [] = []
  take (suc n) (e ∷ es) = e ∷ take n es

  find-take :
      (j : K) (w : V) (n : ℕ) (es : List (K × V)) → find j (take n es) ≡ some w → find j es ≡ some w
  unfolding find take
  find-take j w zero es h = cc h
  find-take j w (suc n) [] h = h
  find-take j w (suc n) ((k, v) ∷ es) h = ground (arith, h, find-take j w n es)

  find-drop_same : (k : K) (es : List (K × V)) → find k (drop_key k es) ≡ none
  unfolding find drop_key
  find-drop_same k [] = refl
  find-drop_same k ((j, v) ∷ es) = ground (arith, find-drop_same k es)

  find-drop_other : (j k : K) (es : List (K × V)) → j ≢ k → find j (drop_key k es) ≡ find j es
  unfolding find drop_key
  find-drop_other j k [] other = refl
  find-drop_other j k ((i, v) ∷ es) other =
      ground (arith, find-drop_other j k es other, same_iff i j, same_iff i k)

  -- An entry that is found stays found when it is moved to the front.
  abbrev touch : K → List (K × V) → Option V → Option V × List (K × V)
  touch k es none = (none, es)
  touch k es (some v) = (some v, (k, v) ∷ drop_key k es)

  touch-answer : (k : K) (es : List (K × V)) (o : Option V) → (touch k es o).0 ≡ o
  touch-answer k es none = refl
  touch-answer k es (some v) = refl

  find-front :
      (j k : K) (v : V) (es : List (K × V))
      → (j ≡ k) × (find j ((k, v) ∷ drop_key k es) ≡ some v)
        ⊎ (j ≢ k) × (find j ((k, v) ∷ drop_key k es) ≡ find j es)
  unfolding find
  find-front j k v es = elim (Bool-cases (same k j)) [
    | inl t ↦ inl (sym ((same_iff k j).0 t), rw t refl)
    | inr f ↦
        let other : j ≢ k = λ e. cc ((same_iff k j).1 (sym e), f) in
        inr (other, rw f (find-drop_other j k es other))
  ]

  find-touch :
      (j k : K) (es : List (K × V)) (o : Option V)
      → find k es ≡ o
      → find j (touch k es o).1 ≡ find j es
  find-touch j k es none h = refl
  find-touch j k es (some v) h = elim (find-front j k v es) [
    | inl (e, front) ↦ front ∙ sym h ∙ ap (λ i. find i es) (sym e)
    | inr (n, rest) ↦ rest
  ]

  find-drop_key :
      (j k : K) (w : V) (es : List (K × V)) → find j (drop_key k es) ≡ some w → find j es ≡ some w
  find-drop_key j k w es h = elim (Bool-cases (same j k)) [
    | inl t ↦
        cc
          (subst (λ i. find i (drop_key k es) ≡ some w) ((same_iff j k).0 t) h, find-drop_same k es)
    | inr f ↦ sym (find-drop_other j k es (λ e. cc ((same_iff j k).1 e, f))) ∙ h
  ]

  -- What Add leaves in front: the entry, unless there is no room for one.
  find-added :
      (j k : K) (v w : V) (n : ℕ) (es : List (K × V))
      → find j (take n ((k, v) ∷ drop_key k es)) ≡ some w
      → (j ≡ k) × (w ≡ v) ⊎ (j ≢ k) × (find j es ≡ some w)
  find-added j k v w n es h =
      let there = find-take j w n ((k, v) ∷ drop_key k es) h in
      elim (find-front j k v es) [
        | inl (e, front) ↦ inl (e, some_inj (sym there ∙ front))
        | inr (other, rest) ↦ inr (other, sym rest ∙ there)
      ]

  find-first :
      (k : K) (v : V) (n : ℕ) (es : List (K × V)) → 1 ≤ n → find k (take n ((k, v) ∷ es)) ≡ some v
  unfolding find take
  find-first k v zero es h = absurd (omega (arith, h))
  find-first k v (suc n) es h = rw ((same_iff k k).1 refl) refl

  pub list_lru : Lru K V
  list_lru = record {
    State = ℕ × List (K × V);
    new = λ n. (n, []);
    get = λ k s. let moved = touch k s.1 (find k s.1) in (moved.0, (s.0, moved.1));
    add = λ k v s. (s.0, take s.0 ((k, v) ∷ drop_key k s.1));
    remove = λ k s. (s.0, drop_key k s.1);
    len = λ s. length s.1;
    capacity = λ s. s.0;
    get-new = λ k n. touch-answer k [] (find k []) ∙ find-nil k;
    get-get = λ j k s.
        let moved = (touch k s.1 (find k s.1)).1 in
        touch-answer j moved (find j moved)
        ∙ find-touch j k s.1 (find k s.1) refl
        ∙ sym (touch-answer j s.1 (find j s.1));
    get-add = λ k v s h.
        let es = take s.0 ((k, v) ∷ drop_key k s.1) in
        touch-answer k es (find k es) ∙ find-first k v s.0 (drop_key k s.1) h;
    get-add_other = λ j k v w s other h.
        let es = take s.0 ((k, v) ∷ drop_key k s.1) in
        touch-answer j s.1 (find j s.1)
        ∙ elim (find-added j k v w s.0 s.1 (sym (touch-answer j es (find j es)) ∙ h)) [
          | inl (e, _) ↦ absurd (other e)
          | inr (_, found) ↦ found
        ];
    get-add_same = λ k v w s h.
        let es = take s.0 ((k, v) ∷ drop_key k s.1) in
        elim (find-added k k v w s.0 s.1 (sym (touch-answer k es (find k es)) ∙ h)) [
          | inl (_, e) ↦ e
          | inr (other, _) ↦ absurd (other refl)
        ];
    get-remove = λ j k w s h.
        let es = drop_key k s.1 in
        touch-answer j s.1 (find j s.1)
        ∙ find-drop_key j k w s.1 (sym (touch-answer j es (find j es)) ∙ h);
    capacity-new = λ n. refl;
    capacity-get = λ k s. refl;
    capacity-add = λ k v s. refl;
    capacity-remove = λ k s. refl;
  }
