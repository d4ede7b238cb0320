-- ===== src/Infrastructure/Cache/Laws.antt =====
-- What the cache answers after any sequence of calls.
use shingan.Prelude.{
  ℕ, zero, suc, ◌+◌, ◌≤◌, false, ◌≡◌, ◌≢◌, refl, sym, ap, ◌∙◌, subst, ◌↔◌, ◌⊎◌, inl, inr, Option,
  none, some, List, [], ◌∷◌, arith, Bool-cases, str_cases,
}
use shingan.Prelude.Int.{ℤ, pos, negsuc}
use shingan.Domain.Finding.{Finding}
use shingan.Infrastructure.Cache.{
  Lru, Key, Entry, is_expired, AnalysisCache, effective_size, new_analysis_cache, set_ttl, fresh,
  get, add,
}

-- The calls, with what the clock says in them.
pub data Call : Type 0 where
  get_at : ℕ → Key → Call
  add_at : ℕ → Key → List Finding → Call
  ttl_to : ℤ → Call

-- The entry that the last Add for a key made; the last call stands first.
abbrev pub LastAdded : Key → List Call → Entry → Type 0
LastAdded k [] e = ⊥
LastAdded k (add_at now j fs ∷ before) e =
    ((k ≡ j) × (e ≡ record { findings = fs; stored_at = now })) ⊎ ((k ≢ j) × LastAdded k before e)
LastAdded k (get_at _ _ ∷ before) e = LastAdded k before e
LastAdded k (ttl_to _ ∷ before) e = LastAdded k before e

-- The limit that was set last, or an hour; in nanoseconds.
abbrev pub last_limit : List Call → ℤ
last_limit [] = pos 3600000000000
last_limit (ttl_to ttl ∷ before) = ttl
last_limit (get_at _ _ ∷ before) = last_limit before
last_limit (add_at _ _ _ ∷ before) = last_limit before

-- What was stored at a time is, at another, not older than the limit.
abbrev pub IsYoung : ℤ → ℕ → ℕ → Type 0
IsYoung (pos limit) now stored = now ≤ stored + limit
IsYoung (negsuc k) now stored = now + suc k ≤ stored

pub is_expired-IsYoung :
    (limit : ℤ) (now stored : ℕ) → (is_expired limit now stored ≡ false) ↔ IsYoung limit now stored
unfolding is_expired
is_expired-IsYoung (pos n) now stored = ground arith
is_expired-IsYoung (negsuc k) now stored = ground arith

pub key_cases : (a b : Key) → (a ≡ b) ⊎ (a ≢ b)
key_cases a b = elim (str_cases a.format b.format) [
  | inr (n, _) ↦ inr (λ e. n (ap (λ (k : Key). k.format) e))
  | inl (f, _) ↦ elim (str_cases a.path b.path) [
    | inr (n, _) ↦ inr (λ e. n (ap (λ (k : Key). k.path) e))
    | inl (p, _) ↦ elim (str_cases a.hash b.hash) [
      | inr (n, _) ↦ inr (λ e. n (ap (λ (k : Key). k.hash) e))
      | inl (h, _) ↦ inl (λ i. record { format = f i; path = p i; hash = h i })
    ]
  ]
]

module _ (L : Lru Key Entry) where
  abbrev pub call : Call → AnalysisCache L → AnalysisCache L
  call (get_at now key) c = (get L now key c).1
  call (add_at now key fs) c = add L now key fs c
  call (ttl_to ttl) c = set_ttl L ttl c

  -- The cache after calls on a new one.
  abbrev pub after : ℤ → List Call → AnalysisCache L
  after size [] = new_analysis_cache L size
  after size (op ∷ before) = call op (after size before)

  fresh_ttl :
      (now : ℕ) (key : Key) (ttl : ℤ) (found : Option Entry) (s : L.State)
      → (fresh L now key ttl found s).1.ttl ≡ ttl
  unfolding fresh
  fresh_ttl now key ttl none s = refl
  fresh_ttl now key ttl (some e) s = elim (Bool-cases (is_expired ttl now e.stored_at)) [
    | inl t ↦ rw t refl
    | inr f ↦ rw f refl
  ]

  -- Only SetTTL changes the limit.
  after_ttl : (size : ℤ) (calls : List Call) → (after size calls).ttl ≡ last_limit calls
  unfolding new_analysis_cache get add set_ttl
  after_ttl size [] = refl
  after_ttl size (get_at now key ∷ before) =
      let c = after size before in
      fresh_ttl now key c.ttl (L.get key c.lru).0 (L.get key c.lru).1 ∙ after_ttl size before
  after_ttl size (add_at now key fs ∷ before) = after_ttl size before
  after_ttl size (ttl_to ttl ∷ before) = refl

  pub record IsCache (size : ℤ) (calls : List Call) (c : AnalysisCache L) : Type 0 where
    pub faithful : (k : Key) (e : Entry) → (L.get k c.lru).0 ≡ some e → LastAdded k calls e
    pub sized : L.capacity c.lru ≡ effective_size L size

  new-IsCache : (size : ℤ) → IsCache size [] (new_analysis_cache L size)
  unfolding new_analysis_cache
  new-IsCache size = record {
    faithful = λ k e h. cc (L.get-new k (effective_size L size), h);
    sized = L.capacity-new (effective_size L size);
  }

  fresh-IsCache :
      (size : ℤ) (calls : List Call) (now : ℕ) (key : Key) (ttl : ℤ) (found : Option Entry)
      (s : L.State)
      → IsCache size calls (record { lru = s; ttl = ttl })
      → IsCache size calls (fresh L now key ttl found s).1
  unfolding fresh
  fresh-IsCache size calls now key ttl none s inv = inv
  fresh-IsCache size calls now key ttl (some e) s inv =
      elim (Bool-cases (is_expired ttl now e.stored_at)) [
        | inr f ↦ rw f inv
        | inl t ↦ rw t (record {
          faithful = λ k d h. inv.faithful k d (L.get-remove k key d s h);
          sized = L.capacity-remove key s ∙ inv.sized;
        })
      ]

  get-IsCache :
      (size : ℤ) (calls : List Call) (now : ℕ) (key : Key) (c : AnalysisCache L)
      → IsCache size calls c
      → IsCache size calls (get L now key c).1
  unfolding get
  get-IsCache size calls now key c inv =
      let (found, s) = L.get key c.lru in
      fresh-IsCache size calls now key c.ttl (L.get key c.lru).0 (L.get key c.lru).1 (record {
        faithful = λ k e h. inv.faithful k e (sym (L.get-get k key c.lru) ∙ h);
        sized = L.capacity-get key c.lru ∙ inv.sized;
      })

  added-LastAdded :
      (size : ℤ) (calls : List Call) (now : ℕ) (key : Key) (fs : List Finding) (c : AnalysisCache L)
      → IsCache size calls c
      → (k : Key) (e : Entry) → (L.get k (add L now key fs c).lru).0 ≡ some e
      → LastAdded k (add_at now key fs ∷ calls) e
  unfolding add
  added-LastAdded size calls now key fs c inv k e h =
      let entry : Entry = record { findings = fs; stored_at = now } in
      elim (key_cases k key) [
        | inl same ↦ inl (
          same,
          L.get-add_same key entry e c.lru
              (subst (λ (x : Key). (L.get x (L.add key entry c.lru)).0 ≡ some e) same h),
        )
        | inr other ↦ inr (other, inv.faithful k e (L.get-add_other k key entry e c.lru other h))
      ]

  call-IsCache :
      (size : ℤ) (calls : List Call) (op : Call) (c : AnalysisCache L)
      → IsCache size calls c
      → IsCache size (op ∷ calls) (call op c)
  unfolding add set_ttl
  call-IsCache size calls (get_at now key) c inv =
      let next = get-IsCache size calls now key c inv in
      record { faithful = next.faithful; sized = next.sized }
  call-IsCache size calls (add_at now key fs) c inv =
      let entry : Entry = record { findings = fs; stored_at = now } in
      record {
        faithful = added-LastAdded size calls now key fs c inv;
        sized = L.capacity-add key entry c.lru ∙ inv.sized;
      }
  call-IsCache size calls (ttl_to ttl) c inv = record { faithful = inv.faithful; sized = inv.sized }

  after-IsCache : (size : ℤ) (calls : List Call) → IsCache size calls (after size calls)
  after-IsCache size [] = new-IsCache size
  after-IsCache size (op ∷ calls) =
      call-IsCache size calls op (after size calls) (after-IsCache size calls)

  size_positive : (size : ℤ) → 1 ≤ effective_size L size
  unfolding effective_size
  size_positive (pos zero) = omega arith
  size_positive (pos (suc n)) = omega arith
  size_positive (negsuc n) = omega arith

  -- A fresh look-up that finds something.
  fresh-some :
      (now : ℕ) (key : Key) (ttl : ℤ) (found : Option Entry) (s : L.State) (fs : List Finding)
      → (fresh L now key ttl found s).0 ≡ some fs
      → (e : Entry) × (found ≡ some e)
        × (fs ≡ e.findings)
        × (is_expired ttl now e.stored_at ≡ false)
  unfolding fresh
  fresh-some now key ttl none s fs h = cc h
  fresh-some now key ttl (some e) s fs h = elim (Bool-cases (is_expired ttl now e.stored_at)) [
    | inl t ↦ absurd (ground (arith, h, t))
    | inr f ↦ (e, refl, ground (arith, h, f), f)
  ]

-- After any calls on a new cache, Get answers with findings only if the last Add for the key stored
-- them, and not longer ago than the limit that was set last, which is an hour if none was set.
pub get-LastAdded :
    (L : Lru Key Entry) (size : ℤ) (calls : List Call) (now : ℕ) (key : Key) (fs : List Finding)
    → (get L now key (after L size calls)).0 ≡ some fs
    → (e : Entry) × LastAdded key calls e
      × (fs ≡ e.findings)
      × IsYoung (last_limit calls) now e.stored_at
unfolding get
get-LastAdded L size calls now key fs h =
    let c = after L size calls in
    let (e, found, same, young) =
      fresh-some L now key c.ttl (L.get key c.lru).0 (L.get key c.lru).1 fs h in
    (
      e,
      (after-IsCache L size calls).faithful key e found,
      same,
      (is_expired-IsYoung (last_limit calls) now e.stored_at).0 (
          subst (λ limit. is_expired limit now e.stored_at ≡ false) (after_ttl L size calls) young),
    )

-- After any calls on a new cache, what Add stores is what the next Get for the key answers, unless the
-- limit passes between the two.
pub get-add :
    (L : Lru Key Entry) (size : ℤ) (calls : List Call) (stored now : ℕ) (key : Key)
    (fs : List Finding)
    → is_expired (after L size calls).ttl now stored ≡ false
    → (get L now key (add L stored key fs (after L size calls))).0 ≡ some fs
unfolding get add fresh
get-add L size calls stored now key fs young =
    let c = after L size calls in
    let room : 1 ≤ L.capacity c.lru =
      omega (arith, size_positive L size, (after-IsCache L size calls).sized) in
    rw (L.get-add key (record { findings = fs; stored_at = stored }) c.lru room) (rw young refl)
