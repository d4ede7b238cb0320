-- ===== src/Infrastructure/Cache.antt =====
-- infrastructure/cache/sha256_lru.go: findings by file contents, for an hour. The package simplelru and
-- SHA-256 are parameters; the lock makes each call one step, and `now` is what the clock says in it.
pub mod Laws
pub mod ListLru
mod Tests
use shingan.Prelude.{
  ℕ, zero, suc, ◌+◌, ◌*◌, ◌≤◌, String, Bool, ◌≡◌, ◌≢◌, Option, none, some, List, ltb, if◌then◌else◌,
}
use shingan.Prelude.Int.{ℤ, pos, negsuc}
use shingan.Domain.Finding.{Finding}

-- simplelru.LRU: its operations, and what its documentation promises of them. Get marks a key as
-- recently used, Add drops the oldest key beyond the capacity.
pub record Lru (K : Type 0) (V : Type 0) : Type 1 where
  pub State : Type 0
  pub new : ℕ → State
  pub get : K → State → Option V × State
  pub add : K → V → State → State
  pub remove : K → State → State
  pub len : State → ℕ
  pub capacity : State → ℕ
  pub get-new : (k : K) (n : ℕ) → (get k (new n)).0 ≡ none
  pub get-get : (j k : K) (s : State) → (get j (get k s).1).0 ≡ (get j s).0
  pub get-add : (k : K) (v : V) (s : State) → 1 ≤ capacity s → (get k (add k v s)).0 ≡ some v
  pub get-add_other :
      (j k : K) (v w : V) (s : State)
      → j ≢ k
      → (get j (add k v s)).0 ≡ some w
      → (get j s).0 ≡ some w
  pub get-add_same : (k : K) (v w : V) (s : State) → (get k (add k v s)).0 ≡ some w → w ≡ v
  pub get-remove :
      (j k : K) (w : V) (s : State) → (get j (remove k s)).0 ≡ some w → (get j s).0 ≡ some w
  pub capacity-new : (n : ℕ) → capacity (new n) ≡ n
  pub capacity-get : (k : K) (s : State) → capacity (get k s).1 ≡ capacity s
  pub capacity-add : (k : K) (v : V) (s : State) → capacity (add k v s) ≡ capacity s
  pub capacity-remove : (k : K) (s : State) → capacity (remove k s) ≡ capacity s

abbrev pub default_size : ℕ
default_size = 512

-- An hour, in nanoseconds.
abbrev pub default_ttl : ℤ
default_ttl = pos (3600 * 1000000000)

pub record Key : Type 0 where
  pub format : String
  pub path : String
  pub hash : String

unfoldable pub make_key_with_path : (String → String) → String → String → String → Key
make_key_with_path sha256 format path content = record {
  format = format;
  path = path;
  hash = sha256 content;
}

unfoldable pub make_key : (String → String) → String → String → Key
unfolding make_key_with_path
make_key sha256 format content = make_key_with_path sha256 format "" content

pub record Entry : Type 0 where
  pub findings : List Finding
  pub stored_at : ℕ

-- now.Sub(stored) > ttl, on nanoseconds
unfoldable pub is_expired : ℤ → ℕ → ℕ → Bool
is_expired (pos ttl) now stored = ltb (stored + ttl) now
is_expired (negsuc k) now stored = ltb stored (now + suc k)

module _ (L : Lru Key Entry) where
  pub record AnalysisCache : Type 0 where
    pub lru : L.State
    pub ttl : ℤ

  -- `size <= 0` selects the default.
  unfoldable pub effective_size : ℤ → ℕ
  effective_size (pos (suc n)) = suc n
  effective_size _ = default_size

  unfoldable pub new_analysis_cache : ℤ → AnalysisCache
  unfolding effective_size
  new_analysis_cache size = record { lru = L.new (effective_size size); ttl = default_ttl }

  unfoldable pub set_ttl : ℤ → AnalysisCache → AnalysisCache
  set_ttl ttl c = record c { ttl = ttl }

  -- The rest of Get, after the look-up.
  unfoldable pub fresh :
      ℕ → Key → ℤ → Option Entry → L.State → Option (List Finding) × AnalysisCache
  unfolding is_expired
  fresh now key ttl none lru = (none, record { lru = lru; ttl = ttl })
  fresh now key ttl (some e) lru =
      if is_expired ttl now e.stored_at
      then (none, record { lru = L.remove key lru; ttl = ttl })
      else (some e.findings, record { lru = lru; ttl = ttl })

  unfoldable pub get : ℕ → Key → AnalysisCache → Option (List Finding) × AnalysisCache
  unfolding fresh
  get now key c = let (found, after) = L.get key c.lru in fresh now key c.ttl found after

  -- A nil slice is the empty list already.
  unfoldable pub add : ℕ → Key → List Finding → AnalysisCache → AnalysisCache
  add now key findings c = record c {
    lru = L.add key (record { findings = findings; stored_at = now }) c.lru;
  }

  unfoldable pub len : AnalysisCache → ℕ
  len c = L.len c.lru
