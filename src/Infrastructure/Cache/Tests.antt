-- ===== src/Infrastructure/Cache/Tests.antt =====
-- A cache over a list, and each theorem at it.
use shingan.Prelude.{Bool, true, false, ◌≡◌, refl, ◌↔◌, ◌⊎◌, inl, inr, some, List, [], ◌∷◌}
use shingan.Prelude.Int.{pos}
use shingan.Domain.Finding.{Finding, empty_finding}
use shingan.Infrastructure.Cache.{Lru, Key, Entry, make_key, is_expired, effective_size, get, add}
use shingan.Infrastructure.Cache.Laws.{
  LastAdded, IsYoung, last_limit, Call, add_at, after, key_cases, get-LastAdded, get-add,
}
use shingan.Infrastructure.Cache.ListLru.{list_lru}

abbrev holds : {P : Type 0} → P ⊎ (¬ P) → Bool
holds (inl _) = true
holds (inr _) = false

holds_iff : {P : Type 0} (d : P ⊎ (¬ P)) → (holds d ≡ true) ↔ P
holds_iff (inl p) = (λ _. p, λ _. refl)
holds_iff (inr n) = (λ h. cc h, λ p. absurd (n p))

sample_lru : Lru Key Entry
sample_lru = list_lru (λ j k. holds (key_cases j k)) (λ j k. holds_iff (key_cases j k))

abbrev sample_key : Key
sample_key = record { format = "json"; path = ""; hash = "e3b0" }

abbrev sample_findings : List Finding
sample_findings = empty_finding ∷ []

-- Ten seconds between the two calls.
still_young : is_expired (after sample_lru (pos 2) []).ttl 10000000000 0 ≡ false
unfolding is_expired shingan.Infrastructure.Cache.new_analysis_cache
still_young = refl

abbrev added : List Call
added = add_at 0 sample_key sample_findings ∷ []

get-add_example :
    (get sample_lru 10000000000 sample_key
      (add sample_lru 0 sample_key sample_findings (after sample_lru (pos 2) []))).0
    ≡ some sample_findings
get-add_example = get-add sample_lru (pos 2) [] 0 10000000000 sample_key sample_findings still_young

get-LastAdded_example :
    (e : Entry) × LastAdded sample_key added e
    × (sample_findings ≡ e.findings)
    × IsYoung (last_limit added) 10000000000 e.stored_at
get-LastAdded_example =
    get-LastAdded sample_lru (pos 2) added 10000000000 sample_key sample_findings get-add_example
