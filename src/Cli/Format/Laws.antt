-- ===== src/Cli/Format/Laws.antt =====
-- The format of a directory does not depend on the order in which the map of counts is visited.
use mathlib.Core.List.{Permᴰ}
use mathlib.Core.List.Permᴰ
use mathlib.Core.Option
use shingan.Prelude.{
  ℕ, String, Bool, true, false, ◌&&◌, ◌||◌, ◌==◌, ◌≡◌, refl, sym, ◌∙◌, ap, ap₂, inl, inr, List,
  foldl, Dict, IsMap, lookup_same, ltb, nat_eq, arith, Bool-cases, if◌then◌else◌,
}
use shingan.Prelude.Text.{str_ltb, str_ltb-IsOrder}
use shingan.Prelude.Sort.{Memᴰ-perm}
use shingan.Cli.Format.{Best, better, best_of, most_common}

-- One format wins over another.
beats : Best → Best → Bool
beats a b = ltb b.count a.count || (nat_eq a.count b.count && str_ltb a.name b.name)

beats_asym : (a b : Best) → beats a b ≡ true → beats b a ≡ false
unfolding beats
beats_asym a b h = ground (arith, str_ltb-IsOrder.asym a.name b.name)

beats_trans : (a b c : Best) → beats a b ≡ true → beats b c ≡ true → beats a c ≡ true
unfolding beats
beats_trans a b c h k = ground (arith, str_ltb-IsOrder.trans a.name b.name c.name)

beats_connected : (a b : Best) → beats a b ≡ false → beats b a ≡ false → a ≡ b
unfolding beats
beats_connected a b h k = ground (arith, str_ltb-IsOrder.connected a.name b.name)

winner : Best → Best → Best
winner b c = if beats c b then c else b

winner_comm : (b c d : Best) → winner (winner b c) d ≡ winner (winner b d) c
unfolding winner
winner_comm b c d = ground (
  arith,
  beats_asym d c,
  beats_asym c d,
  beats_connected c d,
  beats_trans d c b,
  beats_trans c d b,
)

better-json : (b : Best) (f : String) (n : ℕ) → (f == "json") ≡ true → better b (f, n) ≡ b
unfolding better
better-json b f n h = rw h refl

better-other :
    (b : Best) (f : String) (n : ℕ)
    → (f == "json") ≡ false
    → better b (f, n) ≡ winner b (record { name = f; count = n })
unfolding better winner beats
better-other b f n h = rw h (ground arith)

-- A loop whose steps may be swapped does not depend on the order of a list.
foldl-perm {ℓ κ} :
    {A : Type ℓ} {B : Type κ} (step : B → A → B)
    → ((b : B) (x y : A) → step (step b x) y ≡ step (step b y) x)
    → {xs ys : List A} → Permᴰ xs ys
    → (b : B) → foldl step b xs ≡ foldl step b ys
foldl-perm step swaps Permᴰ.nil b = refl
foldl-perm step swaps (Permᴰ.cons {l₂ = l} e p) b =
    foldl-perm step swaps p (step b _) ∙ ap (λ x. foldl step (step b x) l) e
foldl-perm step swaps (Permᴰ.swap {a = a} {b = c} {l = l} e f) b =
    ap (λ x. foldl step x l) (swaps b a c ∙ ap₂ (λ x y. step (step b x) y) f e)
foldl-perm step swaps (Permᴰ.trans p q) b = foldl-perm step swaps p b ∙ foldl-perm step swaps q b

better_comm : (b : Best) (x y : String × ℕ) → better (better b x) y ≡ better (better b y) x
better_comm b (f, n) (g, m) =
    let c : Best = record { name = f; count = n } in
    let d : Best = record { name = g; count = m } in
    let with_f = λ (a : Best). better a (f, n) in
    let with_g = λ (a : Best). better a (g, m) in
    elim (Bool-cases (f == "json")) [
      | inl j ↦
          let skips = λ (a : Best). better-json a f n j in
          ap with_g (skips b) ∙ sym (skips (with_g b))
      | inr j ↦ elim (Bool-cases (g == "json")) [
        | inl k ↦
            let skips = λ (a : Best). better-json a g m k in
            skips (with_f b) ∙ ap with_f (sym (skips b))
        | inr k ↦
            let f_wins = λ (a : Best). better-other a f n j in
            let g_wins = λ (a : Best). better-other a g m k in
            ap with_g (f_wins b)
            ∙ (g_wins (winner b c)
                ∙ (winner_comm b c d ∙ (sym (f_wins (winner b d)) ∙ ap with_f (sym (g_wins b)))))
      ]
    ]

-- The format that is chosen from the counts of a directory is the same in every order in which the map
-- of the counts may be visited.
pub most_common-perm :
    (counts other : Dict ℕ)
    → IsMap counts
    → IsMap other
    → Permᴰ counts other
    → most_common counts ≡ most_common other
unfolding most_common best_of
most_common-perm counts other map_counts map_other p =
    let start : Best = record { name = ""; count = 0 } in
    let best = ap (λ (b : Best). b.name) (foldl-perm better better_comm p start) in
    let same =
      lookup_same "json" counts other map_counts map_other
        (λ e. (Memᴰ-perm p, Memᴰ-perm (Permᴰ.symm p))) in
    ap₂ (λ (name : String) (n : ℕ). if name == "" then (if ltb 0 n then "json" else "") else name)
      best (ap (λ o. Option.get_or o 0) same)
