-- ===== src/Domain/Baseline/Tests.antt =====
-- A baseline of one finding, and an old record of it.
use mathlib.Core.List.Memᴰ
use shingan.Prelude.{
  String, ◌≡◌, ◌≢◌, sym, subst, ◌↔◌, true, some, [], ◌∷◌, map, Memᴰ, arith, eq_iff,
}
use shingan.Domain.Finding.{Finding, Message, empty_finding, critical, lit}
use shingan.Domain.Baseline.{in_baseline, new_baseline_from_findings, migrate}
use shingan.Domain.Baseline.Laws.{
  IsKnownAs, StandsFor, old_record, in_baseline-new_baseline, in_baseline-migrate,
}

-- The first literal part of a message stands for its digest.
abbrev sample_digest : Message → String
sample_digest (lit s ∷ _) = s
sample_digest _ = ""

abbrev sample_finding : Finding
sample_finding = record empty_finding {
  rule_name = "loop_guard";
  node_id = "l";
  message = lit "no bound" ∷ [];
}

in_baseline-new_baseline_example :
    (in_baseline sample_digest
        (some (new_baseline_from_findings sample_digest 0 (sample_finding ∷ [])))
        (record sample_finding { severity = critical })
      ≡ true)
    ↔ ((known : Finding) × Memᴰ known (sample_finding ∷ [])
        × IsKnownAs sample_digest known (record sample_finding { severity = critical }))
in_baseline-new_baseline_example =
    in_baseline-new_baseline sample_digest 0 (sample_finding ∷ [])
      (record sample_finding { severity = critical })

sample_full :
    (known : Finding) → Memᴰ known (sample_finding ∷ []) → sample_digest known.message ≢ ""
sample_full known m =
    subst (λ (x : Finding). sample_digest x.message ≢ "") (sym (Memᴰ.eq_of_singleton m))
      (ground (arith, eq_iff "no bound" ""))

in_baseline-migrate_example :
    (in_baseline sample_digest
        (some (record {
          version = 1;
          generated_at = 0;
          findings =
              map
                (λ (known : Finding). migrate (λ s. s) (old_record sample_digest (λ s. s) known))
                (sample_finding ∷ []);
        }))
        sample_finding
      ≡ true)
    ↔ ((known : Finding) × Memᴰ known (sample_finding ∷ [])
        × (known.rule_name ≡ "loop_guard")
        × (known.node_id ≡ "l")
        × (known.source_file ≡ "")
        × StandsFor sample_digest sample_finding (sample_digest known.message))
in_baseline-migrate_example =
    in_baseline-migrate sample_digest (λ s. s) 1 0 (sample_finding ∷ []) sample_finding sample_full
