-- ===== src/Domain/Baseline/Laws.antt =====
-- Which findings a baseline knows, of this version and of the first.
use mathlib.Core.List.Memᴰ
use shingan.Prelude.{
  ℕ, String, true, eq_iff, false_iff, str_cases, ◌≡◌, ◌≢◌, refl, sym, ◌∙◌, subst, ◌↔◌, ◌⊎◌, inl,
  inr, some, List, map, any, any_of_mem, mem_of_any, Memᴰ, arith,
}
use shingan.Domain.Finding.{Finding, Message}
use shingan.Domain.Baseline.{
  FindingFingerprint, StoredFingerprint, same_fingerprint, message_digest, fingerprint_of,
  in_baseline, new_baseline_from_findings, migrate,
}

same_fingerprint_iff :
    (a b : FindingFingerprint)
    → (same_fingerprint a b ≡ true) ↔ (
        (a.rule_name ≡ b.rule_name)
        × (a.node_id ≡ b.node_id)
        × (a.source_file ≡ b.source_file)
        × (a.message_digest ≡ b.message_digest))
unfolding same_fingerprint
same_fingerprint_iff a b = ground (
  arith,
  eq_iff a.rule_name b.rule_name,
  eq_iff a.node_id b.node_id,
  eq_iff a.source_file b.source_file,
  eq_iff a.message_digest b.message_digest,
)

-- A record is among those made of some findings.
any_record :
    (record_of : Finding → FindingFingerprint) (target : FindingFingerprint) (fs : List Finding)
    → (any (λ fp. same_fingerprint fp target) (map record_of fs) ≡ true)
      ↔ ((known : Finding) × Memᴰ known fs × (same_fingerprint (record_of known) target ≡ true))
any_record record_of target fs = (
  λ h.
      let (fp, at, same) = mem_of_any (λ fp. same_fingerprint fp target) (map record_of fs) h in
      let (known, there, is) = Memᴰ.of_map record_of fs at in
      (known, there, subst (λ x. same_fingerprint x target ≡ true) (sym is) same),
  λ (known, there, same).
      any_of_mem (λ fp. same_fingerprint fp target) (record_of known) (map record_of fs)
        (Memᴰ.map record_of there) same,
)

module _ (digest : Message → String) where
  -- What stands for the message of a finding: the template, or without one the digest.
  abbrev pub StandsFor : Finding → String → Type 0
  StandsFor f d =
      ((f.message_template_id ≢ "") × (d ≡ f.message_template_id))
      ⊎ ((f.message_template_id ≡ "") × (d ≡ digest f.message))

  message_digest-StandsFor :
      (f : Finding) (d : String) → (d ≡ message_digest digest f) ↔ StandsFor f d
  unfolding message_digest
  message_digest-StandsFor f d = elim (str_cases f.message_template_id "") [
    | inl (e, t) ↦
        rw t (λ h. inr (e, h), λ h. elim h [ inl (set, _) ↦ absurd (set e) | inr (_, q) ↦ q ])
    | inr (set, t) ↦
        rw t (λ h. inl (set, h), λ h. elim h [ inl (_, q) ↦ q | inr (e, _) ↦ absurd (set e) ])
  ]

  -- Two findings that a baseline does not tell apart.
  pub record IsKnownAs (known f : Finding) : Type 0 where
    pub rule_name : known.rule_name ≡ f.rule_name
    pub node_id : known.node_id ≡ f.node_id
    pub source_file : known.source_file ≡ f.source_file
    pub text : (d : String) × StandsFor known d × StandsFor f d

  pub known_self : (f : Finding) → IsKnownAs f f
  known_self f =
      let d = (message_digest-StandsFor f (message_digest digest f)).0 refl in
      record { rule_name = refl; node_id = refl; source_file = refl; text = (_, d, d) }

  same_fingerprint-IsKnownAs :
      (known f : Finding)
      → (same_fingerprint (fingerprint_of digest known) (fingerprint_of digest f) ≡ true)
        ↔ IsKnownAs known f
  unfolding fingerprint_of
  same_fingerprint-IsKnownAs known f =
      let same = same_fingerprint_iff (fingerprint_of digest known) (fingerprint_of digest f) in
      (
        λ h.
            let (rule, node, file, text) = same.0 h in
            record {
              rule_name = rule;
              node_id = node;
              source_file = file;
              text = (
                message_digest digest known,
                (message_digest-StandsFor known (message_digest digest known)).0 refl,
                (message_digest-StandsFor f (message_digest digest known)).0 text,
              );
            },
        λ k.
            let (d, of_known, of_f) = k.text in
            same.1 (
              k.rule_name,
              k.node_id,
              k.source_file,
              sym ((message_digest-StandsFor known d).1 of_known)
                  ∙ (message_digest-StandsFor f d).1 of_f,
            ),
      )

  -- The baseline of some findings knows a finding exactly if one of them has its rule, node and file,
  -- and what stands for the message is the same text for both: the identifier of the message template
  -- or, for a finding without one, the digest of the message.
  pub in_baseline-new_baseline :
      (now : ℕ) (fs : List Finding) (f : Finding)
      → (in_baseline digest (some (new_baseline_from_findings digest now fs)) f ≡ true)
        ↔ ((known : Finding) × Memᴰ known fs × IsKnownAs known f)
  unfolding in_baseline new_baseline_from_findings
  in_baseline-new_baseline now fs f =
      let all = any_record (fingerprint_of digest) (fingerprint_of digest f) fs in
      (
        λ h.
            let (known, at, same) = all.0 h in
            (known, at, (same_fingerprint-IsKnownAs known f).0 same),
        λ (known, at, k). all.1 (known, at, (same_fingerprint-IsKnownAs known f).1 k),
      )

module _ (render : Message → String) (digest_from_text : String → String) where
  -- The record of a finding in a baseline of the first version: its message in full, and no digest.
  abbrev pub old_record : Finding → StoredFingerprint
  old_record f = record {
    fingerprint = record {
      rule_name = f.rule_name;
      node_id = f.node_id;
      source_file = f.source_file;
      message_digest = "";
    };
    legacy_message = render f.message;
  }

  migrated : Finding → FindingFingerprint
  migrated f = migrate digest_from_text (old_record f)

  migrated_eq :
      (f : Finding)
      → render f.message ≢ ""
      → migrated f
        ≡ record (old_record f).fingerprint { message_digest = digest_from_text (render f.message) }
  unfolding migrated migrate
  migrated_eq f set = rw ((false_iff _ (eq_iff (render f.message) "")).1 set) refl

  -- A baseline of the first version, which keeps the message of each finding in full, knows once it is
  -- read a finding exactly if one of its own has the rule, node and file of that finding and the digest
  -- of its message is what stands for the message of that finding; no message of the baseline is empty.
  pub in_baseline-migrate :
      (version now : ℕ) (fs : List Finding) (f : Finding)
      → ((known : Finding) → Memᴰ known fs → render known.message ≢ "")
      → (in_baseline
            (λ m. digest_from_text (render m))
            (some (record {
              version = version;
              generated_at = now;
              findings = map (λ (known : Finding). migrate digest_from_text (old_record known)) fs;
            }))
            f
          ≡ true)
        ↔ ((known : Finding) × Memᴰ known fs
            × (known.rule_name ≡ f.rule_name)
            × (known.node_id ≡ f.node_id)
            × (known.source_file ≡ f.source_file)
            × StandsFor
                (λ m. digest_from_text (render m))
                f
                (digest_from_text (render known.message)))
  unfolding in_baseline fingerprint_of migrated
  in_baseline-migrate version now fs f full =
      let digest = λ (m : Message). digest_from_text (render m) in
      let target = fingerprint_of digest f in
      let all = any_record migrated target fs in
      let same = λ (known : Finding).
        same_fingerprint_iff
          (record (old_record known).fingerprint {
            message_digest = digest_from_text (render known.message);
          })
          target in
      let stands = λ (known : Finding).
        message_digest-StandsFor digest f (digest_from_text (render known.message)) in
      (
        λ h.
            let (known, at, e) = all.0 h in
            let (rule, node, file, text) = (same known).0 (
              subst (λ x. same_fingerprint x target ≡ true) (migrated_eq known (full known at))
                e) in
            (known, at, rule, node, file, (stands known).0 text),
        λ (known, at, rule, node, file, text). all.1 (
          known,
          at,
          subst (λ x. same_fingerprint x target ≡ true) (sym (migrated_eq known (full known at)))
              ((same known).1 (rule, node, file, (stands known).1 text)),
        ),
      )
