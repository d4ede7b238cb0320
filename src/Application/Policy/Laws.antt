-- ===== src/Application/Policy/Laws.antt =====
-- How a policy resolves the settings of a rule, and what applying it twice does.
use mathlib.Core.List.Memᴰ
use shingan.Prelude.{
  String, Bool, true, false, ◌==◌, ◌≡◌, refl, ap, subst, ◌∙◌, Memᴰ, Option, none, some,
  Option-cases, inl, inr, List, [], ◌∷◌, lookup, is_empty, ◌&&◌, arith, if◌then◌else◌, Bool-cases,
}
use shingan.Domain.Finding.{Finding, Severity}
use shingan.Application.Policy.{
  RuleConfig, OverridePolicy, Policy, no_config, no_overrides, override_with, parse_severity,
  path_matches_any, merge_overrides, merge_rule_config, apply_config, apply_rules, apply_policy,
}

-- The last element with a setting decides, and the given one if there is none.
unfoldable pub last_set {ℓ} :
    {A : Type ℓ} → (RuleConfig → Option A) → List RuleConfig → Option A → Option A
last_set setting [] default = default
last_set setting (rc ∷ rcs) default = elim (last_set setting rcs none) [
  | some v ↦ some v
  | none ↦ elim (setting rc) [ some v ↦ some v | none ↦ default ]
]

abbrev pub named_severity : RuleConfig → Option String
named_severity rc = if rc.severity == "" then none else some rc.severity

module _ (glob : String → String → Bool) where
  -- The entries for the finding's rule in the overrides whose paths match its file, in order.
  unfoldable pub matching : List OverridePolicy → Finding → List RuleConfig
  matching [] f = []
  matching (o ∷ os) f =
      let rest = matching os f in
      if path_matches_any glob f.source_file o.paths
      then elim (lookup f.rule_name o.rules) [ some rc ↦ rc ∷ rest | none ↦ rest ]
      else rest

  last_set-default {ℓ} :
      {A : Type ℓ} (setting : RuleConfig → Option A) (rcs : List RuleConfig) (d : Option A)
      → last_set setting rcs d ≡ elim (last_set setting rcs none) [ some v ↦ some v | none ↦ d ]
  unfolding last_set
  last_set-default setting [] d = refl
  last_set-default setting (rc ∷ rcs) d = ground arith

  module _ (os : List OverridePolicy) (f : Finding) where
    -- What one more override adds, given whether its paths match and its entry for the rule.
    abbrev with_one : Bool → Option RuleConfig → List RuleConfig
    with_one m l =
        if m then elim l [ some rc ↦ rc ∷ matching os f | none ↦ matching os f ] else matching os f

    enabled_step :
        ((c : RuleConfig)
          → (merge_overrides glob os f c).enabled
            ≡ last_set (λ rc. rc.enabled) (matching os f) c.enabled)
        → (m : Bool) (l : Option RuleConfig) (c : RuleConfig)
        → (merge_overrides glob os f (if m then override_with l c else c)).enabled
          ≡ last_set (λ rc. rc.enabled) (with_one m l) c.enabled
    unfolding last_set
    enabled_step ih false l c = ih c
    enabled_step ih true none c = ih c
    enabled_step ih true (some rc) c =
        ih (override_with (some rc) c)
        ∙ last_set-default (λ r. r.enabled) (matching os f) (override_with (some rc) c).enabled

    severity_step :
        ((c : RuleConfig)
          → named_severity (merge_overrides glob os f c)
            ≡ last_set named_severity (matching os f) (named_severity c))
        → (m : Bool) (l : Option RuleConfig) (c : RuleConfig)
        → named_severity (merge_overrides glob os f (if m then override_with l c else c))
          ≡ last_set named_severity (with_one m l) (named_severity c)
    unfolding last_set
    severity_step ih false l c = ih c
    severity_step ih true none c = ih c
    severity_step ih true (some rc) c =
        ih (override_with (some rc) c)
        ∙ last_set-default named_severity (matching os f)
            (named_severity (override_with (some rc) c))
        ∙ ground arith

  merge_overrides-enabled :
      (os : List OverridePolicy) (f : Finding) (c : RuleConfig)
      → (merge_overrides glob os f c).enabled
        ≡ last_set (λ rc. rc.enabled) (matching os f) c.enabled
  unfolding merge_overrides matching last_set
  merge_overrides-enabled [] f c = refl
  merge_overrides-enabled (o ∷ os) f c =
      enabled_step os f (merge_overrides-enabled os f) (path_matches_any glob f.source_file o.paths)
        (lookup f.rule_name o.rules) c

  merge_overrides-severity :
      (os : List OverridePolicy) (f : Finding) (c : RuleConfig)
      → named_severity (merge_overrides glob os f c)
        ≡ last_set named_severity (matching os f) (named_severity c)
  unfolding merge_overrides matching last_set
  merge_overrides-severity [] f c = refl
  merge_overrides-severity (o ∷ os) f c =
      severity_step os f (merge_overrides-severity os f)
        (path_matches_any glob f.source_file o.paths) (lookup f.rule_name o.rules) c

  -- The last override whose paths match the finding's file and that sets the switch, or a severity
  -- that is not empty, for its rule decides that setting; without one the rule's own entry does.
  pub merge-last_override :
      (p : Policy) (f : Finding) (own : RuleConfig)
      → lookup f.rule_name p.rules ≡ some own
      → ((merge_rule_config glob p f).enabled
          ≡ last_set (λ rc. rc.enabled) (matching p.overrides f) own.enabled)
        × (named_severity (merge_rule_config glob p f)
            ≡ last_set named_severity (matching p.overrides f) (named_severity own))
  unfolding merge_rule_config
  merge-last_override p f own e =
      rw e (merge_overrides-enabled p.overrides f own, merge_overrides-severity p.overrides f own)

  merge_overrides-restated :
      (os : List OverridePolicy) (f : Finding) (s : Severity) (merged : RuleConfig)
      → merge_overrides glob os (record f { severity = s }) merged
        ≡ merge_overrides glob os f merged
  unfolding merge_overrides
  merge_overrides-restated [] f s merged = refl
  merge_overrides-restated (o ∷ os) f s merged = merge_overrides-restated os f s _

-- What a severity setting makes of a finding.
abbrev restated : Option Severity → Bool → Finding → Option Finding
restated o off f = elim o [
  | some sev ↦ some (record f { severity = sev })
  | none ↦ if off then none else some f
]

restated-again :
    (o : Option Severity) (off : Bool) (f f' : Finding)
    → restated o off f ≡ some f'
    → (s : Severity) × (f' ≡ record f { severity = s })
      × (restated o off (record f { severity = s }) ≡ some (record f { severity = s }))
restated-again (some v) off f f' h = (v, cc, refl)
restated-again none true f f' h = cc
restated-again none false f f' h = (f.severity, cc, refl)

-- A finding that a config lets through passes it again, unchanged.
apply_config-again :
    (e : Option Bool) (sev : String) (f f' : Finding)
    → apply_config e sev f ≡ some f'
    → (s : Severity) × (f' ≡ record f { severity = s })
      × (apply_config e sev (record f { severity = s }) ≡ some (record f { severity = s }))
unfolding apply_config
apply_config-again (some false) sev f f' h = cc
apply_config-again (some true) sev f f' h =
    restated-again (parse_severity sev) (sev == "off") f f' h
apply_config-again none sev f f' h = restated-again (parse_severity sev) (sev == "off") f f' h

module _ (glob : String → String → Bool) (p : Policy) where
  apply_one-again :
      (f f' : Finding) (rest : List Finding)
      → apply_config (merge_rule_config glob p f).enabled (merge_rule_config glob p f).severity f
        ≡ some f'
      → apply_rules glob p (f' ∷ rest) ≡ f' ∷ apply_rules glob p rest
  unfolding apply_rules merge_rule_config
  apply_one-again f f' rest h =
      let own : RuleConfig = elim (lookup f.rule_name p.rules) [
        | some rc ↦ rc
        | none ↦ no_config
      ] in
      let c = merge_overrides glob p.overrides f own in
      let (s, e, again) = apply_config-again c.enabled c.severity f f' h in
      let same = merge_overrides-restated glob p.overrides f s own in
      rw (e, apply_rules, same, again) refl

  apply_rules-again :
      (fs : List Finding) → apply_rules glob p (apply_rules glob p fs) ≡ apply_rules glob p fs
  unfolding apply_rules
  apply_rules-again [] = refl
  apply_rules-again (f ∷ fs) =
      let c = merge_rule_config glob p f in
      elim (Option-cases (apply_config c.enabled c.severity f)) [
        | inl e ↦ rw (e, apply_rules) (apply_rules-again fs)
        | inr (f', e) ↦
            rw (e, apply_rules)
              (apply_one-again f f' (apply_rules glob p fs) e
                ∙ ap (λ r. f' ∷ r) (apply_rules-again fs))
      ]

  -- Applying a policy to findings that it was applied to changes nothing.
  pub apply_policy-again :
      (fs : List Finding)
      → apply_policy glob (apply_policy glob fs (some p)) (some p) ≡ apply_policy glob fs (some p)
  unfolding apply_policy
  apply_policy-again fs = elim (Bool-cases (is_empty p.rules)) [
    | inl t ↦ elim (Bool-cases (no_overrides p.overrides)) [
      | inl u ↦ rw (t, u) refl
      | inr u ↦ rw (t, u) (apply_rules-again fs)
    ]
    | inr t ↦ rw t (apply_rules-again fs)
  ]

mem_of_apply_rules :
    (glob : String → String → Bool) (p : Policy) (fs : List Finding) (f : Finding)
    → Memᴰ f (apply_rules glob p fs)
    → (given : Finding) × (s : Severity) × Memᴰ given fs × (f ≡ record given { severity = s })
unfolding apply_rules
mem_of_apply_rules glob p [] f m = absurd (Memᴰ.not-nil m)
mem_of_apply_rules glob p (x ∷ fs) f m =
    let c = merge_rule_config glob p x in
    let later : Memᴰ f (apply_rules glob p fs)
        → (given : Finding) × (s : Severity) × Memᴰ given (x ∷ fs)
          × (f ≡ record given { severity = s }) =
      λ r.
        let (given, s, at, e) = mem_of_apply_rules glob p fs f r in (given, s, Memᴰ.tail at, e) in
    elim (Option-cases (apply_config c.enabled c.severity x)) [
      | inl e ↦ later (subst (Memᴰ f) (rw (e, apply_rules) refl) m)
      | inr (y, e) ↦
          let (s, same, _) = apply_config-again c.enabled c.severity x y e in
          elim (Memᴰ.cases_cons (subst (Memᴰ f) (rw (e, apply_rules) refl) m)) [
            | inl h ↦ (x, s, Memᴰ.head refl, h ∙ same)
            | inr r ↦ later r
          ]
    ]

-- What a policy lets through is a finding that it was given, at most with another severity.
pub mem_of_apply_policy :
    (glob : String → String → Bool) (policy : Option Policy) (fs : List Finding) (f : Finding)
    → Memᴰ f (apply_policy glob fs policy)
    → (given : Finding) × (s : Severity) × Memᴰ given fs × (f ≡ record given { severity = s })
unfolding apply_policy
mem_of_apply_policy glob none fs f m = (f, f.severity, m, refl)
mem_of_apply_policy glob (some p) fs f m =
    elim (Bool-cases (is_empty p.rules && no_overrides p.overrides)) [
      | inl t ↦ (f, f.severity, subst (Memᴰ f) (rw t refl) m, refl)
      | inr n ↦ mem_of_apply_rules glob p fs f (subst (Memᴰ f) (rw n refl) m)
    ]
