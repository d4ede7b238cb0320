-- ===== src/Plugin/Accepted.antt =====
-- Which rules Register's checks let through.
use mathlib.Core.List.Memᴰ
use shingan.Prelude.{
  ℕ, String, true, false, ◌==◌, ◌≡◌, ◌≢◌, refl, ◌↔◌, ◌⊎◌, inl, inr, Option, none, some, List, [],
  ◌∷◌, Memᴰ, any, contains_iff, not_any_iff, false_iff, arith, eq_iff, some_inj, subst,
  if◌then◌else◌, Bool-cases,
}
use shingan.Prelude.Text.{codes}
use shingan.Domain.Context.{AnalysisRule}
use shingan.Application.Ignore.RuleList.{trim, is_space}
use shingan.Application.Policy.Plugins.{cut_prefix}
use shingan.Plugin.{
  Manifest, Build, RegisterError, builtin_collision, valid_frameworks, is_dev, with_v, trim_prefix,
  is_negative, or_error, first_error, check_shingan_version, is_control, check_framework, check_tag,
  check_rune, is_nil, check_manifest, experimental_prefix, valid_name_suffix, check_name,
  check_rule,
}

-- A binary of the version that the plugin asks for, or one that is not asked about it.
abbrev pub RunsOn : Build → String → Type 0
RunsOn b min =
    let binary = with_v (trim_prefix "v" b.version) in
    (min ≡ "")
    ⊎ ((is_dev b.version ≡ true)
        ⊎ ((b.is_valid (with_v min) ≡ true)
            × (b.is_valid binary ≡ true)
            × (is_negative (b.compare binary (with_v min)) ≡ false)))

pub record IsAcceptable (b : Build) (builtins : List AnalysisRule) (rule : AnalysisRule)
    (m : Manifest) : Type 0 where
  pub named :
      (suffix : String) × (cut_prefix experimental_prefix rule.name ≡ some suffix)
      × (valid_name_suffix suffix ≡ true)
  pub some_frameworks : is_nil m.frameworks ≡ false
  pub some_tags : is_nil m.tags ≡ false
  pub known : (fw : String) → Memᴰ fw m.frameworks → Memᴰ fw valid_frameworks
  pub clean_tags :
      (t : String)
      → Memᴰ t m.tags
      → (trim is_space t ≢ "") × ((c : ℕ) → Memᴰ c (codes t) → is_control c ≡ false)
  pub clean_description : (c : ℕ) → Memᴰ c (codes m.description) → is_control c ≡ false
  pub runs : RunsOn b m.min_shingan_version
  pub new_name : (builtin : AnalysisRule) → Memᴰ builtin builtins → builtin.name ≢ rule.name

or_error-none : (a b : Option RegisterError) → (or_error a b ≡ none) ↔ ((a ≡ none) × (b ≡ none))
or_error-none none b = (λ h. (refl, h), λ h. h.1)
or_error-none (some e) b = (λ h. cc h, λ h. cc h.0)

first_error-none :
    {A : Type 0} (check : A → Option RegisterError) (xs : List A)
    → (first_error check xs ≡ none) ↔ ((x : A) → Memᴰ x xs → check x ≡ none)
unfolding first_error
first_error-none check [] = (λ h x m. absurd (Memᴰ.not-nil m), λ h. refl)
first_error-none check (x ∷ xs) =
    let later = first_error-none check xs in
    let both = or_error-none (check x) (first_error check xs) in
    (
      λ h y m. elim (Memᴰ.cases_cons m) [
        | inl same ↦ rw same (both.0 h).0
        | inr there ↦ later.0 (both.0 h).1 y there
      ],
      λ h. both.1 (h x (Memᴰ.head refl), later.1 (λ y m. h y (Memᴰ.tail m))),
    )

check_shingan_version-none :
    (b : Build) (min : String) → (check_shingan_version b min ≡ none) ↔ RunsOn b min
unfolding check_shingan_version
check_shingan_version-none b min = ground (arith, eq_iff min "")

check_framework-none : (fw : String) → (check_framework fw ≡ none) ↔ Memᴰ fw valid_frameworks
unfolding check_framework
check_framework-none fw = ground (arith, contains_iff valid_frameworks fw)

check_tag-none :
    (t : String)
    → (check_tag t ≡ none)
      ↔ ((trim is_space t ≢ "") × ((c : ℕ) → Memᴰ c (codes t) → is_control c ≡ false))
unfolding check_tag
check_tag-none t = ground (arith, eq_iff (trim is_space t) "", not_any_iff is_control (codes t))

check_rune-none : (c : ℕ) → (check_rune c ≡ none) ↔ (is_control c ≡ false)
unfolding check_rune
check_rune-none c = ground arith

check_name-none :
    (o : Option String)
    → (check_name o ≡ none)
      ↔ ((suffix : String) × (o ≡ some suffix) × (valid_name_suffix suffix ≡ true))
unfolding check_name
check_name-none none = (λ h. cc h, λ h. cc h.1)
check_name-none (some s) = elim (Bool-cases (valid_name_suffix s)) [
  | inl t ↦ rw t (λ _. (s, refl, t), λ _. refl)
  | inr f ↦ rw f (
    λ h. cc h,
    λ (x, same, valid). cc (subst (λ y. valid_name_suffix y ≡ false) (some_inj same) f, valid),
  )
]

check_manifest-none :
    (b : Build) (m : Manifest)
    → (check_manifest b m ≡ none) ↔ (
        (is_nil m.frameworks ≡ false)
        × (is_nil m.tags ≡ false)
        × (first_error check_framework m.frameworks ≡ none)
        × (first_error check_tag m.tags ≡ none)
        × (first_error check_rune (codes m.description) ≡ none)
        × RunsOn b m.min_shingan_version)
unfolding check_manifest
check_manifest-none b m = ground (
  arith,
  or_error-none (first_error check_framework m.frameworks) (
      or_error (first_error check_tag m.tags) (
        or_error (first_error check_rune (codes m.description))
          (check_shingan_version b m.min_shingan_version))),
  or_error-none (first_error check_tag m.tags) (
      or_error (first_error check_rune (codes m.description))
        (check_shingan_version b m.min_shingan_version)),
  or_error-none (first_error check_rune (codes m.description))
      (check_shingan_version b m.min_shingan_version),
  check_shingan_version-none b m.min_shingan_version,
)

no_builtin :
    (builtins : List AnalysisRule) (rule : AnalysisRule)
    → (any (λ builtin. builtin.name == rule.name) builtins ≡ false)
      ↔ ((builtin : AnalysisRule) → Memᴰ builtin builtins → builtin.name ≢ rule.name)
no_builtin builtins rule =
    let absent = not_any_iff (λ (x : AnalysisRule). x.name == rule.name) builtins in
    (
      λ h x m same. cc (absent.0 h x m, (eq_iff x.name rule.name).1 same),
      λ h. absent.1 (λ x m.
          (false_iff (x.name == rule.name)
              ((eq_iff x.name rule.name).0, (eq_iff x.name rule.name).1)).1
            (h x m)),
    )

check_rule-parts :
    (b : Build) (builtins : List AnalysisRule) (rule : AnalysisRule) (m : Manifest)
    → (check_rule b builtins rule m ≡ none) ↔ (
        (check_name (cut_prefix experimental_prefix rule.name) ≡ none)
        × (check_manifest b m ≡ none)
        × (any (λ builtin. builtin.name == rule.name) builtins ≡ false))
unfolding check_rule
check_rule-parts b builtins rule m = ground (
  arith,
  or_error-none (check_name (cut_prefix experimental_prefix rule.name)) (
      or_error (check_manifest b m) (
        if any (λ builtin. builtin.name == rule.name) builtins
        then some builtin_collision
        else none)),
  or_error-none (check_manifest b m) (
      if any (λ builtin. builtin.name == rule.name) builtins then some builtin_collision else none),
)

-- The checks let exactly the acceptable rules through.
pub check_rule-IsAcceptable :
    (b : Build) (builtins : List AnalysisRule) (rule : AnalysisRule) (m : Manifest)
    → (check_rule b builtins rule m ≡ none) ↔ IsAcceptable b builtins rule m
check_rule-IsAcceptable b builtins rule m =
    let parts = check_rule-parts b builtins rule m in
    let name = check_name-none (cut_prefix experimental_prefix rule.name) in
    let frameworks = first_error-none check_framework m.frameworks in
    let tags = first_error-none check_tag m.tags in
    let runes = first_error-none check_rune (codes m.description) in
    (
      λ h.
          let (named, manifest, fresh) = parts.0 h in
          let (fws, ts, fw_ok, tag_ok, rune_ok, runs) = (check_manifest-none b m).0 manifest in
          record {
            named = name.0 named;
            some_frameworks = fws;
            some_tags = ts;
            known = λ fw at. (check_framework-none fw).0 (frameworks.0 fw_ok fw at);
            clean_tags = λ t at. (check_tag-none t).0 (tags.0 tag_ok t at);
            clean_description = λ c at. (check_rune-none c).0 (runes.0 rune_ok c at);
            runs = runs;
            new_name = (no_builtin builtins rule).0 fresh;
          },
      λ a. parts.1 (
        name.1 a.named,
        (check_manifest-none b m).1 (
          a.some_frameworks,
          a.some_tags,
          frameworks.1 (λ fw at. (check_framework-none fw).1 (a.known fw at)),
          tags.1 (λ t at. (check_tag-none t).1 (a.clean_tags t at)),
          runes.1 (λ c at. (check_rune-none c).1 (a.clean_description c at)),
          a.runs,
        ),
        (no_builtin builtins rule).1 a.new_name,
      ),
    )
