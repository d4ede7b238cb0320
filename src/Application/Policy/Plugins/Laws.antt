-- ===== src/Application/Policy/Plugins/Laws.antt =====
-- When the required plugins are accepted, and what an error names.
use mathlib.Core.List.Memᴰ
use shingan.Prelude.{
  String, Bool, true, false, ◌&&◌, ◌||◌, ◌==◌, ◌≡◌, refl, ◌↔◌, Option, none, some, inl, inr, List,
  [], ◌∷◌, ◌++◌, foldl, Memᴰ, contains, arith, Bool-cases,
}
use shingan.Application.Ignore.RuleList.{trim, is_space}
use shingan.Application.Policy.{Policy}
use shingan.Application.Policy.Plugins.{
  experimental_prefix, cut_prefix, is_valid_suffix, PluginFaults, no_faults, check_suffix,
  check_plugin, is_nil, is_clean, verify_required_plugins,
}

abbrev pub accepted_suffix : List String → String → Option String → Bool
accepted_suffix available want none = false
accepted_suffix available want (some suffix) = is_valid_suffix suffix && contains available want

-- A required name that raises no error: an empty one, or one that has no space at its ends, the
-- prefix, a valid rest, and a rule in the running program.
unfoldable pub is_accepted : List String → String → Bool
is_accepted available want =
    want == ""
    || trim is_space want == want
      && accepted_suffix available want (cut_prefix experimental_prefix want)

is_nil-concat : (xs : List String) (x : String) → is_nil (xs ++ x ∷ []) ≡ false
is_nil-concat [] x = refl
is_nil-concat (y ∷ xs) x = refl

is_clean-check_suffix :
    (available : List String) (want : String) (rest : Option String) (f : PluginFaults)
    → is_clean (check_suffix available want rest f)
      ≡ (is_clean f && accepted_suffix available want rest)
unfolding check_suffix
is_clean-check_suffix available want none f = ground (arith, is_nil-concat f.bad_prefix want)
is_clean-check_suffix available want (some suffix) f =
    ground (arith, is_nil-concat f.bad_grammar want, is_nil-concat f.missing want)

is_clean-check_plugin :
    (available : List String) (f : PluginFaults) (want : String)
    → is_clean (check_plugin available f want) ≡ (is_clean f && is_accepted available want)
unfolding check_plugin is_accepted
is_clean-check_plugin available f want = ground (
  arith,
  is_nil-concat f.bad_whitespace want,
  is_clean-check_suffix available want (cut_prefix experimental_prefix want) f,
)

is_clean-checks :
    (available : List String) (wants : List String) (f : PluginFaults)
    → (is_clean (foldl (check_plugin available) f wants) ≡ true) ↔ (
        (is_clean f ≡ true)
        × ((want : String) → Memᴰ want wants → is_accepted available want ≡ true))
is_clean-checks available [] f = (λ h. (h, λ want m. absurd (Memᴰ.not-nil m)), λ h. h.0)
is_clean-checks available (w ∷ wants) f =
    let later = is_clean-checks available wants (check_plugin available f w) in
    let now = is_clean-check_plugin available f w in
    (
      λ h.
          let (clean, all) = later.0 h in
          (
            ground (arith, now, clean),
            λ want m. elim (Memᴰ.cases_cons m) [
              | inl e ↦ rw e (ground (arith, now, clean))
              | inr r ↦ all want r
            ],
          ),
      λ (clean, all).
          later.1
            (ground (arith, now, clean, all w (Memᴰ.head refl)), λ want m. all want (Memᴰ.tail m)),
    )

-- The check passes exactly if every required name is accepted: it is empty, or it has no space at
-- its ends, the prefix, a rest of the slug's grammar, and a rule in the running program.
pub verify-none :
    (p : Policy) (available : List String)
    → (verify_required_plugins (some p) available ≡ none)
      ↔ ((want : String) → Memᴰ want p.plugins → is_accepted available want ≡ true)
unfolding verify_required_plugins
verify-none p available =
    let checks = is_clean-checks available p.plugins no_faults in
    let faults = foldl (check_plugin available) no_faults p.plugins in
    elim (Bool-cases (is_clean faults)) [
      | inl t ↦ rw t (λ _. (checks.0 t).1, λ _. refl)
      | inr f ↦ rw f (λ h. cc (h), λ all. cc (checks.1 (refl, all), f))
    ]
