-- ===== src/Plugin/Required.antt =====
-- The registry of plugins and the check of the plugins that a policy requires agree on names.
use Prim.Native.Char.{Char, code}
use mathlib.Core.List.Memᴰ
use shingan.Prelude.{
  ℕ, String, Bool, true, false, ◌&&◌, ◌||◌, ◌≡◌, refl, sym, ap, ◌∙◌, map, Option, none, some, List,
  [], ◌∷◌, ◌++◌, Memᴰ, leb, nat_eq, contains, contains_iff, arith, eq_iff, Bool-cases, some_inj,
  subst, inl, inr,
}
use shingan.Prelude.Text.{codes}
use shingan.Domain.Context.{AnalysisRule}
use shingan.Application.Ignore.RuleList.{trim, is_space, trim_left, trim_right}
use shingan.Application.Policy.{Policy}
use shingan.Application.Policy.Plugins.{
  cut_prefix, is_valid_suffix, is_lower, slug, all_slug, verify_required_plugins,
}
use shingan.Application.Policy.Plugins.Laws.{is_accepted, accepted_suffix, verify-none}
use shingan.Plugin.{
  Registry, Registered, Build, Manifest, register, reset, rules, experimental_prefix, is_name_tail,
  is_name_slug, valid_name_suffix,
}
use shingan.Plugin.Laws.{IsRegistry, reset-IsRegistry, register-IsRegistry}

-- The characters that names are made of.
abbrev is_name_code : ℕ → Bool
is_name_code c = is_lower c || (leb b'0' c && leb c b'9' || nat_eq c b'_') || nat_eq c b':'

all_name : List ℕ → Bool
all_name [] = true
all_name (c ∷ cs) = is_name_code c && all_name cs

all_name-append :
    (xs ys : List ℕ) → all_name xs ≡ true → all_name ys ≡ true → all_name (xs ++ ys) ≡ true
unfolding all_name
all_name-append [] ys h k = k
all_name-append (x ∷ xs) ys h k = ground (arith, h, all_name-append xs ys, k)

all_name-all_slug : (cs : List ℕ) → all_slug cs ≡ true → all_name cs ≡ true
unfolding all_name all_slug
all_name-all_slug [] h = refl
all_name-all_slug (c ∷ cs) h = ground (arith, h, all_name-all_slug cs)

all_name-slug : (cs : List ℕ) → slug cs ≡ true → all_name cs ≡ true
unfolding all_name slug
all_name-slug [] h = refl
all_name-slug (c ∷ cs) h = ground (arith, h, all_name-all_slug cs)

codes-cut_prefix :
    (p s rest : String) → cut_prefix p s ≡ some rest → codes s ≡ codes p ++ codes rest
unfolding cut_prefix codes
codes-cut_prefix String.[] s rest h = ap codes (some_inj h)
codes-cut_prefix (String.◌∷◌ c p) String.[] rest h = cc h
codes-cut_prefix (String.◌∷◌ c p) (String.◌∷◌ d s) rest h =
    elim (Bool-cases (nat_eq (code c) (code d))) [
      | inl t ↦
          let same : code c ≡ code d = ground (arith, t) in
          cc (same, codes-cut_prefix p s rest (ground (arith, h, t)))
      | inr f ↦ absurd (ground (arith, h, f))
    ]

space-name : (c : Char) → is_name_code (code c) ≡ true → is_space c ≡ false
unfolding is_space
space-name c h = ground (arith, h)

trim_left-name : (s : String) → all_name (codes s) ≡ true → trim_left is_space s ≡ s
unfolding trim_left all_name codes
trim_left-name String.[] h = refl
trim_left-name (String.◌∷◌ c s) h = ground (arith, h, space-name c)

trim_right-name : (s : String) → all_name (codes s) ≡ true → trim_right is_space s ≡ s
unfolding trim_right all_name codes
trim_right-name String.[] h = refl
trim_right-name (String.◌∷◌ c s) h = ground (arith, h, space-name c, trim_right-name s)

prefix-name : all_name (codes experimental_prefix) ≡ true
unfolding all_name codes
prefix-name = refl

name-is_accepted :
    (available : List String) (name suffix : String)
    → cut_prefix experimental_prefix name ≡ some suffix
    → is_valid_suffix suffix ≡ true
    → contains available name ≡ true
    → is_accepted available name ≡ true
unfolding is_accepted is_valid_suffix
name-is_accepted available name suffix cut valid there =
    let written = codes-cut_prefix experimental_prefix name suffix cut in
    let named : all_name (codes name) ≡ true = rw written (
      all_name-append (codes experimental_prefix) (codes suffix) prefix-name
        (all_name-slug (codes suffix) valid)) in
    let trimmed : trim is_space name ≡ name =
      rw (trim_left-name name named) (trim_right-name name named) in
    let same = (eq_iff (trim is_space name) name).1 trimmed in
    let rest : accepted_suffix available name (cut_prefix experimental_prefix name) ≡ true =
      rw cut (ground (arith, valid, there)) in
    ground (arith, same, rest)

-- What the registry accepts as the rest of a name, the policy accepts.
is_name_tail-all_slug : (cs : List ℕ) → is_name_tail cs ≡ true → all_slug cs ≡ true
unfolding is_name_tail all_slug
is_name_tail-all_slug [] h = refl
is_name_tail-all_slug (c ∷ cs) h = ground (arith, h, is_name_tail-all_slug cs)

is_name_slug-slug : (cs : List ℕ) → is_name_slug cs ≡ true → slug cs ≡ true
unfolding is_name_slug slug
is_name_slug-slug [] h = h
is_name_slug-slug (c ∷ cs) h = ground (arith, h, is_name_tail-all_slug cs)

valid_name-is_valid_suffix : (s : String) → valid_name_suffix s ≡ true → is_valid_suffix s ≡ true
unfolding valid_name_suffix is_valid_suffix
valid_name-is_valid_suffix s h = is_name_slug-slug (codes s) h

module _ (b : Build) (builtins : List AnalysisRule) where
  -- The registry of a process after calls of Register, each of which may fail.
  abbrev pub registered : Registry → List (Option AnalysisRule × Manifest) → Registry
  registered r [] = r
  registered r ((rule, m) ∷ calls) = registered (register b builtins r rule m).0 calls

  registered-IsRegistry :
      (r : Registry) (calls : List (Option AnalysisRule × Manifest))
      → IsRegistry b builtins r
      → IsRegistry b builtins (registered r calls)
  registered-IsRegistry r [] inv = inv
  registered-IsRegistry r ((rule, m) ∷ calls) inv =
      registered-IsRegistry (register b builtins r rule m).0 calls
        (register-IsRegistry b builtins r rule m inv)

-- The names of the rules that `Rules` returns.
abbrev pub rule_names : Registry → List String
rule_names r = map (λ (rule : AnalysisRule). rule.name) (rules r)

entry_of_name :
    (r : Registry) (name : String)
    → Memᴰ name (rule_names r)
    → (e : Registered) × Memᴰ e r.registry × (name ≡ e.rule.name)
unfolding rules
entry_of_name r name m =
    let (rule, at, named) = Memᴰ.of_map (λ (x : AnalysisRule). x.name) (rules r) m in
    let (e, there, is) = Memᴰ.of_map (λ (x : Registered). x.rule) r.registry at in
    (e, there, sym named ∙ ap (λ (x : AnalysisRule). x.name) (sym is))

-- After any calls of Register in a new process, a policy that requires only rules that are registered
-- passes the check of the required plugins, on the names of the registered rules.
pub verify-register :
    (b : Build) (builtins : List AnalysisRule) (calls : List (Option AnalysisRule × Manifest))
    (p : Policy)
    → ((want : String)
        → Memᴰ want p.plugins
        → Memᴰ want (rule_names (registered b builtins reset calls)))
    → verify_required_plugins (some p) (rule_names (registered b builtins reset calls)) ≡ none
verify-register b builtins calls p required =
    let r = registered b builtins reset calls in
    let inv = registered-IsRegistry b builtins reset calls (reset-IsRegistry b builtins) in
    (verify-none p (rule_names r)).1 (λ want m.
      let (e, at, named) = entry_of_name r want (required want m) in
      let (suffix, cut, valid) = (inv.acceptable e at).named in
      name-is_accepted (rule_names r) want suffix
        (subst (λ n. cut_prefix experimental_prefix n ≡ some suffix) (sym named) cut)
        (valid_name-is_valid_suffix suffix valid)
        ((contains_iff (rule_names r) want).1 (required want m)))
