-- ===== src/Plugin/Laws.antt =====
-- The registry of plugins: what a call of Register leaves behind, and that the check of the required
-- plugins knows every plugin that was registered.
use mathlib.Core.List.Memᴰ
use shingan.Prelude.{
  String, ◌≡◌, ◌≢◌, refl, sym, ap, ◌∙◌, subst, ◌↔◌, ◌⊎◌, inl, inr, Option, none, some, List, [],
  ◌∷◌, ◌++◌, Memᴰ, contains, contains_iff, Memᴰ-concat, Bool-cases, false_iff,
}
use shingan.Domain.Context.{AnalysisRule}
use shingan.Plugin.{
  Manifest, Registered, Registry, Build, RegisterError, check_rule, store, store_checked, register,
  reset,
}
use shingan.Plugin.Accepted.{IsAcceptable, check_rule-IsAcceptable}

abbrev pub entry_name : Registered → String
entry_name e = e.rule.name

abbrev pub HasName : Registry → String → Type 0
HasName r name = (e : Registered) × Memᴰ e r.registry × (e.rule.name ≡ name)

-- No two places of a list hold entries of one name.
abbrev pub IsDistinct : List Registered → Type 0
IsDistinct [] = Unit
IsDistinct (e ∷ es) = ((d : Registered) → Memᴰ d es → d.rule.name ≢ e.rule.name) × IsDistinct es

module _ (b : Build) (builtins : List AnalysisRule) where
  -- The index of names is that of the entries, no two entries share a name, and each passed the checks.
  pub record IsRegistry (r : Registry) : Type 0 where
    pub indexed : (name : String) → Memᴰ name r.names ↔ HasName r name
    pub distinct : IsDistinct r.registry
    pub acceptable :
        (e : Registered) → Memᴰ e r.registry → IsAcceptable b builtins e.rule e.manifest

  pub reset-IsRegistry : IsRegistry reset
  unfolding reset
  reset-IsRegistry = record {
    indexed = λ name. (λ m. absurd (Memᴰ.not-nil m), λ h. absurd (Memᴰ.not-nil h.1));
    distinct = tt;
    acceptable = λ e m. absurd (Memᴰ.not-nil m);
  }

  IsDistinct-concat :
      (es : List Registered) (e : Registered)
      → IsDistinct es
      → ((d : Registered) → Memᴰ d es → d.rule.name ≢ e.rule.name)
      → IsDistinct (es ++ e ∷ [])
  IsDistinct-concat [] e d fresh = (λ x m. absurd (Memᴰ.not-nil m), tt)
  IsDistinct-concat (x ∷ es) e (here, rest) fresh = (
    λ d m same. elim ((Memᴰ-concat d e es).0 m) [
      | inl at ↦ here d at same
      | inr is ↦
          fresh x (Memᴰ.head refl)
            (subst (λ (y : Registered). x.rule.name ≡ y.rule.name) is (sym same))
    ],
    IsDistinct-concat es e rest (λ d m. fresh d (Memᴰ.tail m)),
  )

  store-IsRegistry :
      (r : Registry) (rule : AnalysisRule) (m : Manifest)
      → IsAcceptable b builtins rule m
      → IsRegistry r
      → IsRegistry (store r rule m).0
  unfolding store
  store-IsRegistry r rule m ok inv =
      let added : Registered = record { rule = rule; manifest = m } in
      elim (Bool-cases (contains r.names rule.name)) [
        | inl t ↦ rw t inv
        | inr f ↦
            let absent =
              (false_iff (contains r.names rule.name) (contains_iff r.names rule.name)).0 f in
            rw f (record {
              indexed = λ name. (
                λ at. elim (Memᴰ.cases_cons at) [
                  | inl same ↦ (added, Memᴰ.append_right r.registry (Memᴰ.head refl), sym same)
                  | inr there ↦
                      let (e, m, n) = (inv.indexed name).0 there in
                      (e, Memᴰ.append_left (added ∷ []) m, n)
                ],
                λ (e, at, n). elim ((Memᴰ-concat e added r.registry).0 at) [
                  | inl old ↦ Memᴰ.tail ((inv.indexed name).1 (e, old, n))
                  | inr is ↦ Memᴰ.head (sym n ∙ ap entry_name is)
                ],
              );
              distinct =
                  IsDistinct-concat r.registry added inv.distinct
                    (λ d at same. absent ((inv.indexed rule.name).1 (d, at, same)));
              acceptable = λ e at. elim ((Memᴰ-concat e added r.registry).0 at) [
                | inl old ↦ inv.acceptable e old
                | inr is ↦
                    subst (λ (x : Registered). IsAcceptable b builtins x.rule x.manifest) (sym is)
                      ok
              ];
            })
      ]

  store_checked-IsRegistry :
      (r : Registry) (rule : AnalysisRule) (m : Manifest) (found : Option RegisterError)
      → check_rule b builtins rule m ≡ found
      → IsRegistry r
      → IsRegistry (store_checked r rule m found).0
  unfolding store_checked
  store_checked-IsRegistry r rule m none passed inv =
      store-IsRegistry r rule m ((check_rule-IsAcceptable b builtins rule m).0 passed) inv
  store_checked-IsRegistry r rule m (some e) failed inv = inv

-- Register keeps the registry in order, whatever it is given: its index has the names of its
-- entries, no two entries share a name, and each entry is acceptable.
pub register-IsRegistry :
    (b : Build) (builtins : List AnalysisRule) (r : Registry) (rule : Option AnalysisRule)
    (m : Manifest)
    → IsRegistry b builtins r
    → IsRegistry b builtins (register b builtins r rule m).0
unfolding register
register-IsRegistry b builtins r none m inv = inv
register-IsRegistry b builtins r (some rule) m inv =
    store_checked-IsRegistry b builtins r rule m (check_rule b builtins rule m) refl inv

-- The registry after one entry more.
abbrev pub with_entry : Registry → AnalysisRule → Manifest → List Registered
with_entry r rule m = r.registry ++ record { rule = rule; manifest = m } ∷ []

store-outcome :
    (r : Registry) (rule : AnalysisRule) (m : Manifest)
    → ((store r rule m).1 ≡ none)
        × (¬ Memᴰ rule.name r.names)
        × ((store r rule m).0.registry ≡ with_entry r rule m)
      ⊎ ((store r rule m).1 ≢ none) × Memᴰ rule.name r.names × ((store r rule m).0 ≡ r)
unfolding store
store-outcome r rule m = elim (Bool-cases (contains r.names rule.name)) [
  | inl t ↦ inr (rw t (λ e. cc e), (contains_iff r.names rule.name).0 t, rw t refl)
  | inr f ↦ inl (
    rw f refl,
    (false_iff (contains r.names rule.name) (contains_iff r.names rule.name)).0 f,
    rw f refl,
  )
]

store_checked-outcome :
    (b : Build) (builtins : List AnalysisRule) (r : Registry) (rule : AnalysisRule) (m : Manifest)
    (found : Option RegisterError)
    → IsRegistry b builtins r
    → check_rule b builtins rule m ≡ found
    → ((store_checked r rule m found).1 ≡ none)
        × (IsAcceptable b builtins rule m × (¬ HasName r rule.name))
        × ((store_checked r rule m found).0.registry ≡ with_entry r rule m)
      ⊎ ((store_checked r rule m found).1 ≢ none)
        × (¬ (IsAcceptable b builtins rule m × (¬ HasName r rule.name)))
        × ((store_checked r rule m found).0 ≡ r)
unfolding store_checked
store_checked-outcome b builtins r rule m (some e) inv failed =
    inr (λ h. cc h, λ (a, _). cc (failed, (check_rule-IsAcceptable b builtins rule m).1 a), refl)
store_checked-outcome b builtins r rule m none inv passed = elim (store-outcome r rule m) [
  | inl (e, fresh, after) ↦ inl (
    e,
    (
      (check_rule-IsAcceptable b builtins rule m).0 passed,
      λ h. fresh ((inv.indexed rule.name).1 h),
    ),
    after,
  )
  | inr (e, taken, after) ↦ inr (e, λ (a, fresh). fresh ((inv.indexed rule.name).0 taken), after)
]

-- On a registry in order, Register returns no error exactly if the rule is acceptable and no entry has
-- its name, and then it appends the one entry; with an error it changes nothing.
pub register-outcome :
    (b : Build) (builtins : List AnalysisRule) (r : Registry) (rule : AnalysisRule) (m : Manifest)
    → IsRegistry b builtins r
    → let done = register b builtins r (some rule) m in
      (done.1 ≡ none)
        × (IsAcceptable b builtins rule m × (¬ HasName r rule.name))
        × (done.0.registry ≡ with_entry r rule m)
      ⊎ (done.1 ≢ none)
        × (¬ (IsAcceptable b builtins rule m × (¬ HasName r rule.name)))
        × (done.0 ≡ r)
unfolding register
register-outcome b builtins r rule m inv =
    store_checked-outcome b builtins r rule m (check_rule b builtins rule m) inv refl
