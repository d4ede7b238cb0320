-- ===== src/Plugin/Sdk.antt =====
-- plugin/sdk_version.go: the version of the plugin interface that the rules were built against.
use mathlib.Core.List.Memᴰ
use shingan.Prelude.{
  String, Bool, true, false, not, ◌==◌, ◌≡◌, ◌≢◌, refl, subst, ◌↔◌, Option, none, some, List, [],
  ◌∷◌, Memᴰ, collect, Memᴰ-collect, map_option, zero, suc, arith, eq_iff, if◌then◌else◌,
  Option-cases, Bool-cases, inl, inr, some_inj,
}
use shingan.Prelude.Int.{ℤ, pos, negsuc}
use shingan.Plugin.{Registered, Registry, Build, with_v, trim_prefix, is_negative}

abbrev pub min_plugin_sdk : String
min_plugin_sdk = "0.9.0"

abbrev pub max_plugin_sdk : String
max_plugin_sdk = "0.9.0"

-- The reasons that checkSDKRange gives; `none` is the empty text.
pub data SdkFault : Type 0 where
  undeclared not_semver too_old too_new : SdkFault

abbrev is_positive : ℤ → Bool
is_positive (pos (suc _)) = true
is_positive _ = false

unfoldable pub check_sdk_range : Build → String → Option SdkFault
check_sdk_range b v =
    let vv = with_v (trim_prefix "v" v) in
    if v == ""
    then some undeclared
    else if not (b.is_valid vv)
    then some not_semver
    else if is_negative (b.compare vv (with_v min_plugin_sdk))
    then some too_old
    else if is_positive (b.compare vv (with_v max_plugin_sdk))
    then some too_new
    else none

-- A line of the error: the rule, what it declares and why that does not do.
pub record Incompatible : Type 0 where
  pub rule_name : String
  pub declared : String
  pub reason : SdkFault

unfoldable pub incompatible : Build → String → Option String → Option Incompatible
unfolding check_sdk_range
incompatible b name none = none
incompatible b name (some declared) =
    map_option (λ reason. record { rule_name = name; declared = declared; reason = reason })
      (check_sdk_range b declared)

abbrev no_lines : List Incompatible → Bool
no_lines [] = true
no_lines (_ ∷ _) = false

-- The error, if there is one, as its lines.
unfoldable pub verify_sdk_compatibility : Build → Registry → Option (List Incompatible)
unfolding incompatible
verify_sdk_compatibility b r =
    let found = collect (λ e. incompatible b e.rule.name e.rule.sdk_version) r.registry in
    if no_lines found then none else some found

-- A declared version that is the one version supported.
abbrev pub IsSupported : Build → String → Type 0
IsSupported b v =
    let vv = with_v (trim_prefix "v" v) in
    (v ≢ "") × (b.is_valid vv ≡ true) × (b.compare vv "v0.9.0" ≡ pos 0)

between : (c : ℤ) → (is_negative c ≡ false) × (is_positive c ≡ false) ↔ (c ≡ pos 0)
between (pos zero) = (λ _. refl, λ _. (refl, refl))
between (pos (suc n)) = (λ h. cc h.1, λ h. cc h)
between (negsuc n) = (λ h. cc h.0, λ h. cc h)

check_sdk_range-none : (b : Build) (v : String) → (check_sdk_range b v ≡ none) ↔ IsSupported b v
unfolding check_sdk_range
check_sdk_range-none b v =
    ground (arith, eq_iff v "", between (b.compare (with_v (trim_prefix "v" v)) "v0.9.0"))

no_lines_iff : (xs : List Incompatible) → (no_lines xs ≡ true) ↔ ((x : Incompatible) → ¬ Memᴰ x xs)
no_lines_iff [] = (λ _ x m. Memᴰ.not-nil m, λ _. refl)
no_lines_iff (x ∷ xs) = (λ h. cc h, λ h. absurd (h x (Memᴰ.head refl)))

incompatible-none :
    (b : Build) (name : String) (declared : Option String)
    → ((x : Incompatible) → incompatible b name declared ≢ some x)
      ↔ ((v : String) → declared ≡ some v → IsSupported b v)
unfolding incompatible
incompatible-none b name none = (λ h v e. cc e, λ h x e. cc e)
incompatible-none b name (some d) =
    let range = check_sdk_range-none b d in
    (
      λ h v same. elim (Option-cases (check_sdk_range b d)) [
        | inl e ↦ subst (IsSupported b) (some_inj same) (range.0 e)
        | inr (f, e) ↦
            absurd (h (record { rule_name = name; declared = d; reason = f }) (rw e refl))
      ],
      λ h x e. cc (range.1 (h d refl), e),
    )

-- The check of the SDK versions passes exactly if every registered rule that declares a version
-- declares the supported one, with or without a `v` in front.
pub verify_sdk-IsSupported :
    (b : Build) (r : Registry)
    → (verify_sdk_compatibility b r ≡ none) ↔ (
        (e : Registered) (v : String)
        → Memᴰ e r.registry
        → e.rule.sdk_version ≡ some v
        → IsSupported b v)
unfolding verify_sdk_compatibility
verify_sdk-IsSupported b r =
    let line = λ (e : Registered). incompatible b e.rule.name e.rule.sdk_version in
    let found = collect line r.registry in
    let supported = λ (e : Registered). incompatible-none b e.rule.name e.rule.sdk_version in
    elim (Bool-cases (no_lines found)) [
      | inl t ↦ rw t (
        λ _ e v m declared.
            (supported e).0
              (λ x h. (no_lines_iff found).0 t x ((Memᴰ-collect x line r.registry).1 (e, m, h))) v
              declared,
        λ _. refl,
      )
      | inr f ↦ rw f (
        λ h. cc h,
        λ h. cc (
          f,
          (no_lines_iff found).1 (λ x at.
              let (e, m, is) = (Memᴰ-collect x line r.registry).0 at in
              (supported e).1 (λ v declared. h e v m declared) x is),
        ),
      )
    ]
