-- ===== src/Rules/ToolArg/Run/Laws.antt =====
-- What the rule reports on one tool.
use mathlib.Core.List.{flat_map}
use Prim.Native.String.{◌++◌ as ◌+++◌}
use shingan.Prelude.{
  String, ◌==◌, ◌≡◌, ◌∙◌, ap, subst, inl, inr, ◌≤◌, Option, none, some, List, [], ◌∷◌, ◌++◌,
  collect, length, arith, Bool-cases, if◌then◌else◌,
}
use shingan.Prelude.Take.{take, take_all}
use shingan.Domain.Value.{
  null, boolean, int, int32, int64, float32, float64, text, texts, array, object, Fields, end,
  field,
}
use shingan.Domain.Finding.{Finding}
use shingan.Domain.Graph.{Node}
use shingan.Rules.ToolArg.{Field, field_finding, is_full, max_findings_per_node, schema_config_keys}
use shingan.Rules.ToolArg.Walk.{
  Flow, next, then_items, properties_in, walk_properties, items_in, walk_schema, walk_schema_root,
}
use shingan.Rules.ToolArg.Run.{object_at, scan_keys, evaluate_unbounded_tool_arg}
use shingan.Rules.ToolArg.Run.Declared.{under_properties, each_property, under_items, declared}
use shingan.Rules.ToolArg.Run.Capped.{
  capped, Adds, AddsFlow, nothing-Adds, then_items-Adds, from_root-Adds, property-AddsFlow,
  length-step-le, capped-append, capped_full,
}

module _ (id : String) where
  -- A key whose value is no object adds nothing.
  no_object-AddsFlow :
      (key : String) (step : List Finding → Flow) (fields : List Field)
      → AddsFlow id step fields
      → AddsFlow id
          (λ fs. if key == "properties" then next fs else step fs)
          (if key == "properties" then [] else fields)
  no_object-AddsFlow key step fields adds = elim (Bool-cases (key == "properties")) [
    | inl here ↦ rw here (nothing-Adds id)
    | inr there ↦ rw there adds
  ]

  no_object-Adds :
      (key : String) (step : List Finding → List Finding) (fields : List Field)
      → Adds id step fields
      → Adds id
          (λ fs. if key == "items" then fs else step fs)
          (if key == "items" then [] else fields)
  no_object-Adds key step fields adds = elim (Bool-cases (key == "items")) [
    | inl here ↦ rw here (nothing-Adds id)
    | inr there ↦ rw there adds
  ]

  mutual
    unfolding properties_in under_properties

    properties_in-AddsFlow :
        (schema : Fields) (path : String)
        → AddsFlow id (properties_in id schema path) (under_properties schema path)
    properties_in-AddsFlow end path = nothing-Adds id
    properties_in-AddsFlow (field key (object props) rest) path =
        elim (Bool-cases (key == "properties")) [
          | inl here ↦ rw here (walk_properties-AddsFlow props path)
          | inr there ↦ rw there (properties_in-AddsFlow rest path)
        ]
    properties_in-AddsFlow (field key null rest) path =
        no_object-AddsFlow key _ _ (properties_in-AddsFlow rest path)
    properties_in-AddsFlow (field key (boolean _) rest) path =
        no_object-AddsFlow key _ _ (properties_in-AddsFlow rest path)
    properties_in-AddsFlow (field key (int _) rest) path =
        no_object-AddsFlow key _ _ (properties_in-AddsFlow rest path)
    properties_in-AddsFlow (field key (int32 _) rest) path =
        no_object-AddsFlow key _ _ (properties_in-AddsFlow rest path)
    properties_in-AddsFlow (field key (int64 _) rest) path =
        no_object-AddsFlow key _ _ (properties_in-AddsFlow rest path)
    properties_in-AddsFlow (field key (float32 _) rest) path =
        no_object-AddsFlow key _ _ (properties_in-AddsFlow rest path)
    properties_in-AddsFlow (field key (float64 _) rest) path =
        no_object-AddsFlow key _ _ (properties_in-AddsFlow rest path)
    properties_in-AddsFlow (field key (text _) rest) path =
        no_object-AddsFlow key _ _ (properties_in-AddsFlow rest path)
    properties_in-AddsFlow (field key (texts _) rest) path =
        no_object-AddsFlow key _ _ (properties_in-AddsFlow rest path)
    properties_in-AddsFlow (field key (array _) rest) path =
        no_object-AddsFlow key _ _ (properties_in-AddsFlow rest path)

    walk_properties-AddsFlow :
        (props : Fields) (path : String)
        → AddsFlow id (walk_properties id props path) (each_property props path)
    walk_properties-AddsFlow end path = nothing-Adds id
    walk_properties-AddsFlow (field name (object schema) rest) path =
        let here = path +++ ("." +++ name) in
        property-AddsFlow id (here, schema)
          (λ found. then_items id (properties_in id schema here found) (items_in id schema here))
          (walk_properties id rest path) (under_properties schema here ++ under_items schema here)
          (each_property rest path)
          (then_items-Adds id (properties_in id schema here) (items_in id schema here)
            (under_properties schema here) (under_items schema here)
            (properties_in-AddsFlow schema here) (items_in-Adds schema here))
          (walk_properties-AddsFlow rest path)
    walk_properties-AddsFlow (field name null rest) path = walk_properties-AddsFlow rest path
    walk_properties-AddsFlow (field name (boolean _) rest) path = walk_properties-AddsFlow rest path
    walk_properties-AddsFlow (field name (int _) rest) path = walk_properties-AddsFlow rest path
    walk_properties-AddsFlow (field name (int32 _) rest) path = walk_properties-AddsFlow rest path
    walk_properties-AddsFlow (field name (int64 _) rest) path = walk_properties-AddsFlow rest path
    walk_properties-AddsFlow (field name (float32 _) rest) path = walk_properties-AddsFlow rest path
    walk_properties-AddsFlow (field name (float64 _) rest) path = walk_properties-AddsFlow rest path
    walk_properties-AddsFlow (field name (text _) rest) path = walk_properties-AddsFlow rest path
    walk_properties-AddsFlow (field name (texts _) rest) path = walk_properties-AddsFlow rest path
    walk_properties-AddsFlow (field name (array _) rest) path = walk_properties-AddsFlow rest path

    items_in-Adds :
        (schema : Fields) (path : String)
        → Adds id (items_in id schema path) (under_items schema path)
    items_in-Adds end path = nothing-Adds id
    items_in-Adds (field key (object schema) rest) path =
        let under = path +++ ".items" in
        elim (Bool-cases (key == "items")) [
          | inl here ↦ rw here (
              from_root-Adds id schema under
                (λ found.
                  then_items id (properties_in id schema under found) (items_in id schema under))
                (under_properties schema under ++ under_items schema under)
                (then_items-Adds id (properties_in id schema under) (items_in id schema under)
                  (under_properties schema under) (under_items schema under)
                  (properties_in-AddsFlow schema under) (items_in-Adds schema under)))
          | inr there ↦ rw there (items_in-Adds rest path)
        ]
    items_in-Adds (field key null rest) path = no_object-Adds key _ _ (items_in-Adds rest path)
    items_in-Adds (field key (boolean _) rest) path =
        no_object-Adds key _ _ (items_in-Adds rest path)
    items_in-Adds (field key (int _) rest) path = no_object-Adds key _ _ (items_in-Adds rest path)
    items_in-Adds (field key (int32 _) rest) path = no_object-Adds key _ _ (items_in-Adds rest path)
    items_in-Adds (field key (int64 _) rest) path = no_object-Adds key _ _ (items_in-Adds rest path)
    items_in-Adds (field key (float32 _) rest) path =
        no_object-Adds key _ _ (items_in-Adds rest path)
    items_in-Adds (field key (float64 _) rest) path =
        no_object-Adds key _ _ (items_in-Adds rest path)
    items_in-Adds (field key (text _) rest) path = no_object-Adds key _ _ (items_in-Adds rest path)
    items_in-Adds (field key (texts _) rest) path = no_object-Adds key _ _ (items_in-Adds rest path)
    items_in-Adds (field key (array _) rest) path = no_object-Adds key _ _ (items_in-Adds rest path)

  walk_schema_root-Adds :
      (schema : Fields) (path : String)
      → Adds id (walk_schema_root id schema path) (declared schema path)
  unfolding walk_schema_root declared
  walk_schema_root-Adds schema path =
      from_root-Adds id schema path (walk_schema id schema path)
        (under_properties schema path ++ under_items schema path)
        (then_items-Adds id (properties_in id schema path) (items_in id schema path)
          (under_properties schema path) (under_items schema path)
          (properties_in-AddsFlow schema path) (items_in-Adds schema path))

-- The fields of the schema under a key of the settings.
unfoldable pub fields_at : Node → String → List Field
unfolding declared object_at
fields_at n key = elim (object_at n key) [ some schema ↦ declared schema key | none ↦ [] ]

-- What the loop over the keys does with one key, if it does so with the later ones.
scan_step :
    (n : Node) (key : String) (keys : List String) (fs : List Finding)
    → length fs ≤ max_findings_per_node
    → Adds n.id (scan_keys n keys) (flat_map (fields_at n) keys)
    → (o : Option Fields)
    → elim o [
      | some schema ↦
          let found = walk_schema_root n.id schema key fs in
          if is_full found then take max_findings_per_node found else scan_keys n keys found
      | none ↦ scan_keys n keys fs
    ]
      ≡ capped n.id fs
          (elim o [ some schema ↦ declared schema key | none ↦ [] ] ++ flat_map (fields_at n) keys)
scan_step n key keys fs few later none = later fs few
scan_step n key keys fs few later (some schema) =
    let step = walk_schema_root n.id schema key in
    let adds = walk_schema_root-Adds n.id schema key in
    let short = length-step-le n.id step (declared schema key) adds fs few in
    let rest = flat_map (fields_at n) keys in
    elim (Bool-cases (is_full (step fs))) [
      | inl full ↦
          let many : max_findings_per_node ≤ length (step fs) = ground (arith, full) in
          rw full (
            take_all max_findings_per_node (step fs) short
            ∙ adds fs few
            ∙ capped_full n.id fs (declared schema key) rest
                (subst (λ r. max_findings_per_node ≤ length r) (adds fs few) many))
      | inr room ↦ rw room (
          later (step fs) short
          ∙ ap (λ r. take max_findings_per_node (r ++ collect (field_finding n.id) rest))
              (adds fs few)
          ∙ capped-append n.id fs (declared schema key) rest)
    ]

scan_keys-Adds :
    (n : Node) (keys : List String) → Adds n.id (scan_keys n keys) (flat_map (fields_at n) keys)
unfolding scan_keys flat_map fields_at
scan_keys-Adds n [] fs few = nothing-Adds n.id fs few
scan_keys-Adds n (key ∷ keys) fs few =
    scan_step n key keys fs few (scan_keys-Adds n keys) (object_at n key)

-- A tool gets the first five of the findings of the fields that the schemas under the three keys declare,
-- in their order.
pub evaluate-take :
    (n : Node)
    → evaluate_unbounded_tool_arg n
      ≡ take max_findings_per_node
          (collect (field_finding n.id) (flat_map (fields_at n) schema_config_keys))
unfolding evaluate_unbounded_tool_arg
evaluate-take n = scan_keys-Adds n schema_config_keys [] (omega arith)
