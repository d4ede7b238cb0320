-- ===== src/Rules/ToolArg/Walk.antt =====
-- domain/rules/unbounded_tool_arg.go: walkSchemaRoot, walkSchema and classifyField, which append to the
-- findings that their last argument holds.
use Prim.Native.String.{◌++◌ as ◌+++◌}
use shingan.Prelude.{String, ◌==◌, ◌||◌, none, some, List, [], ◌∷◌, ◌++◌, if◌then◌else◌}
use shingan.Domain.Value.{object, Fields, end, field}
use shingan.Domain.Finding.{Finding}
use shingan.Rules.ToolArg.{Field, field_finding, type_of, is_full}

-- How the loop over the properties ends: with the code after it, or with a return from walkSchema.
pub data Flow : Type 0 where
  next stop : List Finding → Flow

module _ (id : String) where
  unfoldable pub classify_field : Field → List Finding → List Finding
  unfolding field_finding
  classify_field f fs =
      if is_full fs then fs else elim (field_finding id f) [ none ↦ fs | some x ↦ fs ++ x ∷ [] ]

  -- The body of walkSchema: its step into `properties` has ended, that into `items` is given.
  abbrev pub then_items : Flow → (List Finding → List Finding) → List Finding
  then_items (next found) items = items found
  then_items (stop found) items = found

  -- The body of walkSchemaRoot; `walk` is its call of walkSchema.
  unfoldable pub from_root :
      Fields → String → (List Finding → List Finding) → List Finding → List Finding
  unfolding classify_field type_of
  from_root schema path walk fs =
      let kind = type_of schema in
      if kind == "" || kind == "object"
      then walk fs
      else (let found = classify_field (path, schema) fs in
          if is_full found then found else walk found)

  unfoldable mutual
    unfolding classify_field from_root

    -- The step into `properties`, if they are an object.
    pub properties_in : Fields → String → List Finding → Flow
    properties_in end path fs = next fs
    properties_in (field key (object props) rest) path fs =
        if key == "properties" then walk_properties props path fs else properties_in rest path fs
    properties_in (field key _ rest) path fs =
        if key == "properties" then next fs else properties_in rest path fs

    -- The loop over the properties.
    pub walk_properties : Fields → String → List Finding → Flow
    walk_properties end path fs = next fs
    walk_properties (field name (object schema) rest) path fs =
        let here = path +++ ("." +++ name) in
        let found = classify_field (here, schema) fs in
        if is_full found
        then stop found
        else walk_properties rest path
            (then_items (properties_in schema here found) (items_in schema here))
    walk_properties (field _ _ rest) path fs = walk_properties rest path fs

    -- The step into `items`, if they are an object.
    pub items_in : Fields → String → List Finding → List Finding
    items_in end path fs = fs
    items_in (field key (object schema) rest) path fs =
        let under = path +++ ".items" in
        if key == "items"
        then from_root schema under
            (λ found. then_items (properties_in schema under found) (items_in schema under)) fs
        else items_in rest path fs
    items_in (field key _ rest) path fs = if key == "items" then fs else items_in rest path fs

  unfoldable pub walk_schema : Fields → String → List Finding → List Finding
  unfolding properties_in
  walk_schema schema path fs = then_items (properties_in schema path fs) (items_in schema path)

  unfoldable pub walk_schema_root : Fields → String → List Finding → List Finding
  unfolding from_root walk_schema
  walk_schema_root schema path = from_root schema path (walk_schema schema path)
