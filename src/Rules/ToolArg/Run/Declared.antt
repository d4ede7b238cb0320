-- ===== src/Rules/ToolArg/Run/Declared.antt =====
-- The fields that a JSON schema declares, in the order of the search and without its cap: the schema
-- itself, its properties and theirs, and its items.
use Prim.Native.String.{◌++◌ as ◌+++◌}
use shingan.Prelude.{String, ◌==◌, List, [], ◌∷◌, ◌++◌, if◌then◌else◌}
use shingan.Domain.Value.{object, Fields, end, field}
use shingan.Rules.ToolArg.{Field}

unfoldable mutual
  pub under_properties : Fields → String → List Field
  under_properties end path = []
  under_properties (field key (object props) rest) path =
      if key == "properties" then each_property props path else under_properties rest path
  under_properties (field key _ rest) path =
      if key == "properties" then [] else under_properties rest path

  pub each_property : Fields → String → List Field
  each_property end path = []
  each_property (field name (object schema) rest) path =
      let here = path +++ ("." +++ name) in
      ((here, schema) ∷ under_properties schema here ++ under_items schema here)
      ++ each_property rest path
  each_property (field _ _ rest) path = each_property rest path

  pub under_items : Fields → String → List Field
  under_items end path = []
  under_items (field key (object schema) rest) path =
      let under = path +++ ".items" in
      if key == "items"
      then (under, schema) ∷ under_properties schema under ++ under_items schema under
      else under_items rest path
  under_items (field key _ rest) path = if key == "items" then [] else under_items rest path

unfoldable pub declared : Fields → String → List Field
unfolding under_properties
declared schema path = (path, schema) ∷ under_properties schema path ++ under_items schema path
