-- ===== src/Domain/NodeType/Tests.antt =====
-- A name that is read back, and one that changes.
use shingan.Prelude.{◌≡◌, refl, some}
use shingan.Domain.NodeType.{control, loop, name, text, marshal_json, unmarshal_json}

control_is_written : marshal_json control ≡ name "control"
unfolding marshal_json
control_is_written = refl

control_is_read : unmarshal_json (text "control") ≡ some loop
unfolding unmarshal_json shingan.Prelude.lookup
control_is_read = refl
