-- ===== src/Tests/Redaction.antt =====
-- The redaction of a report.
use threadlens.Prelude.Json.{Json, end, field}

abbrev entry : Json
entry = Json.object (
    field "name" (Json.str "Kitchen")
      (field "auth" (Json.object (field "network_key" (Json.str "00ff") end)) end))

abbrev safe_entry : Json
safe_entry = Json.object (field "node_id" (Json.number 7) end)
