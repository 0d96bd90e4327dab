-- ===== src/Incidents/Requests/Serial.antt =====
-- A request between whose two reads nothing is committed.
use ot_soc_fusion_x.Platform.{Platform}
