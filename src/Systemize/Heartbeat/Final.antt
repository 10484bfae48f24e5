-- ===== src/Systemize/Heartbeat/Final.antt =====
-- A completion is the last word on a heartbeat until the next start.
use agentic_dev_kit.Base.Json.{Json}
