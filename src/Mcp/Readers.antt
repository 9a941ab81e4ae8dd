-- ===== src/Mcp/Readers.antt =====
-- An agent that reads by the MCP interface what was uploaded there.
use iot_ephemeral_value_stor.Codec.{Codec}
use iot_ephemeral_value_stor.Service.{Params}
