-- ===== src/Payload.antt =====
-- The 32-byte payloads of support/typedefine.h.
use pimlex_fast.Base.{ℕ, ◌%◌, List, replicate}

-- `string_payload`
pub record StringPayload : Type 0 where
  pub real_payload : List ℕ

-- The constructor from an int: `memset(real_payload, i, 32)`.
unfoldable pub string_payload : ℕ → StringPayload
string_payload i = record { real_payload = replicate 32 (i % 256) }
