-- ===== src/Mitra/FrameParser/Echo.antt =====
-- Which messages the parser marks as the echo of a user message.
use saarathi.Common.{codes, [], ◌≡◌, ◌≢◌}
use saarathi.Python.{Json, dict, Fields, Result, ok, Runtime, get}
use saarathi.Python.Conversions.{int_of, overflow}
use saarathi.Mitra.Coercions.{coerce_str}

-- the test `if f.finish_reason` by which the channel ends a turn
-- Mitra's echo of a user's own message: a text envelope whose source reads "user".
pub data IsUserEcho (rt : Runtime) : Result Json → Type 0 where
  echo :
      (payload text : Fields)
      → get (codes "text") payload ≡ dict text
      → int_of rt (get (codes "step") text) ≢ overflow
      → coerce_str rt (get (codes "source") text) [] ≡ codes "user"
      → IsUserEcho rt (ok (dict payload))
