-- ===== src/Errors.antt =====
-- src/errors.ts, and the other errors that the program throws. An error is its class with the text
-- that its message names.
use Prim.Native.String.{String}
use celeries.Base.Text.{Text}

pub data Thrown : Type 0 where
  parse_error : Text → Thrown
  unimplemented_error : String → Thrown
  -- `decodeURIComponent` throws it.
  uri_error : Thrown
  error : String → Thrown
