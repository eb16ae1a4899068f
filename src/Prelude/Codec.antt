-- ===== src/Prelude/Codec.antt =====
-- `JSON.stringify` and `JSON.parse` at one type of values.
use Prim.Native.String.{String}
use mathlib.Core.Path.{◌≡◌}
use mathlib.Core.Option.{Option, some}

-- `parse` is `none` where `JSON.parse` throws.
pub record Codec (A : Type 0) : Type 0 where
  pub stringify : A → String
  pub parse : String → Option A

-- What was written is read back.
abbrev pub IsCodec : {A : Type 0} → Codec A → Type 0
IsCodec {A} c = (a : A) → c.parse (c.stringify a) ≡ some a
