-- ===== src/Common/Texts.antt =====
-- Texts joined, as f-strings join them.
use Prim.Native.String.{String, ◌++◌}

infixr 6 ◌<>◌
abbrev pub ◌<>◌ : String → String → String
a <> b = a ++ b
