-- ===== src/Prelude/Text.antt =====
-- `+` on std::string.
use Prim.Native.String.{String, ◌++◌}

unfoldable pub concat : String → String → String
concat s t = s ++ t
