-- ===== src/Catalogue/Currency.antt =====
-- `/^[A-Z]{3}$/`, the test of a currency in backend/src/platform/extensions.service.ts.
use Prim.Native.Char.{Char, code}
use Prim.Native.String.{[], ◌∷◌}
use wattanman.Base.{String, Bool, false, ◌&&◌, leb}

abbrev is_capital : Char → Bool
is_capital c = leb 65 (code c) && leb (code c) 90

unfoldable pub is_currency : String → Bool
is_currency (a ∷ b ∷ c ∷ []) = is_capital a && is_capital b && is_capital c
is_currency _ = false
