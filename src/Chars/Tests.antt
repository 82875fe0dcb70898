-- ===== src/Chars/Tests.antt =====
-- Reading back a printed number.
use fix_engine.Prelude.{◌≡◌, ◌^◌, refl, [], ◌∷◌, ◌++◌, some, arith, length}
use fix_engine.Chars.{soh, to_chars, from_chars}
use fix_engine.Chars.Decimal.{from_chars-to_chars}

from_chars_example :
    from_chars (2 ^ 32) (to_chars 1024 ++ soh ∷ []) ≡ some (1024, length (to_chars 1024))
from_chars_example = from_chars-to_chars (2 ^ 32) 1024 (soh ∷ []) (omega arith) refl
