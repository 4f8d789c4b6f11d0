-- ===== src/Std/Text/Tests.antt =====
-- The words of a short text, for core/std/string.c.
use bin_tools.Base.{[], ◌∷◌, ◌≡◌, refl}
use bin_tools.Std.Text.{next, strtok}

strtok_words : strtok (b'a' ∷ b'b' ∷ 0x20 ∷ b'c' ∷ []) ≡ next (b'b' ∷ b'a' ∷ []) (b'c' ∷ [])
unfolding strtok
strtok_words = refl
