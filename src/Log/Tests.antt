-- ===== src/Log/Tests.antt =====
-- Concrete texts of core/log/logger.c.
use bin_tools.Base.{[], ◌∷◌, some, none, ◌≡◌, refl, arith}
use bin_tools.Log.{fmt_x, fmt_u, fmt_bytes, fmt_mx, sprintf, check_handle}
use bin_tools.Log.Numbers.{IsText, fmt_u-IsText}

fmt_u-IsText_example : IsText 10 1024 7 [] (fmt_u 7 1024 [])
fmt_u-IsText_example = fmt_u-IsText 7 1024 [] (omega arith)

-- `%d` does not end the format here, and the comma behind it is copied.
a_format : sprintf (37 ∷ 100 ∷ 44 ∷ 46 ∷ []) 42 [] ≡ some (52 ∷ 50 ∷ 44 ∷ 46 ∷ [])
unfolding sprintf
a_format = refl

-- A number of eight digits does not fit.
too_long : fmt_x 7 0x1000_0000 [] 32 ≡ none
unfolding fmt_x
too_long = refl

both_orders : fmt_bytes 32 0x12ab 1 ≡ 49 ∷ 50 ∷ 97 ∷ 98 ∷ []
unfolding fmt_bytes
both_orders = refl

swapped : fmt_mx 32 0x12ab 0 2 ≡ 97 ∷ 98 ∷ 49 ∷ 50 ∷ []
unfolding fmt_mx
swapped = refl

misc_log : check_handle (109 ∷ 105 ∷ 115 ∷ 99 ∷ 46 ∷ 108 ∷ 111 ∷ 103 ∷ []) ≡ 2
unfolding check_handle
misc_log = refl
