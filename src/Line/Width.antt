-- ===== src/Line/Width.antt =====
-- Display widths: `char_width`, `str_width`, `is_wide` and `display_char` of src/line.rs.
use ish.Prelude.{ℕ, ◌+◌, Bool, false, ◌||◌, List, [], ◌∷◌, ltb, ◌==◌, if◌then◌else◌}
use ish.Utf8.{Str, between, is_control}

unfoldable pub in_ranges : List (ℕ × ℕ) → ℕ → Bool
in_ranges [] c = false
in_ranges ((lo, hi) ∷ rest) c = between lo hi c || in_ranges rest c

-- The ranges of `is_wide`, in the order of the source.
abbrev wide_ranges : List (ℕ × ℕ)
wide_ranges =
    (0x1100, 0x115F)
    ∷ (0x231A, 0x231B)
    ∷ (0x2329, 0x232A)
    ∷ (0x23E9, 0x23F3)
    ∷ (0x23F8, 0x23FA)
    ∷ (0x25FD, 0x25FE)
    ∷ (0x2614, 0x2615)
    ∷ (0x2648, 0x2653)
    ∷ (0x267F, 0x267F)
    ∷ (0x2693, 0x2693)
    ∷ (0x26A1, 0x26A1)
    ∷ (0x26AA, 0x26AB)
    ∷ (0x26BD, 0x26BE)
    ∷ (0x26C4, 0x26C5)
    ∷ (0x26CE, 0x26CE)
    ∷ (0x26D4, 0x26D4)
    ∷ (0x26EA, 0x26EA)
    ∷ (0x26F2, 0x26F3)
    ∷ (0x26F5, 0x26F5)
    ∷ (0x26FA, 0x26FA)
    ∷ (0x26FD, 0x26FD)
    ∷ (0x2702, 0x2702)
    ∷ (0x2705, 0x2705)
    ∷ (0x2708, 0x270D)
    ∷ (0x270F, 0x270F)
    ∷ (0x2712, 0x2712)
    ∷ (0x2714, 0x2714)
    ∷ (0x2716, 0x2716)
    ∷ (0x271D, 0x271D)
    ∷ (0x2721, 0x2721)
    ∷ (0x2728, 0x2728)
    ∷ (0x2733, 0x2734)
    ∷ (0x2744, 0x2744)
    ∷ (0x2747, 0x2747)
    ∷ (0x274C, 0x274C)
    ∷ (0x274E, 0x274E)
    ∷ (0x2753, 0x2755)
    ∷ (0x2757, 0x2757)
    ∷ (0x2763, 0x2764)
    ∷ (0x2795, 0x2797)
    ∷ (0x27A1, 0x27A1)
    ∷ (0x27B0, 0x27B0)
    ∷ (0x27BF, 0x27BF)
    ∷ (0x2934, 0x2935)
    ∷ (0x2B05, 0x2B07)
    ∷ (0x2B1B, 0x2B1C)
    ∷ (0x2B50, 0x2B50)
    ∷ (0x2B55, 0x2B55)
    ∷ (0x2E80, 0x303E)
    ∷ (0x3040, 0x33BF)
    ∷ (0x3400, 0x4DBF)
    ∷ (0x4E00, 0xA4CF)
    ∷ (0xA960, 0xA97C)
    ∷ (0xAC00, 0xD7A3)
    ∷ (0xF900, 0xFAFF)
    ∷ (0xFE10, 0xFE19)
    ∷ (0xFE30, 0xFE6B)
    ∷ (0xFF01, 0xFF60)
    ∷ (0xFFE0, 0xFFE6)
    ∷ (0x1F004, 0x1F004)
    ∷ (0x1F0CF, 0x1F0CF)
    ∷ (0x1F170, 0x1F171)
    ∷ (0x1F17E, 0x1F17F)
    ∷ (0x1F18E, 0x1F18E)
    ∷ (0x1F191, 0x1F19A)
    ∷ (0x1F1E0, 0x1F1FF)
    ∷ (0x1F200, 0x1F202)
    ∷ (0x1F210, 0x1F23B)
    ∷ (0x1F240, 0x1F248)
    ∷ (0x1F250, 0x1F251)
    ∷ (0x1F260, 0x1F265)
    ∷ (0x1F300, 0x1F9FF)
    ∷ (0x1FA00, 0x1FA6F)
    ∷ (0x1FA70, 0x1FAFF)
    ∷ (0x20000, 0x2FA1F)
    ∷ (0x30000, 0x3134F)
    ∷ []

unfoldable pub is_wide : ℕ → Bool
unfolding in_ranges
is_wide c = in_ranges wide_ranges c

-- The formatting characters and combining marks that take no cell.
abbrev invisible_ranges : List (ℕ × ℕ)
invisible_ranges =
    (0x200B, 0x200F)
    ∷ (0x2028, 0x202E)
    ∷ (0x2060, 0x2064)
    ∷ (0xFEFF, 0xFEFF)
    ∷ (0xFE00, 0xFE0F)
    ∷ (0x1F3FB, 0x1F3FF)
    ∷ (0x0300, 0x036F)
    ∷ (0x1AB0, 0x1AFF)
    ∷ (0x1DC0, 0x1DFF)
    ∷ (0x20D0, 0x20FF)
    ∷ (0xFE20, 0xFE2F)
    ∷ []

unfoldable pub char_width : ℕ → ℕ
unfolding is_control is_wide
char_width c =
    if ltb c 0x7F
    then 1
    else if is_control c
    then 1
    else if c == 0xAD
    then 0
    else if in_ranges invisible_ranges c
    then 0
    else if is_wide c
    then 2
    else 1

abbrev zero_width_joiner : ℕ
zero_width_joiner = 0x200D

-- The loop of `str_width`: a character behind a joiner takes no cell.
unfoldable pub width_from : Bool → Str → ℕ
unfolding char_width
width_from after_joiner [] = 0
width_from after_joiner (c ∷ s) =
    (if after_joiner then 0 else char_width c) + width_from (c == zero_width_joiner) s

unfoldable pub str_width : Str → ℕ
unfolding width_from
str_width s = width_from false s

unfoldable pub display_char : ℕ → ℕ
unfolding is_control
display_char c = if is_control c then 0xFFFD else c
