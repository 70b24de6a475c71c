-- ===== src/Console/Pages/Bounds/Tests.antt =====
-- A text of eight characters, cut to six.
use ruchat.Prelude.{◌≤◌, ◌≡◌, arith}
use ruchat.Console.Pages.Texts.{char_count, truncate_text}
use ruchat.Console.Pages.Bounds.{truncate_text-char_count}

truncate_text-char_count_example :
    (char_count (truncate_text "12345678" 6) ≤ 6)
    × (char_count "12345678" ≤ 6 → truncate_text "12345678" 6 ≡ "12345678")
truncate_text-char_count_example = truncate_text-char_count "12345678" 6 (omega arith)
