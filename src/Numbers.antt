-- ===== src/Numbers.antt =====
-- Signed integers of the program (`int`), compared but not computed with, and units of time.
use cross_session_codex.Common.{ℕ, ◌^◌, Bool, false, ltb, ◌==◌}
use cross_session_codex.Json.{ℤ, pos, negsuc}

abbrev pub int_eq : ℤ → ℤ → Bool
int_eq (pos a) (pos b) = a == b
int_eq (negsuc a) (negsuc b) = a == b
int_eq _ _ = false

-- 0 < n
abbrev pub is_positive : ℤ → Bool
is_positive (pos n) = ltb 0 n
is_positive (negsuc n) = false

-- Times are whole numbers of nanoseconds since the epoch.
abbrev pub second : ℕ
second = 10 ^ 9
