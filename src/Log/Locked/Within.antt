-- ===== src/Log/Locked/Within.antt =====
-- Any calls of `WriteRunInfo` (common/writeRunInfo.cpp) under their mutex: how large the files become.
use websocket_test.Base.{ℕ, ◌+◌, ◌≤◌, ◌≡◌, true, false, List, length}
use websocket_test.Log.{max_log_size}
use websocket_test.Log.Sizes.{IsWithin}
use websocket_test.Log.Calls.{IsCall, IsNamed}
use websocket_test.Log.Locked.{failure_line, Op, calls_log, enters, stats, days}
use websocket_test.Log.Locked.Refine.{Plain}

-- At most `k` bytes at once in the files that are rotated, at a rename that succeeds. A statistics file that
-- cannot be opened has a line written on it; the lines of the statistics and the day files are as long as they like.
abbrev pub IsOp : ℕ → Op → Type 0
IsOp k (calls_log c) = IsCall k c
IsOp k (enters e s line) = (s.renames ≡ true) × (length line ≤ k)
IsOp k (stats kind true s m text error) = Unit {0}
IsOp k (stats kind false s m text error) =
    (s.renames ≡ true)
    × ((path : List ℕ) → length path ≤ 255 → length (failure_line m path error) ≤ k)
IsOp k (days opens m name text) = Unit {0}

-- The names fit, and the files that are rotated are not too long.
abbrev IsKept : ℕ → Plain → Type 0
IsKept k p = IsNamed p.log × IsWithin (max_log_size + k) p.log.files
