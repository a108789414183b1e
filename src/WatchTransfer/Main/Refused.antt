-- ===== src/WatchTransfer/Main/Refused.antt =====
-- The options with which watch_and_transfer does not start.
use jit_dt.Common.{◌+◌, ◌≤◌, ◌<◌, ◌≡◌, none, length}
use jit_dt.LockFile.{path_max}
use jit_dt.Trans.{split_colon}
use jit_dt.WatchTransfer.Main.{Opt, start, notify}

-- The options that make main return -1.
abbrev pub IsRefused : Opt → Type 0
IsRefused (start a) = path_max ≤ length a + 1
IsRefused (notify a) = (length a < path_max) × (split_colon a ≡ none)
IsRefused o = ⊥
