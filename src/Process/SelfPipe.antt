-- ===== src/Process/SelfPipe.antt =====
-- src/util/SelfPipe.cpp: a pipe whose bytes only say that there is something to do.
use musi_tui.Base.{ℕ, ◌+◌, ◌<◌, ◌≡◌, Bool, true, not, ltb, if◌then◌else◌, arith}

-- Whether the pipe was made, the bytes that wait in it, and how many fit.
pub record SelfPipe : Type 0 where
  pub valid : Bool
  pub pending : ℕ
  pub capacity : ℕ

-- The constructor: `pipe` makes a pipe of some capacity or fails.
unfoldable pub new_pipe : Bool → ℕ → SelfPipe
new_pipe made capacity = record { valid = made; pending = 0; capacity = capacity }

-- A write to a full pipe does nothing.
unfoldable pub notify : SelfPipe → SelfPipe
notify p =
    if not p.valid
    then p
    else if ltb p.pending p.capacity
    then record p { pending = p.pending + 1 }
    else p

-- Reads until nothing is left.
unfoldable pub drain : SelfPipe → SelfPipe
drain p = record p { pending = 0 }

-- `poll` finds something to read.
abbrev pub is_readable : SelfPipe → Bool
is_readable p = ltb 0 p.pending

-- No wake-up is lost, also where the pipe is full.
pub notify_wakes : (p : SelfPipe) → p.valid ≡ true → 0 < p.capacity → is_readable (notify p) ≡ true
unfolding notify
notify_wakes p made room = ground arith
