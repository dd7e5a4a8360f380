-- ===== src/Task/Pick.antt =====
-- src/ttask_core.h: the round-robin pick over the task table, and the count of ready tasks.
pub mod Best
use trait_os.Base.{ℕ, zero, suc, ◌+◌, ◌%◌, ltb, ◌==◌, if◌then◌else◌, Bool, true, false, not, ◌||◌}
use trait_os.Base.{Option, none, some}

-- The states of src/ttask.h; the scheduler itself never sets `running`.
pub data State : Type 0 where
  free ready running exited blocked : State

abbrev pub is_ready : State → Bool
is_ready ready = true
is_ready _ = false

-- `int` indices and priorities: `none` stands for the -1 that they start from.
abbrev pub is_index : ℕ → Option ℕ → Bool
is_index i none = false
is_index i (some j) = i == j

abbrev pub above : ℕ → Option ℕ → Bool
above p none = true
above p (some q) = ltb q p

-- The loop's `best` and `best_prio`.
pub record Scan : Type 0 where
  pub best : Option ℕ
  pub best_prio : Option ℕ

-- The index that round `i` looks at.
abbrev pub slot : ℕ → ℕ → ℕ → ℕ
slot current count i = (current + 1 + i) % count

module _ (current : ℕ) (state : ℕ → State) (prio : ℕ → ℕ) (count : ℕ) (exclude : Option ℕ) where
  unfoldable pub pick_round : ℕ → Scan → Scan
  pick_round i s =
      let idx = slot current count i in
      if is_index idx exclude || not (is_ready (state idx))
      then s
      else if above (prio idx) s.best_prio
      then record { best = some idx; best_prio = some (prio idx) }
      else s

  -- `rounds` rounds of the loop, from round `i` on.
  unfoldable pub pick_loop : ℕ → ℕ → Scan → Scan
  pick_loop zero i s = s
  pick_loop (suc rounds) i s = pick_loop rounds (i + 1) (pick_round i s)

  unfoldable pub pick_index_ex : Option ℕ
  pick_index_ex = (pick_loop count 0 (record { best = none; best_prio = none })).best

unfoldable pub pick_index : ℕ → (ℕ → State) → (ℕ → ℕ) → ℕ → Option ℕ
pick_index current state prio count = pick_index_ex current state prio count none

unfoldable pub ready_count : (ℕ → State) → ℕ → ℕ
ready_count state zero = 0
ready_count state (suc count) =
    let n = ready_count state count in if is_ready (state count) then n + 1 else n
