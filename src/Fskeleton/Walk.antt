-- ===== src/Fskeleton/Walk.antt =====
-- internal/fskeleton/walk.go: the iterator over the files. It takes the lock for one round at a time,
-- so that files may be added between the rounds.
pub mod Names
pub mod Order
use be_hierarchic.Prelude.{ℕ, suc, Bool, true, false, not, ◌||◌, ltb, if◌then◌else◌}
use be_hierarchic.Intern.Path.{FilePath}
use be_hierarchic.Fskeleton.Mode.{stdlib}
use be_hierarchic.Fskeleton.State.{Fs}

-- One round of `Walk` from `i`: a path and its mode with the next `i`, the end, or a wait.
pub data Round : Type 0 where
  yields : FilePath → ℕ → ℕ → Round
  ends : Round
  waits : Round

unfoldable pub walk_round : Fs → Bool → ℕ → Round
walk_round fs wait_full i =
    if ltb i fs.len
    then yields (fs.files i).name (stdlib (fs.files i).mode) (suc i)
    else if not wait_full || fs.done
    then ends
    else waits
