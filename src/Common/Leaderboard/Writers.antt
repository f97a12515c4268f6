-- ===== src/Common/Leaderboard/Writers.antt =====
-- The single writer of src/common/leaderboard.h.
use f1_telemetry.Prelude.{ℕ, ◌≡◌, refl, some, List, [], ◌∷◌, arith, ◌==◌, if◌then◌else◌}
use f1_telemetry.Prelude.Result.{Result, ok, throws, Exception}
use f1_telemetry.Common.Types.{DriverState}
use f1_telemetry.Common.Leaderboard.{Leaderboard, new_board, update}

module _ {F : Type 0} where
  -- A call that throws leaves the board as it was.
  abbrev pub after : Leaderboard F → Result (Leaderboard F) → Leaderboard F
  after b (ok c) = c
  after b (throws e) = b

  pub run_updates : Leaderboard F → List (ℕ × List (DriverState F)) → Leaderboard F
  run_updates b [] = b
  run_updates b ((tid, standings) ∷ calls) = run_updates (after b (update b tid standings)) calls

  -- The standings of the last of the calls that thread `w` makes, or `now` without one.
  abbrev pub last_by :
      ℕ → List (DriverState F) → List (ℕ × List (DriverState F)) → List (DriverState F)
  last_by w now [] = now
  last_by w now ((tid, standings) ∷ calls) = last_by w (if w == tid then standings else now) calls

  -- A call by another thread throws, and one by the writer does not.
  pub update_throws :
      (b : Leaderboard F) (w tid : ℕ) (standings : List (DriverState F))
      → b.writer_id ≡ some w
      → update b tid standings ≡ (
          if w == tid
          then ok (record { standings = standings; writer_id = some w })
          else throws Exception.logic_error)
  unfolding update
  update_throws b w tid standings e = ground arith

  abbrev board : ℕ → List (DriverState F) → Leaderboard F
  board w standings = record { standings = standings; writer_id = some w }

  after-update :
      (b : Leaderboard F) (w tid : ℕ) (standings : List (DriverState F))
      → b.writer_id ≡ some w
      → after b (update b tid standings) ≡ board w (if w == tid then standings else b.standings)
  after-update b w tid standings e = ground (arith, update_throws b w tid standings e)

  claimed :
      (standings : List (DriverState F)) (w : ℕ) (calls : List (ℕ × List (DriverState F)))
      → run_updates (board w standings) calls ≡ board w (last_by w standings calls)
  unfolding run_updates
  claimed now w [] = refl
  claimed now w ((tid, standings) ∷ calls) =
      rw (after-update (board w now) w tid standings refl)
        (claimed (if w == tid then standings else now) w calls)

  -- From a new board, whatever threads call `update` in whatever order: the first caller stays the
  -- writer for good, and the board shows the standings of its latest call.
  pub single_writer :
      (w : ℕ) (standings : List (DriverState F)) (calls : List (ℕ × List (DriverState F)))
      → run_updates new_board ((w, standings) ∷ calls)
        ≡ record { standings = last_by w standings calls; writer_id = some w }
  unfolding run_updates update new_board
  single_writer w standings calls = claimed standings w calls
