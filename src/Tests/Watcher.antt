-- ===== src/Tests/Watcher.antt =====
-- The watcher on a line that shows the banner and then the echo of the command.
use poly_firmware_build.Watcher.Failure.{Broken-writes}
use poly_firmware_build.Watcher.Trace.{states, writes}
use poly_firmware_build.Base.{
  ℕ, List, ◌∷◌, ◌++◌, Bytes, none, some, ◌≡◌, refl, [], arith, occurs, starts_with,
}
use poly_firmware_build.Watcher.{
  Action, write, sleep, state, Broken, write_fails, banner, idle, init, round, System, begin,
  further, one_round, read_in, extended, advance, in_fastboot, fastboot_command,
}
use poly_firmware_build.Watcher.Order.{lines, written, IsOrdered, Reach-IsOrdered}
use poly_firmware_build.Watcher.Progress.{rank, rounds, rounds_end_idle}

abbrev interrupted : System
interrupted = round banner 5 (init 0)

abbrev commanded : System
commanded = round [] 2000 interrupted

-- The echo of the command is taken for fastboot itself.
abbrev echoed : System
echoed = round fastboot_command 2500 commanded

echoed-idle : echoed.watcher.phase ≡ idle
unfolding round read_in extended advance in_fastboot occurs starts_with
echoed-idle = refl

interrupted-rank : rank interrupted.watcher.phase ≡ 1
unfolding round read_in extended advance occurs starts_with
interrupted-rank = refl

interrupted-time : interrupted.watcher.phase_t ≡ 5
unfolding round read_in extended advance occurs starts_with
interrupted-time = refl

Reach-IsOrdered_example :
    IsOrdered echoed.watcher.phase echoed.watcher.buf echoed.trace echoed.heard
Reach-IsOrdered_example = Reach-IsOrdered {begun = 0} (
    further
      (further (further begin (one_round (init 0) (some banner) 5))
        (one_round interrupted none 2000))
      (one_round commanded (some fastboot_command) 2500))

-- Rounds 50 ms apart between the two that count.
abbrev waiting : List (Bytes × ℕ)
waiting = ([], 900) ∷ ([], 950) ∷ []

rounds_end_idle_example :
    (rounds [] (
      round [] 9101 (
        rounds
          (([], 1150) ∷ ([], 9050) ∷ [])
          (round [] 1100 (rounds waiting interrupted))))).watcher.phase
    ≡ idle
rounds_end_idle_example =
    rounds_end_idle interrupted waiting (([], 1150) ∷ ([], 9050) ∷ []) [] [] [] 1100 9101
      (omega (arith, interrupted-rank)) (omega (arith, interrupted-time)) (omega arith)
      (omega arith)

-- The write of the command fails.
abbrev before_command : List Action
before_command = write (13 ∷ 13 ∷ []) ∷ sleep 100 ∷ []

command_fails : Broken interrupted (interrupted.trace ++ before_command)
unfolding round read_in extended advance occurs starts_with
command_fails =
    write_fails none 2000 before_command
      (sleep 500 ∷ write (13 ∷ []) ∷ state "FASTBOOT_CMD_SENT" ∷ sleep 50 ∷ []) fastboot_command
      refl

Broken-writes_example :
    (states (interrupted.trace ++ before_command) ≡ lines interrupted.watcher.phase)
    × ((made : List Bytes) × (writes (interrupted.trace ++ before_command)
          ≡ written interrupted.watcher.phase ++ made))
    × ((b : Bytes) × (later : List Bytes) × (written idle
          ≡ writes (interrupted.trace ++ before_command) ++ b ∷ later))
Broken-writes_example =
    Broken-writes {begun = 0} (further begin (one_round (init 0) (some banner) 5)) command_fails
