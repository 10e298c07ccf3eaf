-- ===== src/Watcher.antt =====
-- smoke/uboot_watch.py: waits for the banner of u-boot on a serial line and starts fastboot. Times are
-- in milliseconds.
pub mod Trace
pub mod Order
pub mod Progress
pub mod Failure
use poly_firmware_build.Base.{
  Option, none, some, ◌≡◌, ℕ, zero, suc, ◌+◌, ◌-◌, Bool, true, false, ◌&&◌, ◌||◌, List, [], ◌∷◌,
  ◌++◌, ltb, leb, map, if◌then◌else◌, Bytes, String, codes, length, drop, occurs,
}

pub data Phase : Type 0 where
  wait_uboot at_uboot fastboot_sent idle : Phase

-- The variables of the loop.
pub record Watcher : Type 0 where
  pub phase : Phase
  pub phase_t : ℕ
  pub buf : Bytes

-- What the program does to the log, the serial line and the file of its state.
pub data Action : Type 0 where
  log write : Bytes → Action
  drain : Action
  sleep : ℕ → Action
  state : String → Action

abbrev pub banner : Bytes
banner = codes "Hit any key to stop autoboot"

abbrev pub interrupt : Bytes
interrupt = 3 ∷ 32 ∷ 13 ∷ []

abbrev pub fastboot_command : Bytes
fastboot_command = codes "fastboot 0" ++ 13 ∷ []

-- `for _ in range(n)` of the writes that stop the autoboot.
unfoldable pub spam : ℕ → List Action
spam zero = []
spam (suc n) = write interrupt ∷ sleep 25 ∷ spam n

-- `buf.lower()`
abbrev pub lower : Bytes → Bytes
lower b = map (λ c. if leb 65 c && leb c 90 then c + 32 else c) b

-- The buffer with new data behind it; a long one is cut to its last 8192 bytes.
unfoldable pub extended : Bytes → Bytes → Bytes
extended buf data_in =
    let all = buf ++ data_in in if ltb 16384 (length all) then drop (length all - 8192) all else all

unfoldable pub in_fastboot : Watcher → ℕ → Bool
in_fastboot w now =
    occurs (codes "Listening for") w.buf
    || occurs (codes "fastboot") (lower w.buf)
    || ltb 8000 (now - w.phase_t)

-- The part of a round behind the reading, by the phase.
unfoldable pub advance : ℕ → Watcher → Watcher × List Action
advance now w = elim w.phase [
  | wait_uboot ↦
      if occurs banner w.buf
      then (
        record { phase = at_uboot; phase_t = now; buf = [] },
        spam 120 ++ drain ∷ state "AT_UBOOT_PROMPT" ∷ [],
      )
      else (w, [])
  | at_uboot ↦
      if ltb 1000 (now - w.phase_t)
      then (
        record { phase = fastboot_sent; phase_t = now; buf = [] },
        write (13 ∷ 13 ∷ [])
            ∷ sleep 100
            ∷ write fastboot_command
            ∷ sleep 500
            ∷ write (13 ∷ [])
            ∷ state "FASTBOOT_CMD_SENT"
            ∷ [],
      )
      else (w, [])
  | fastboot_sent ↦
      if in_fastboot w now
      then (record w { phase = idle; phase_t = now }, state "IN_FASTBOOT_MODE" ∷ [])
      else (w, [])
  | idle ↦ (w, [])
]

-- The reading of a round: what `ser.read` returned.
unfoldable pub read_in : Bytes → Watcher → Watcher × List Action
read_in [] w = (w, [])
read_in (b ∷ bs) w = (record w { buf = extended w.buf (b ∷ bs) }, log (b ∷ bs) ∷ [])

-- The whole program so far: its variables, all it did, and all the data it read.
pub record System : Type 0 where
  pub watcher : Watcher
  pub trace : List Action
  pub heard : Bytes

abbrev pub init : ℕ → System
init now = record {
  watcher = record { phase = wait_uboot; phase_t = now; buf = [] };
  trace = state "STARTING" ∷ [];
  heard = [];
}

-- One round of the loop, on the data read and the clock.
unfoldable pub round : Bytes → ℕ → System → System
round data_in now s =
    let (taken, logged) = read_in data_in s.watcher in
    let (next, acts) = advance now taken in
    record {
      watcher = next;
      trace = s.trace ++ (logged ++ (acts ++ sleep 50 ∷ []));
      heard = s.heard ++ data_in;
    }

-- `_Ser.read`: what the probe's HTTP interface returned, and nothing where the call raised.
abbrev pub ser_read : Option Bytes → Bytes
ser_read none = []
ser_read (some body) = body

-- The serial line and the clock choose each round.
pub data Step : System → System → Type 0 where
  one_round :
      (s : System) (reading : Option Bytes) (now : ℕ) → Step s (round (ser_read reading) now s)

-- `_Ser.write` raised: the program ends in a round, with what it did before the write of `b`.
pub data Broken (s : System) : List Action → Type 0 where
  write_fails :
      (reading : Option Bytes) (now : ℕ) (before rest : List Action) (b : Bytes)
      → (round (ser_read reading) now s).trace ≡ s.trace ++ (before ++ write b ∷ rest)
      → Broken s (s.trace ++ before)

pub data Reach (now : ℕ) : System → Type 0 where
  begin : Reach now (init now)
  further : {s t : System} → Reach now s → Step s t → Reach now t
