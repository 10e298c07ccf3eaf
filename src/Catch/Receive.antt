-- ===== src/Catch/Receive.antt =====
-- `ws_recv_all_available`.
use poly_firmware_build.Base.{
  ℕ, zero, suc, ◌+◌, Bool, ◌||◌, Option, none, some, List, [], ◌++◌, leb, ◌==◌, if◌then◌else◌,
  Bytes, length,
}
use poly_firmware_build.Host.{Result, ok, raise, bind}
use poly_firmware_build.Catch.Socket.{Event, pending, poll}
use poly_firmware_build.Catch.Frame.{complete, partial, Read, read_frame}

-- The value returned, with the calls of `recv` that are left for later.
pub record Received : Type 0 where
  pub payload : Bytes
  pub leftover : Bytes
  pub events : List Event

-- One round of the loop leaves it, or goes on with `out`, `buf` and the socket.
pub data Round : Type 0 where
  leave : Received → Round
  again : Bytes → Bytes → List Event → Round

-- `opcode in (0x1, 0x2, 0x0)`
abbrev pub is_data : ℕ → Bool
is_data opcode = opcode == 1 || opcode == 2 || opcode == 0

abbrev pub max_bytes : ℕ
max_bytes = 65536

-- The end of a round, on the frame it read.
abbrev pub take_in : Bytes → Read → Round
take_in out (partial buf es) = leave (record { payload = out; leftover = buf; events = es })
take_in out (complete opcode payload buf es) =
    let out' = if is_data opcode then out ++ payload else out in
    if opcode == 8
    then leave (record { payload = out; leftover = []; events = es })
    else if leb max_bytes (length out')
    then leave (record { payload = out'; leftover = buf; events = es })
    else again out' buf es

unfoldable pub receive_round : Bytes → Bytes → List Event → Result Round
receive_round out buf es = bind (poll buf es) λ (on, buf', es').
    if on
    then bind (read_frame buf' es') (λ r. ok (take_in out r))
    else ok (leave (record { payload = out; leftover = buf'; events = es' }))

-- The loop, on fuel; `none` is that the fuel is used up.
unfoldable pub receive_loop : ℕ → Bytes → Bytes → List Event → Option (Result Received)
receive_loop zero out buf es = none
receive_loop (suc fuel) out buf es = elim (receive_round out buf es) [
  | raise e ↦ some (raise e)
  | ok (leave r) ↦ some (ok r)
  | ok (again out' buf' es') ↦ receive_loop fuel out' buf' es'
]

-- Each round that goes on takes a frame off the stream, so its length is enough fuel.
unfoldable pub ws_recv_all_available : Bytes → List Event → Option (Result Received)
ws_recv_all_available leftover es =
    receive_loop (length (leftover ++ pending es) + 1) [] leftover es
