-- ===== src/Catch/Console.antt =====
-- `main`: spam Ctrl-C at the panel and watch its output for the prompt of u-boot. Times are in
-- milliseconds.
use poly_firmware_build.Base.{
  ℕ, ◌+◌, ◌-◌, Bool, not, ◌||◌, none, some, List, [], ◌∷◌, ◌++◌, ltb, leb, if◌then◌else◌, Bytes,
  codes, length, drop, take, occurs, starts_with, Text, decimal,
}
use poly_firmware_build.Host.{Error, ok, raise}
use poly_firmware_build.Catch.Socket.{Event}
use poly_firmware_build.Catch.Frame.{binary_frame}
use poly_firmware_build.Catch.Connect.{ws_connect}
use poly_firmware_build.Catch.Receive.{ws_recv_all_available}

-- `sock.sendall`: all is sent, or `BlockingIOError` or another `OSError` behind so many bytes of it.
pub data Sending : Type 0 where
  sent : Sending
  blocked broken : ℕ → Sending

-- What a round of the loop finds: the clock of the loop's test, whether the socket is readable, what
-- has newly come to the socket, the clock before the sending, four random bytes, and how sending ends.
pub record Tick : Type 0 where
  pub clock : ℕ
  pub readable : Bool
  pub events : List Event
  pub now : ℕ
  pub mask : Bytes
  pub sending : Sending

-- The variables of the loop, the part of the socket not yet read, and the bytes sent.
pub record Console : Type 0 where
  pub rx_buf : Bytes
  pub leftover : Bytes
  pub socket : List Event
  pub sends : ℕ
  pub next_send : ℕ
  pub written : Bytes

-- The loop's start, with what `ws_connect` returned and the clock.
abbrev pub start : Bytes → List Event → ℕ → Console
start leftover socket now = record {
  rx_buf = [];
  leftover = leftover;
  socket = socket;
  sends = 0;
  next_send = now;
  written = [];
}

-- A round goes on, leaves the loop for an exit status, or ends in an exception. `stuck` stands for
-- a call of `ws_recv_all_available` that does not return.
pub data Turn : Type 0 where
  on : Console → Turn
  exit : ℕ → Console → Turn
  crash : Error → Turn
  stuck : Turn

abbrev pub burst_once : Bytes
burst_once = 3 ∷ b' ' ∷ 13 ∷ []

abbrev pub burst : Bytes
burst =
    burst_once
    ++ (burst_once
        ++ (burst_once
            ++ (burst_once ++ (burst_once ++ (burst_once ++ (burst_once ++ burst_once))))))

abbrev pub send_interval : ℕ
send_interval = 20

-- `b[-n:]`
abbrev pub last_bytes : ℕ → Bytes → Bytes
last_bytes n b = drop (length b - n) b

-- The pattern `(u-boot=> |^=> )`; without a flag `^` is the start of what is searched.
unfoldable pub prompt_found : Bytes → Bool
prompt_found tail = occurs (codes "u-boot=> ") tail || starts_with (codes "=> ") tail

-- `del rx_buf[:len(rx_buf) - 8192]` where it is longer than 16384.
unfoldable pub trimmed : Bytes → Bytes
trimmed b = if ltb 16384 (length b) then last_bytes 8192 b else b

-- The second half of a round.
unfoldable pub send_burst : Tick → Console → Turn
send_burst t c = if not (leb c.next_send t.now) then on c else elim (binary_frame t.mask burst) [
  | raise e ↦ crash e
  | ok frame ↦ elim t.sending [
    | sent ↦ on (record c {
      sends = c.sends + 1;
      next_send = t.now + send_interval;
      written = c.written ++ frame;
    })
    | blocked n ↦ on (record c { written = c.written ++ take n frame })
    | broken n ↦ exit 1 (record c { written = c.written ++ take n frame })
  ]
]

-- The test for the prompt, where data came, and then the second half.
unfoldable pub take_data : Tick → Console → Bytes → Turn
take_data t c [] = send_burst t c
take_data t c (b ∷ bs) =
    let c' = record c { rx_buf = trimmed (c.rx_buf ++ b ∷ bs) } in
    if prompt_found (last_bytes 200 c'.rx_buf) then exit 0 c' else send_burst t c'

unfoldable pub receive_tick : Tick → Console → Turn
receive_tick t c = elim (ws_recv_all_available c.leftover c.socket) [
  | none ↦ stuck
  | some (raise e) ↦ crash e
  | some (ok r) ↦ take_data t (record c { leftover = r.leftover; socket = r.events }) r.payload
]

-- One round of the loop.
unfoldable pub turn : ℕ → Tick → Console → Turn
turn deadline t c =
    let c' = record c { socket = c.socket ++ t.events } in
    if not (ltb t.clock deadline)
    then exit 1 c'
    else if t.readable
    then receive_tick t c'
    else send_burst t c'

-- The loop over the rounds given; `on` is that it has not ended with them.
unfoldable pub watch : ℕ → List Tick → Console → Turn
watch deadline [] c = on c
watch deadline (t ∷ ts) c = elim (turn deadline t c) [
  | on c' ↦ watch deadline ts c'
  | exit status c' ↦ exit status c'
  | crash e ↦ crash e
  | stuck ↦ stuck
]

-- `args.port` of the probe's path; `next_send` is read with the same clock as `start`.
unfoldable pub ws_path : ℕ → Text
ws_path port = codes "/uart/" ++ (decimal port ++ codes "/ws")

-- `main` behind the argument parser: the probe's host and port, the panel's port, the timeout in
-- milliseconds, the key of the handshake, what the socket gives to the handshake, the clock at the
-- start of the loop, and its rounds.
unfoldable pub main : Text → ℕ → ℕ → ℕ → Text → List Event → ℕ → List Tick → Turn
main host host_port port total_timeout key response begun ticks =
    elim (ws_connect (ws_path port) host host_port key response).1 [
      | raise e ↦ crash e
      | ok (leftover, socket) ↦ watch (begun + total_timeout) ticks (start leftover socket begun)
    ]
