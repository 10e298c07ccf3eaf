-- ===== src/Tests/Catch.antt =====
-- The interceptor on short streams.
use poly_firmware_build.Catch.Termination.{HasEnded, main-HasEnded}
use poly_firmware_build.Base.{
  ◌-◌, ◌≤◌, ℕ, ◌+◌, ◌*◌, ◌≤◌, ◌≡◌, refl, true, false, ◌⊎◌, inl, some, List, [], ◌∷◌, ◌++◌, arith,
  Bytes, codes, length, replicate, take, drop, occurs, starts_with, partition, decimal,
}
use poly_firmware_build.Host.{ok}
use poly_firmware_build.Pack.{pack, uint, of_uint}
use poly_firmware_build.Catch.Socket.{failed, Event, received, would_block, pending, need, poll}
use poly_firmware_build.Catch.Frame.{mask_from, binary_frame, read_frame}
use poly_firmware_build.Catch.Receive.{Received, receive_round, receive_loop, ws_recv_all_available}
use poly_firmware_build.Catch.Rfc.{Parses, take_frame}
use poly_firmware_build.Catch.Round.{IsReceived}
use poly_firmware_build.Catch.Stream.{ws_recv_all_available-IsReceived}
use poly_firmware_build.Catch.Codec.{binary_frame-take_frame}
use poly_firmware_build.Catch.Sent.{IsStream}
use poly_firmware_build.Catch.RoundTrip.{receive_calls, binary_frame-receive_calls}
use poly_firmware_build.Catch.Connect.{request, first_line, blank_line}
use poly_firmware_build.Catch.Handshake.{IsSteady}
use poly_firmware_build.Catch.Console.{
  blocked, Tick, Console, start, sent, on, exit, burst, last_bytes, prompt_found, trimmed,
  send_burst, take_data, receive_tick, turn, watch, main,
}
use poly_firmware_build.Catch.Watching.{IsTick, burst_frame}
use poly_firmware_build.Catch.Watch.{heard_in}
use poly_firmware_build.Catch.Safety.{watch_caught, watch_paced, watch-Parses, main_ends}

-- An unmasked frame of one byte, cut behind its first byte, and the first byte of another.
abbrev pieces : List Event
pieces = received (1 ∷ 65 ∷ 0x82 ∷ []) ∷ would_block ∷ []

receive_pieces :
    ws_recv_all_available (0x82 ∷ []) pieces
    ≡ some (ok (record { payload = 65 ∷ []; leftover = 0x82 ∷ []; events = [] }))
unfolding ws_recv_all_available receive_loop receive_round poll need read_frame take drop of_uint
receive_pieces = refl

ws_recv_all_available-IsReceived_example :
    (r : Received) × (ws_recv_all_available (0x82 ∷ []) pieces ≡ some (ok r))
    × IsReceived [] (0x82 ∷ 1 ∷ 65 ∷ 0x82 ∷ []) r
    × (length r.events ≤ length pieces - 1)
ws_recv_all_available-IsReceived_example = ws_recv_all_available-IsReceived (0x82 ∷ []) pieces tt

abbrev mask : Bytes
mask = 1 ∷ 2 ∷ 3 ∷ 4 ∷ []

abbrev two : Bytes
two = 65 ∷ 66 ∷ []

binary_frame-take_frame_example :
    (b : Bytes) × (binary_frame mask two ≡ ok b)
    × ((rest : Bytes) → take_frame (b ++ rest) ≡ some (record { opcode = 2; payload = two }, rest))
binary_frame-take_frame_example =
    binary_frame-take_frame mask two refl (omega arith) (omega arith) (omega arith)

abbrev two_sent : Bytes
two_sent = 0x82 ∷ 0x82 ∷ 1 ∷ 2 ∷ 3 ∷ 4 ∷ 64 ∷ 64 ∷ []

frame_of_two : binary_frame mask two ≡ ok two_sent
unfolding binary_frame pack uint mask_from
frame_of_two = refl

two-IsStream : IsStream ((mask, two) ∷ []) two_sent
two-IsStream = (two_sent, [], frame_of_two, refl, refl)

-- The frame in three pieces, with nothing there between them.
abbrev two_pieces : List Event
two_pieces =
    received (0x82 ∷ 0x82 ∷ 1 ∷ [])
    ∷ would_block
    ∷ received (2 ∷ 3 ∷ [])
    ∷ would_block
    ∷ received (4 ∷ 64 ∷ 64 ∷ [])
    ∷ []

binary_frame-receive_calls_example :
    receive_calls 6 [] [] two_pieces
    ≡ some (ok (record { payload = two; leftover = []; events = [] }))
binary_frame-receive_calls_example =
    binary_frame-receive_calls ((mask, two) ∷ []) [] two_pieces 6
      ((refl, omega arith, omega arith, omega arith), tt) two-IsStream tt (omega arith)
      (omega arith)

abbrev status_line : Bytes
status_line = codes "HTTP/1.1 101 OK"

abbrev response : List Event
response = received (status_line ++ 13 ∷ 10 ∷ 13 ∷ []) ∷ received (10 ∷ 0x82 ∷ []) ∷ []

response-partition : partition blank_line (pending response) ≡ some (status_line, 0x82 ∷ [])
unfolding partition starts_with drop
response-partition = refl

response-IsSteady : IsSteady response
response-IsSteady = tt

request_lines :
    request (codes "/ws") (codes "probe") 80 (codes "key")
    ≡ codes "GET /ws HTTP/1.1\r\nHost: probe:80\r\nUpgrade: websocket\r\n"
      ++ codes "Connection: Upgrade\r\nSec-WebSocket-Key: key\r\nSec-WebSocket-Version: 13\r\n\r\n"
unfolding request decimal
request_lines = refl

-- A round that hears the prompt, a round that sends, and a round at the deadline.
abbrev prompt : Tick
prompt = record {
  clock = 5;
  readable = true;
  events = received (0x81 ∷ 9 ∷ codes "u-boot=> ") ∷ [];
  now = 5;
  mask = mask;
  sending = sent;
}

abbrev quiet : Tick
quiet = record {
  clock = 1;
  readable = false;
  events = [];
  now = 1;
  mask = 0 ∷ 0 ∷ 0 ∷ 0 ∷ [];
  sending = sent;
}

abbrev late : Tick
late = record quiet { clock = 100; now = 100 }

abbrev caught : Console
caught = record (start [] [] 0) { rx_buf = codes "u-boot=> " }

watch-caught : watch 100 (prompt ∷ []) (start [] [] 0) ≡ exit 0 caught
unfolding watch turn receive_tick take_data ws_recv_all_available receive_loop receive_round poll
    need read_frame take drop of_uint trimmed prompt_found occurs starts_with
watch-caught = refl

prompt-IsTick : IsTick 100 prompt
prompt-IsTick = record { calm = tt; early = omega arith; four = refl; mask_bytes = omega arith }

watch_caught_example :
    prompt_found (last_bytes 200 (heard_in 100 (prompt ∷ []) (start [] [] 0))) ≡ true
watch_caught_example =
    watch_caught 0 100 [] [] tt (omega arith) 100 (prompt ∷ []) (prompt-IsTick, tt) caught
      watch-caught

abbrev after_quiet : Console
after_quiet = record (start [] [] 0) {
  sends = 1;
  next_send = 21;
  written = 0x82 ∷ 152 ∷ 0 ∷ 0 ∷ 0 ∷ 0 ∷ burst;
}

watch-quiet : watch 100 (quiet ∷ []) (start [] [] 0) ≡ on after_quiet
unfolding watch turn send_burst binary_frame pack uint mask_from
watch-quiet = refl

quiet-IsTick : IsTick 100 quiet
quiet-IsTick = record { calm = tt; early = omega arith; four = refl; mask_bytes = omega arith }

late-IsTick : IsTick 100 late
late-IsTick = record { calm = tt; early = omega arith; four = refl; mask_bytes = omega arith }

watch_paced_example : (length {A = ℕ} [] ≤ 16384) × (0 + 20 * 1 ≤ 100 + 20)
watch_paced_example =
    watch_paced 0 100 [] [] tt (omega arith) 100 (quiet ∷ []) (quiet-IsTick, tt) after_quiet
      (inl watch-quiet)

watch-Parses_example : Parses (after_quiet.written ++ []) (replicate 1 burst_frame) []
watch-Parses_example =
    watch-Parses 0 100 [] [] tt (omega arith) 100 (quiet ∷ []) (quiet-IsTick, tt) (tt, tt)
      after_quiet (inl watch-quiet) []

-- A frame that blocks behind its second byte, and another behind it.
abbrev stalled : Tick
stalled = record quiet { sending = blocked 2 }

watch-stalled :
    watch 100 (stalled ∷ quiet ∷ []) (start [] [] 0)
    ≡ on (record after_quiet { written = 0x82 ∷ 152 ∷ after_quiet.written })
unfolding watch turn send_burst binary_frame pack uint mask_from take
watch-stalled = refl

status_good : occurs (codes "101") (first_line status_line) ≡ true
unfolding occurs partition starts_with
status_good = refl

main_ends_example :
    (status : ℕ) × (c : Console) × (main
        (codes "probe")
        80
        1
        100
        (codes "key")
        response
        0
        (quiet ∷ late ∷ [])
      ≡ exit status c)
    × ((status ≡ 0) ⊎ (status ≡ 1))
main_ends_example =
    main_ends (codes "probe") 80 1 100 (codes "key") response status_line (0x82 ∷ []) 0 100
      (quiet ∷ []) [] late response-IsSteady response-partition status_good (omega arith)
      (quiet-IsTick, (late-IsTick, tt)) (omega arith)

-- A round in which receiving raises.
abbrev reset : Tick
reset = record quiet { readable = true; events = failed ∷ [] }

main-HasEnded_example :
    HasEnded (main (codes "probe") 80 1 100 (codes "key") response 0 (reset ∷ late ∷ []))
main-HasEnded_example =
    main-HasEnded (codes "probe") 80 1 100 (codes "key") response 0 (reset ∷ []) [] late
      (omega arith)
