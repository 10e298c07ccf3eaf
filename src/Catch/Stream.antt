-- ===== src/Catch/Stream.antt =====
-- Every call of `ws_recv_all_available` returns, with the frames that its stream begins with.
use poly_firmware_build.Base.{
  ℕ, zero, suc, ◌+◌, ◌-◌, ◌≤◌, ◌<◌, ◌≡◌, refl, ◌∙◌, ap, some, List, [], ◌∷◌, ◌++◌, arith, Bytes,
  length, append_assoc,
}
use poly_firmware_build.Host.{ok}
use poly_firmware_build.Catch.Socket.{Event, pending, IsCalm}
use poly_firmware_build.Catch.Receive.{
  Received, Round, leave, again, receive_loop, ws_recv_all_available,
}
use poly_firmware_build.Catch.Rfc.{Frame, payload_of, payloads}
use poly_firmware_build.Catch.Shrinks.{take_frame-Shrinks}
use poly_firmware_build.Catch.Round.{
  Reason, drained, full, closed, IsClosing, Explains, IsReceived, RoundFits, AtMost,
  receive_round_total,
}

-- One more frame in front of what the rest of the loop receives.
IsClosing-cons : (f : Frame) (fs : List Frame) → IsClosing fs → IsClosing (f ∷ fs)
IsClosing-cons f [] h = absurd h
IsClosing-cons f (g ∷ fs) h = h

Explains-cons :
    (reason : Reason) (r : Received) (f : Frame) (fs : List Frame) (dropped : Bytes)
    → Explains reason r fs dropped
    → Explains reason r (f ∷ fs) dropped
Explains-cons drained r f fs dropped h = h
Explains-cons full r f fs dropped h = h
Explains-cons closed r f fs dropped (h, none_left) = (IsClosing-cons f fs h, none_left)

abbrev LoopReturns : ℕ → Bytes → Bytes → List Event → Type 0
LoopReturns fuel out buf es =
    (r : Received) × (receive_loop fuel out buf es ≡ some (ok r))
    × IsReceived out (buf ++ pending es) r
    × (length r.events ≤ length es - 1)

after_round :
    (fuel n : ℕ) (out s : Bytes)
    → ((out' buf' : Bytes) (es' : List Event)
        → IsCalm es'
        → length (buf' ++ pending es') < length s
        → LoopReturns fuel out' buf' es')
    → (round : Round) → RoundFits out s round
    → AtMost n round
    → (r : Received) × (elim round [
      | leave r ↦ some (ok r)
      | again out' buf' es' ↦ receive_loop fuel out' buf' es'
    ]
        ≡ some (ok r))
      × IsReceived out s r
      × (length r.events ≤ n)
after_round fuel n out s ih (leave r) received asked = (r, refl, received, asked)
after_round fuel n out s ih (again out' buf' es') (f, taken, kept, calm') asked =
    let shorter = take_frame-Shrinks s f (buf' ++ pending es') taken in
    let (r, e, later, fewer) = ih out' buf' es' calm' shorter in
    (
      r,
      e,
      record {
        frames = f ∷ later.frames;
        dropped = later.dropped;
        parses = (buf' ++ pending es', taken, later.parses);
        gathered =
            later.gathered
            ∙ ap (λ o. o ++ payloads later.frames) kept
            ∙ append_assoc out (payload_of f) (payloads later.frames);
        calm = later.calm;
        reason = later.reason;
        explained = Explains-cons later.reason r f later.frames later.dropped later.explained;
      },
      omega (arith, fewer, asked),
    )

receive_loop_total :
    (fuel : ℕ) (out buf : Bytes) (es : List Event)
    → IsCalm es
    → length (buf ++ pending es) < fuel
    → LoopReturns fuel out buf es
unfolding receive_loop
receive_loop_total zero out buf es calm h = absurd (omega arith)
receive_loop_total (suc fuel) out buf es calm h =
    let (round, e, fits, asked) = receive_round_total out buf es calm in
    let (r, e', received, fewer) =
      after_round fuel (length es - 1) out (buf ++ pending es)
        (λ out' buf' es' calm' shorter. receive_loop_total fuel out' buf' es' calm' (omega arith))
        round fits asked in
    (r, rw (e, receive_loop) e', received, fewer)

-- On a socket whose calls raise nothing but `BlockingIOError` or a timeout, however the stream is cut
-- into pieces: `ws_recv_all_available` returns, and takes at least one of the results of `recv` that
-- are left. What it returns is the payloads of the frames that the leftover and the bytes to come
-- begin with, and the stream goes on behind them, save what a frame that closes the connection
-- drops. Where it stops before a close or 65536 bytes, the leftover begins with no complete frame.
pub ws_recv_all_available-IsReceived :
    (leftover : Bytes) (es : List Event)
    → IsCalm es
    → (r : Received) × (ws_recv_all_available leftover es ≡ some (ok r))
      × IsReceived [] (leftover ++ pending es) r
      × (length r.events ≤ length es - 1)
unfolding ws_recv_all_available
ws_recv_all_available-IsReceived leftover es calm =
    receive_loop_total (length (leftover ++ pending es) + 1) [] leftover es calm (omega arith)
