-- ===== src/Catch/Termination.antt =====
-- `main` ends once its timeout is reached, on any socket and with any exceptions.
use poly_firmware_build.Base.{
  take, ℕ, ◌+◌, ◌≤◌, ◌≢◌, refl, Bool, true, false, not, Bool-cases, inl, inr, List, [], ◌∷◌, ◌++◌,
  ltb, leb, arith, if◌then◌else◌, Bytes, Text,
}
use poly_firmware_build.Host.{Result, ok, raise}
use poly_firmware_build.Catch.Socket.{Event}
use poly_firmware_build.Catch.Frame.{binary_frame}
use poly_firmware_build.Catch.Connect.{ws_connect}
use poly_firmware_build.Catch.Console.{
  Sending, sent, blocked, broken, Tick, Console, Turn, on, exit, crash, stuck, start, burst,
  send_interval, last_bytes, prompt_found, trimmed, send_burst, take_data, receive_tick, turn,
  watch, ws_path, main,
}
use poly_firmware_build.Catch.Receive.{Received}
use poly_firmware_build.Catch.Returns.{ws_recv_all_available_total}
use poly_firmware_build.Catch.Safety.{watch_late}

send_burst-ne-stuck : (t : Tick) (c : Console) → send_burst t c ≢ stuck
unfolding send_burst
send_burst-ne-stuck t c e = elim (Bool-cases (leb c.next_send t.now)) [
  | inr early ↦ ground (arith, early)
  | inl due ↦ by_frame (binary_frame t.mask burst) (rw due at e)
]
  where
    by_sending :
        (frame : Bytes) (s : Sending)
        → (elim s [
          | sent ↦ on (record c {
            sends = c.sends + 1;
            next_send = t.now + send_interval;
            written = c.written ++ frame;
          })
          | blocked n ↦ on (record c { written = c.written ++ take n frame })
          | broken n ↦ exit 1 (record c { written = c.written ++ take n frame })
        ])
          ≢ stuck
    by_sending frame sent e = cc
    by_sending frame (blocked n) e = cc
    by_sending frame (broken n) e = cc

    by_frame :
        (r : Result Bytes)
        → (elim r [
          | raise e ↦ crash e
          | ok frame ↦ elim t.sending [
            | sent ↦ on (record c {
              sends = c.sends + 1;
              next_send = t.now + send_interval;
              written = c.written ++ frame;
            })
            | blocked n ↦ on (record c { written = c.written ++ take n frame })
            | broken n ↦ exit 1 (record c { written = c.written ++ take n frame })
          ]
        ])
          ≢ stuck
    by_frame (raise x) e = cc
    by_frame (ok frame) e = by_sending frame t.sending e

take_data-ne-stuck : (t : Tick) (c : Console) (d : Bytes) → take_data t c d ≢ stuck
unfolding take_data
take_data-ne-stuck t c [] e = send_burst-ne-stuck t c e
take_data-ne-stuck t c (b ∷ bs) e =
    let c' = record c { rx_buf = trimmed (c.rx_buf ++ b ∷ bs) } in
    elim (Bool-cases (prompt_found (last_bytes 200 c'.rx_buf))) [
      | inl found ↦ ground (arith, found)
      | inr not_found ↦ send_burst-ne-stuck t c' (rw not_found at e)
    ]

receive_tick-ne-stuck : (t : Tick) (c : Console) → receive_tick t c ≢ stuck
unfolding receive_tick
receive_tick-ne-stuck t c e =
    let (r, returns) = ws_recv_all_available_total c.leftover c.socket in
    by_result r (rw (returns, receive_tick) at e)
  where
    by_result :
        (r : Result Received)
        → (elim r [
          | raise x ↦ crash x
          | ok r ↦ take_data t (record c { leftover = r.leftover; socket = r.events }) r.payload
        ])
          ≢ stuck
    by_result (raise x) e = cc
    by_result (ok r) e =
        take_data-ne-stuck t (record c { leftover = r.leftover; socket = r.events }) r.payload e

turn-ne-stuck : (deadline : ℕ) (t : Tick) (c : Console) → turn deadline t c ≢ stuck
unfolding turn
turn-ne-stuck deadline t c = by_test (ltb t.clock deadline) t.readable
  where
    c' : Console
    c' = record c { socket = c.socket ++ t.events }

    by_test :
        (in_time readable : Bool)
        → (if not in_time
            then exit 1 c'
            else if readable
            then receive_tick t c'
            else send_burst t c')
          ≢ stuck
    by_test false readable e = cc
    by_test true true e = receive_tick-ne-stuck t c' e
    by_test true false e = send_burst-ne-stuck t c' e

-- The loop over any rounds never hangs in one.
watch-ne-stuck : (deadline : ℕ) (ts : List Tick) (c : Console) → watch deadline ts c ≢ stuck
unfolding watch
watch-ne-stuck deadline [] c e = cc
watch-ne-stuck deadline (t ∷ ts) c e =
    by_turn (turn deadline t c) (turn-ne-stuck deadline t c)
      (λ next. watch-ne-stuck deadline ts next) e
  where
    by_turn :
        (x : Turn)
        → x ≢ stuck
        → ((next : Console) → watch deadline ts next ≢ stuck)
        → (elim x [
          | on next ↦ watch deadline ts next
          | exit status next ↦ exit status next
          | crash y ↦ crash y
          | stuck ↦ stuck
        ])
          ≢ stuck
    by_turn (on next) h ih e = ih next e
    by_turn (exit status next) h ih e = cc
    by_turn (crash y) h ih e = cc
    by_turn stuck h ih e = h refl

-- The ways in which `main` ends: with an exit status, or in an exception.
abbrev pub HasEnded : Turn → Type 0
HasEnded (on c) = ⊥
HasEnded (exit status c) = Unit
HasEnded (crash e) = Unit
HasEnded stuck = ⊥

HasEnded-of : (x : Turn) → ((c : Console) → x ≢ on c) → x ≢ stuck → HasEnded x
HasEnded-of (on c) running hangs = running c refl
HasEnded-of (exit status c) running hangs = tt
HasEnded-of (crash e) running hangs = tt
HasEnded-of stuck running hangs = hangs refl

-- Whatever the probe sends, whenever calls raise and whatever else the rounds bring: where the
-- clock of one round has reached the timeout, `main` has ended.
pub main-HasEnded :
    (host : Text) (host_port port total_timeout : ℕ) (key : Text) (response : List Event)
    (begun : ℕ) (before after : List Tick) (late : Tick)
    → begun + total_timeout ≤ late.clock
    → HasEnded (main host host_port port total_timeout key response begun (before ++ late ∷ after))
unfolding main
main-HasEnded host host_port port total_timeout key response begun before after late reached =
    by_response (ws_connect (ws_path port) host host_port key response).1
  where
    by_response :
        (r : Result (Bytes × List Event))
        → HasEnded (elim r [
          | raise e ↦ crash e
          | ok (leftover, socket) ↦
              watch (begun + total_timeout) (before ++ late ∷ after) (start leftover socket begun)
        ])
    by_response (raise e) = tt
    by_response (ok (leftover, socket)) =
        HasEnded-of _
          (λ c.
            watch_late (begun + total_timeout) before after late (start leftover socket begun) c
              reached)
          (watch-ne-stuck (begun + total_timeout) (before ++ late ∷ after)
            (start leftover socket begun))
