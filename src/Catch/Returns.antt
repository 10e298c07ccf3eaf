-- ===== src/Catch/Returns.antt =====
-- `ws_recv_all_available` ends on any socket, also one whose calls raise.
use poly_firmware_build.Base.{
  ℕ, zero, suc, ◌+◌, ◌≤◌, ◌<◌, ◌≡◌, refl, Bool, true, false, Bool-cases, some, inl, inr, List, [],
  ◌∷◌, ◌++◌, leb, ◌==◌, arith, if◌then◌else◌, Bytes, length, length-append,
}
use poly_firmware_build.Host.{Result, ok, raise, bind}
use poly_firmware_build.Catch.Socket.{Event, received, would_block, failed, pending, poll}
use poly_firmware_build.Catch.Frame.{Read, complete, partial, read_frame}
use poly_firmware_build.Catch.Receive.{
  Received, Round, leave, again, is_data, max_bytes, take_in, receive_round, receive_loop,
  ws_recv_all_available,
}
use poly_firmware_build.Catch.Shortens.{size, Shortens, read_frame-Shortens}

-- A round that goes on has a shorter stream before it.
module _ (s : ℕ) where
  abbrev Descends : Result Round → Type 0
  Descends (raise e) = Unit
  Descends (ok (leave r)) = Unit
  Descends (ok (again out buf es)) = size buf es < s

  take_in-Descends : (out : Bytes) (r : Read) → Shortens s (ok r) → Descends (ok (take_in out r))
  take_in-Descends out (partial buf es) h = tt
  take_in-Descends out (complete op p buf es) h = elim (Bool-cases (op == 8)) [
    | inl close ↦ rw close tt
    | inr other ↦
        elim (Bool-cases (leb max_bytes (length (if is_data op then out ++ p else out)))) [
          | inl much ↦ rw (other, much) tt
          | inr little ↦ rw (other, little) h
        ]
  ]

-- What `poll` leaves is no longer than what it had.
abbrev Polled : ℕ → Result (Bool × Bytes × List Event) → Type 0
Polled s (raise e) = Unit
Polled s (ok (goes_on, buf, es)) = size buf es ≤ s

poll-Polled : (buf : Bytes) (es : List Event) → Polled (size buf es) (poll buf es)
unfolding poll
poll-Polled [] [] = omega arith
poll-Polled (b ∷ bs) [] = omega arith
poll-Polled [] (received [] ∷ es) = omega arith
poll-Polled (b ∷ bs) (received [] ∷ es) = omega arith
poll-Polled buf (received (c ∷ cs) ∷ es) =
    omega (arith, length-append buf (c ∷ cs), length-append (c ∷ cs) (pending es))
poll-Polled [] (would_block ∷ es) = omega arith
poll-Polled (b ∷ bs) (would_block ∷ es) = omega arith
poll-Polled buf (failed ∷ es) = tt

receive_round-Descends :
    (out buf : Bytes) (es : List Event) → Descends (size buf es) (receive_round out buf es)
unfolding receive_round
receive_round-Descends out buf es = step (poll buf es) (poll-Polled buf es)
  where
    read :
        (r : Result Read)
        → Shortens (size buf es) r
        → Descends (size buf es) (bind r (λ r. ok (take_in out r)))
    read (raise e) h = tt
    read (ok r) h = take_in-Descends (size buf es) out r h

    step :
        (r : Result (Bool × Bytes × List Event))
        → Polled (size buf es) r
        → Descends (size buf es) (
            bind r λ (goes_on, buf', es').
              if goes_on
              then bind (read_frame buf' es') (λ r. ok (take_in out r))
              else ok (leave (record { payload = out; leftover = buf'; events = es' })))
    step (raise e) h = tt
    step (ok (true, buf', es')) h =
        read (read_frame buf' es') (read_frame-Shortens (size buf es) buf' es' h)
    step (ok (false, buf', es')) h = tt

receive_loop-returns :
    (fuel : ℕ) (out buf : Bytes) (es : List Event)
    → size buf es < fuel
    → (r : Result Received) × (receive_loop fuel out buf es ≡ some r)
unfolding receive_loop
receive_loop-returns zero out buf es h = absurd (omega arith)
receive_loop-returns (suc fuel) out buf es h =
    step (receive_round out buf es) (receive_round-Descends out buf es)
      (λ out' buf' es' shorter. receive_loop-returns fuel out' buf' es' (omega (arith, shorter)))
  where
    step :
        (r : Result Round)
        → Descends (size buf es) r
        → ((out' buf' : Bytes) (es' : List Event)
            → size buf' es' < size buf es
            → (r : Result Received) × (receive_loop fuel out' buf' es' ≡ some r))
        → (result : Result Received) × ((elim r [
          | raise e ↦ some (raise e)
          | ok (leave r) ↦ some (ok r)
          | ok (again out' buf' es') ↦ receive_loop fuel out' buf' es'
        ])
            ≡ some result)
    step (raise e) h ih = (raise e, refl)
    step (ok (leave r)) h ih = (ok r, refl)
    step (ok (again out' buf' es')) h ih = ih out' buf' es' h

-- On any socket, `ws_recv_all_available` returns or raises: its loop ends.
pub ws_recv_all_available_total :
    (leftover : Bytes) (es : List Event)
    → (r : Result Received) × (ws_recv_all_available leftover es ≡ some r)
unfolding ws_recv_all_available
ws_recv_all_available_total leftover es =
    receive_loop-returns (length (leftover ++ pending es) + 1) [] leftover es
      (omega (arith, length-append leftover (pending es)))
