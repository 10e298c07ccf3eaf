-- ===== src/Catch/RoundTrip.antt =====
-- What `ws_send_binary` sends on one side, `ws_recv_all_available` gives on the other.
use mathlib.Core.Path.{subst}
use poly_firmware_build.Base.{
  ℕ, zero, suc, ◌-◌, ◌≤◌, ◌⊎◌, inl, inr, ◌<◌, ◌≡◌, refl, sym, ◌∙◌, ap, ap₂, Option, none, some,
  List, [], ◌∷◌, ◌++◌, All, arith, Bytes, length, length-append, append-nil, append_assoc,
}
use poly_firmware_build.Host.{ok, raise, Result}
use poly_firmware_build.Catch.Socket.{Event, pending, IsCalm}
use poly_firmware_build.Catch.Receive.{Received, max_bytes, ws_recv_all_available}
use poly_firmware_build.Catch.Rfc.{payloads}
use poly_firmware_build.Catch.Round.{
  Reason, drained, full, closed, Explains, IsReceived, take_frame-nil,
}
use poly_firmware_build.Catch.Stream.{ws_recv_all_available-IsReceived}
use poly_firmware_build.Catch.Sent.{
  IsSendable, IsStream, joined, take_frame-IsStream, IsPart, none_ne_some, parts_of,
}

nothing_sent : (ps : List (Bytes × Bytes)) → All IsSendable ps → IsStream ps [] → joined ps ≡ []
nothing_sent [] good stream = refl
nothing_sent ((mask, payload) ∷ ps) (good, _) stream =
    let (rest, e, _) = take_frame-IsStream mask payload [] ps good stream in
    absurd (none_ne_some (sym take_frame-nil ∙ e))

-- What one call takes of the stream of `ps`.
record IsCall (ps : List (Bytes × Bytes)) (es : List Event) (r : Received) : Type 0 where
  left : List (Bytes × Bytes)
  sendable : All IsSendable left
  stream : IsStream left (r.leftover ++ pending r.events)
  same : r.payload ++ joined left ≡ joined ps
  calm : IsCalm r.events
  fewer : length r.events ≤ length es - 1
  emptied : r.events ≡ [] → r.leftover ≡ []

ws_recv_all_available-IsCall :
    (ps : List (Bytes × Bytes)) (leftover : Bytes) (es : List Event)
    → All IsSendable ps
    → IsStream ps (leftover ++ pending es)
    → IsCalm es
    → length (joined ps) < max_bytes
    → (r : Received) × (ws_recv_all_available leftover es ≡ some (ok r)) × IsCall ps es r
ws_recv_all_available-IsCall ps leftover es good stream calm small =
    let (r, e, taken, fewer) = ws_recv_all_available-IsReceived leftover es calm in
    let part =
      parts_of ps (leftover ++ pending es) taken.frames
        (taken.dropped ++ (r.leftover ++ pending r.events)) good stream taken.parses in
    (r, e, finish r taken fewer part taken.reason taken.explained)
  where
    finish :
        (r : Received) (taken : IsReceived [] (leftover ++ pending es) r)
        → length r.events ≤ length es - 1
        → IsPart ps taken.frames (taken.dropped ++ (r.leftover ++ pending r.events))
        → (reason : Reason) → Explains reason r taken.frames taken.dropped
        → IsCall ps es r
    finish r taken fewer part closed (close, _) = absurd (part.open_still close)
    finish r taken fewer part full (_, much) = absurd (
        omega (
          arith,
          ap length taken.gathered,
          ap length part.same,
          length-append (payloads taken.frames) (joined part.left),
        ))
    finish r taken fewer part drained (nothing, no_frame) = record {
      left = part.left;
      sendable = part.sendable;
      stream = stays;
      same = ap (λ p. p ++ joined part.left) taken.gathered ∙ part.same;
      calm = taken.calm;
      fewer = fewer;
      emptied = λ none_left. all_read part.left part.sendable (
          subst (IsStream part.left)
            (ap (λ es. r.leftover ++ pending es) none_left ∙ append-nil r.leftover) stays);
    }
      where
        stays : IsStream part.left (r.leftover ++ pending r.events)
        stays =
            subst (IsStream part.left) (ap (λ d. d ++ (r.leftover ++ pending r.events)) nothing)
              part.stream

        all_read :
            (left : List (Bytes × Bytes))
            → All IsSendable left
            → IsStream left r.leftover
            → r.leftover ≡ []
        all_read [] sendable stream = stream
        all_read ((mask, payload) ∷ left) (sendable, _) stream =
            let (rest, e, _) = take_frame-IsStream mask payload r.leftover left sendable stream in
            absurd (none_ne_some (sym no_frame ∙ e))

-- Calls of `ws_recv_all_available` in a row, each with the leftover of the one before.
unfoldable pub receive_calls : ℕ → Bytes → Bytes → List Event → Option (Result Received)
receive_calls zero out buf es = some (ok (record { payload = out; leftover = buf; events = es }))
receive_calls (suc n) out buf es = elim (ws_recv_all_available buf es) [
  | none ↦ none
  | some (raise e) ↦ some (raise e)
  | some (ok r) ↦ receive_calls n (out ++ r.payload) r.leftover r.events
]

-- All is received, or there are more calls than results of `recv`.
abbrev IsEnough : ℕ → Bytes → List Event → Type 0
IsEnough n buf es = ((es ≡ []) × (buf ≡ [])) ⊎ (length es < n)

IsEnough-next :
    (n : ℕ) (buf buf' : Bytes) (es es' : List Event)
    → length es' ≤ length es - 1
    → (es' ≡ [] → buf' ≡ [])
    → IsEnough (suc n) buf es
    → IsEnough n buf' es'
IsEnough-next n buf buf' es [] fewer emptied enough = inl (refl, emptied refl)
IsEnough-next n buf buf' es (x ∷ es') fewer emptied (inl (none_left, _)) =
    absurd (omega (arith, fewer, ap length none_left))
IsEnough-next n buf buf' es (x ∷ es') fewer emptied (inr more) = inr (omega (arith, fewer, more))

abbrev all_received : Bytes → Option (Result Received)
all_received out = some (ok (record { payload = out; leftover = []; events = [] }))

receive_calls_total :
    (n : ℕ) (ps : List (Bytes × Bytes)) (out buf : Bytes) (es : List Event)
    → All IsSendable ps
    → IsStream ps (buf ++ pending es)
    → IsCalm es
    → length (joined ps) < max_bytes
    → IsEnough n buf es
    → receive_calls n out buf es ≡ all_received (out ++ joined ps)
unfolding receive_calls
receive_calls_total zero ps out buf es good stream calm small (inr more) = absurd (omega arith)
receive_calls_total zero ps out buf es good stream calm small (inl (no_events, no_bytes)) =
    let nothing : joined ps ≡ [] =
      nothing_sent ps good
        (subst (IsStream ps) (ap₂ (λ b e. b ++ pending e) no_bytes no_events) stream) in
    ap₂ (λ b e. some (ok (record { payload = out; leftover = b; events = e }))) no_bytes no_events
    ∙ ap all_received (sym (append-nil out) ∙ ap (λ p. out ++ p) (sym nothing))
receive_calls_total (suc n) ps out buf es good stream calm small enough =
    let (r, e, call) = ws_recv_all_available-IsCall ps buf es good stream calm small in
    let fits : length (joined call.left) < max_bytes =
      omega (arith, ap length call.same, length-append r.payload (joined call.left), small) in
    rw (e, receive_calls)
      (receive_calls_total n call.left (out ++ r.payload) r.leftover r.events call.sendable
          call.stream call.calm fits
          (IsEnough-next n buf r.leftover es r.events call.fewer call.emptied enough)
        ∙ ap all_received
            (append_assoc out r.payload (joined call.left) ∙ ap (λ p. out ++ p) call.same))

-- The bytes of calls of `ws_send_binary`, fewer than 65536 in their payloads, come in pieces cut
-- anywhere, part of them in the leftover, on a socket that raises nothing but `BlockingIOError` or a
-- timeout: calls of `ws_recv_all_available` in a row, more than there are results of `recv`, receive
-- all the payloads in their order, and leave nothing over and nothing to receive.
pub binary_frame-receive_calls :
    (ps : List (Bytes × Bytes)) (leftover : Bytes) (es : List Event) (n : ℕ)
    → All IsSendable ps
    → IsStream ps (leftover ++ pending es)
    → IsCalm es
    → length (joined ps) < max_bytes
    → length es < n
    → receive_calls n [] leftover es
      ≡ some (ok (record { payload = joined ps; leftover = []; events = [] }))
binary_frame-receive_calls ps leftover es n good stream calm small enough =
    receive_calls_total n ps [] leftover es good stream calm small (inr enough)
