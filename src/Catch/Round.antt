-- ===== src/Catch/Round.antt =====
-- What one round of `ws_recv_all_available` gives, for the stream that it reads from.
use mathlib.Core.Path.{subst}
use poly_firmware_build.Catch.Used.{Leaves, length-read_frame, take_frame-partial}
use poly_firmware_build.Base.{
  ℕ, ◌-◌, arith, ◌≤◌, ◌≡◌, refl, sym, ◌∙◌, ap, Bool, true, false, Bool-cases, none, some, inl, inr,
  List, [], ◌∷◌, ◌++◌, leb, leb→le, ◌==◌, ==_iff, if◌then◌else◌, Bytes, length, append-nil,
}
use poly_firmware_build.Host.{Result, ok, raise, bind}
use poly_firmware_build.Catch.Socket.{Event, received, would_block, failed, pending, IsCalm, poll}
use poly_firmware_build.Catch.Frame.{Read, complete, partial, read_frame}
use poly_firmware_build.Catch.Receive.{
  Received, Round, leave, again, is_data, max_bytes, take_in, receive_round,
}
use poly_firmware_build.Catch.Rfc.{Frame, take_frame, Parses, payload_of, payloads}
use poly_firmware_build.Catch.Waiting.{IsPolled, poll_total}
use poly_firmware_build.Catch.Cut.{Refines, read_frame-Refines}

-- Why a call leaves its loop: no frame is complete, enough was read,
-- or the last frame closes the connection, and what the buffer held behind it is dropped.
pub data Reason : Type 0 where
  drained full closed : Reason

abbrev pub IsClosing : List Frame → Type 0
IsClosing [] = ⊥
IsClosing (f ∷ []) = f.opcode ≡ 8
IsClosing (f ∷ g ∷ fs) = IsClosing (g ∷ fs)

abbrev pub Explains : Reason → Received → List Frame → Bytes → Type 0
Explains drained r fs dropped = (dropped ≡ []) × (take_frame r.leftover ≡ none)
Explains full r fs dropped = (dropped ≡ []) × (max_bytes ≤ length r.payload)
Explains closed r fs dropped = IsClosing fs × (r.leftover ≡ [])

-- A received value is the frames `fs` of the stream `s`, behind the bytes `out`.
pub record IsReceived (out s : Bytes) (r : Received) : Type 0 where
  pub frames : List Frame
  pub dropped : Bytes
  pub parses : Parses s frames (dropped ++ (r.leftover ++ pending r.events))
  pub gathered : r.payload ≡ out ++ payloads frames
  pub calm : IsCalm r.events
  pub reason : Reason
  pub explained : Explains reason r frames dropped

-- What a round gives on the stream `s`.
abbrev pub RoundFits : Bytes → Bytes → Round → Type 0
RoundFits out s (leave r) = IsReceived out s r
RoundFits out s (again out' buf es) =
    (f : Frame) × (take_frame s ≡ some (f, buf ++ pending es))
    × (out' ≡ out ++ payload_of f)
    × IsCalm es

data_appended :
    (out p : Bytes) (data_frame : Bool)
    → (if data_frame then out ++ p else out) ≡ out ++ (if data_frame then p else [])
data_appended out p true = refl
data_appended out p false = sym (append-nil out)

-- The buffer of a frame that is not complete.
abbrev IsPartial : Result Read → Type 0
IsPartial (raise e) = Unit
IsPartial (ok (complete op p buf es)) = Unit
IsPartial (ok (partial buf es)) = take_frame buf ≡ none

read_frame-IsPartial : (buf : Bytes) (es : List Event) → IsCalm es → IsPartial (read_frame buf es)
read_frame-IsPartial buf es calm = step (read_frame buf es) refl
  where
    step : (r : Result Read) → read_frame buf es ≡ r → IsPartial r
    step (raise e) h = tt
    step (ok (complete op p b e)) h = tt
    step (ok (partial b e)) h = take_frame-partial buf es b e calm h

take_in-RoundFits :
    (out s : Bytes) (r : Read)
    → Refines s (ok r) (take_frame s)
    → IsPartial (ok r)
    → RoundFits out s (take_in out r)
take_in-RoundFits out s (partial buf es) (same, calm, _) no_frame = record {
  frames = [];
  dropped = [];
  parses = sym same;
  gathered = sym (append-nil out);
  calm = calm;
  reason = drained;
  explained = (refl, no_frame);
}
take_in-RoundFits out s (complete op p buf es) (e, calm) _ = elim (Bool-cases (op == 8)) [
  | inl close ↦
      let eight : op ≡ 8 = (==_iff op 8).0 close in
      rw close (record {
        frames = f ∷ [];
        dropped = buf;
        parses = (buf ++ pending es, e, refl);
        gathered =
            sym (append-nil out)
            ∙ ap (λ o. out ++ ((if is_data o then p else []) ++ [])) (sym eight);
        calm = calm;
        reason = closed;
        explained = (eight, refl);
      })
  | inr other ↦ elim (Bool-cases (leb max_bytes (length kept))) [
    | inl much ↦
        rw (other, much)
          (record {
            frames = f ∷ [];
            dropped = [];
            parses = (buf ++ pending es, e, refl);
            gathered =
                data_appended out p (is_data op)
                ∙ ap (λ b. out ++ b) (sym (append-nil (payload_of f)));
            calm = calm;
            reason = full;
            explained = (refl, leb→le max_bytes (length kept) much);
          })
    | inr little ↦ rw (other, little) (f, e, data_appended out p (is_data op), calm)
  ]
]
  where
    f : Frame
    f = record { opcode = op; payload = p }

    kept : Bytes
    kept = if is_data op then out ++ p else out

pub take_frame-nil : take_frame [] ≡ none
unfolding take_frame
take_frame-nil = refl

-- How many results of `recv` a round leaves.
abbrev pub AtMost : ℕ → Round → Type 0
AtMost n (leave r) = length r.events ≤ n
AtMost n (again out buf es) = length es ≤ n

take_in-AtMost :
    (n : ℕ) (out : Bytes) (es : List Event) (r : Read)
    → length es ≤ n
    → Leaves es (ok r)
    → AtMost n (take_in out r)
take_in-AtMost n out es (partial buf es') few h = omega (arith, few, h)
take_in-AtMost n out es (complete op p buf es') few h =
    by_test (op == 8) (leb max_bytes (length kept))
  where
    kept : Bytes
    kept = if is_data op then out ++ p else out

    by_test :
        (close much : Bool)
        → AtMost n (
            if close
            then leave (record { payload = out; leftover = []; events = es' })
            else if much
            then leave (record { payload = kept; leftover = buf; events = es' })
            else again kept buf es')
    by_test true much = omega (arith, few, h)
    by_test false true = omega (arith, few, h)
    by_test false false = omega (arith, few, h)

-- A round asks the socket first.
abbrev Asks : ℕ → Result (Bool × Bytes × List Event) → Type 0
Asks n (raise e) = Unit
Asks n (ok (goes_on, buf, es)) = length es ≤ n - 1

poll-Asks : (buf : Bytes) (es : List Event) → Asks (length es) (poll buf es)
unfolding poll
poll-Asks [] [] = omega arith
poll-Asks (b ∷ bs) [] = omega arith
poll-Asks [] (received [] ∷ es) = omega arith
poll-Asks (b ∷ bs) (received [] ∷ es) = omega arith
poll-Asks buf (received (c ∷ cs) ∷ es) = omega arith
poll-Asks [] (would_block ∷ es) = omega arith
poll-Asks (b ∷ bs) (would_block ∷ es) = omega arith
poll-Asks buf (failed ∷ es) = tt

pub receive_round_total :
    (out buf : Bytes) (es : List Event)
    → IsCalm es
    → (round : Round) × (receive_round out buf es ≡ ok round)
      × RoundFits out (buf ++ pending es) round
      × AtMost (length es - 1) round
unfolding receive_round
receive_round_total out buf es calm =
    let (on, buf', es', e, h) = poll_total buf es calm in
    let few : length es' ≤ length es - 1 = rw e at (poll-Asks buf es) in
    let (round, same, fits, asked) = step on buf' es' few h in (round, rw e same, fits, asked)
  where
    read :
        (buf' : Bytes) (es' : List Event) (r : Result Read)
        → length es' ≤ length es - 1
        → buf' ++ pending es' ≡ buf ++ pending es
        → Refines (buf' ++ pending es') r (take_frame (buf' ++ pending es'))
        → IsPartial r
        → Leaves es' r
        → (round : Round) × (bind r (λ r. ok (take_in out r)) ≡ ok round)
          × RoundFits out (buf ++ pending es) round
          × AtMost (length es - 1) round
    read buf' es' (raise e) few same h stops left = absurd h
    read buf' es' (ok r) few same h stops left = (
      take_in out r,
      refl,
      take_in-RoundFits out (buf ++ pending es) r
          (subst (λ s. Refines s (ok r) (take_frame s)) same h) stops,
      take_in-AtMost (length es - 1) out es' r few left,
    )

    step :
        (on : Bool) (buf' : Bytes) (es' : List Event)
        → length es' ≤ length es - 1
        → IsPolled (buf ++ pending es) on buf' es'
        → (round : Round) × ((if on
              then bind (read_frame buf' es') (λ r. ok (take_in out r))
              else ok (leave (record { payload = out; leftover = buf'; events = es' })))
            ≡ ok round)
          × RoundFits out (buf ++ pending es) round
          × AtMost (length es - 1) round
    step true buf' es' few h =
        read buf' es' (read_frame buf' es') few h.same (read_frame-Refines buf' es' h.calm)
          (read_frame-IsPartial buf' es' h.calm) (length-read_frame buf' es')
    step false buf' es' few h = (
      leave (record { payload = out; leftover = buf'; events = es' }),
      refl,
      record {
        frames = [];
        dropped = [];
        parses = sym h.same;
        gathered = sym (append-nil out);
        calm = h.calm;
        reason = drained;
        explained = (refl, ap take_frame (h.ended refl) ∙ take_frame-nil);
      },
      few,
    )
