-- ===== src/Catch/Rfc.antt =====
-- A stream of WebSocket frames as RFC 6455 cuts it, on the whole stream at once.
use poly_firmware_build.Base.{
  ℕ, ◌+◌, ◌≡◌, Bool, true, false, not, Option, none, some, List, [], ◌∷◌, ◌++◌, leb, ◌==◌, bit_and,
  if◌then◌else◌, Bytes, length, drop, slice,
}
use poly_firmware_build.Pack.{big, of_uint}
use poly_firmware_build.Catch.Frame.{nth, unmasked}
use poly_firmware_build.Catch.Receive.{is_data}

pub record Frame : Type 0 where
  pub opcode : ℕ
  pub payload : Bytes

-- `rest`, where the stream has `n` bytes.
abbrev pub given : {A : Type 0} → ℕ → Bytes → Option A → Option A
given n s rest = if leb n (length s) then rest else none

abbrev pub with_length : {A : Type 0} → ℕ → Bytes → (ℕ → ℕ → Option A) → Option A
with_length plen s rest =
    if plen == 126
    then given 4 s (rest (of_uint big (slice s 2 4)) 4)
    else if plen == 127
    then given 10 s (rest (of_uint big (slice s 2 10)) 10)
    else rest plen 2

abbrev pub with_mask : {A : Type 0} → Bool → ℕ → Bytes → (Option Bytes → ℕ → Option A) → Option A
with_mask false idx s rest = rest none idx
with_mask true idx s rest = given (idx + 4) s (rest (some (slice s idx (idx + 4))) (idx + 4))

-- The first frame of a stream, and what follows it.
unfoldable pub take_frame : Bytes → Option (Frame × Bytes)
take_frame s = given 2 s (
    with_length (bit_and (nth s 1) 0x7f) s λ plen idx.
      with_mask (not (bit_and (nth s 1) 0x80 == 0)) idx s λ mask idx. given (idx + plen) s (
        some (
          record {
            opcode = bit_and (nth s 0) 0x0f;
            payload = unmasked mask (slice s idx (idx + plen));
          },
          drop (idx + plen) s,
        )))

-- A stream is these frames and then `t`.
abbrev pub Parses : Bytes → List Frame → Bytes → Type 0
Parses s [] t = s ≡ t
Parses s (f ∷ fs) t = (s' : Bytes) × (take_frame s ≡ some (f, s')) × Parses s' fs t

-- What a reader keeps of frames.
abbrev pub payload_of : Frame → Bytes
payload_of f = if is_data f.opcode then f.payload else []

abbrev pub payloads : List Frame → Bytes
payloads [] = []
payloads (f ∷ fs) = payload_of f ++ payloads fs
