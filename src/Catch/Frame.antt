-- ===== src/Catch/Frame.antt =====
-- The frames of RFC 6455: `ws_send_binary`, and one round of `ws_recv_all_available`.
use poly_firmware_build.Base.{
  ℕ, zero, suc, ◌+◌, ◌%◌, bit_xor, bit_or, bit_and, Bool, true, false, not, Option, none, some,
  List, [], ◌∷◌, ◌++◌, ltb, ◌==◌, if◌then◌else◌, Bytes, length, drop, slice,
}
use poly_firmware_build.Host.{Result, ok, bind, from_option, struct_error}
use poly_firmware_build.Pack.{big, pack, of_uint}
use poly_firmware_build.Catch.Socket.{Event, need}

-- `b[i]`, for an index in range.
abbrev pub nth : Bytes → ℕ → ℕ
nth [] i = 0
nth (b ∷ bs) zero = b
nth (b ∷ bs) (suc i) = nth bs i

-- `bytes(b ^ mask[i % 4] for i, b in enumerate(payload))`, from index `i` on.
unfoldable pub mask_from : ℕ → Bytes → Bytes → Bytes
mask_from i mask [] = []
mask_from i mask (b ∷ bs) = bit_xor b (nth mask (i % 4)) ∷ mask_from (i + 1) mask bs

abbrev pub masked : Bytes → Bytes → Bytes
masked mask payload = mask_from 0 mask payload

-- The bytes that `ws_send_binary` sends; `mask` stands for `os.urandom(4)`.
unfoldable pub binary_frame : Bytes → Bytes → Result Bytes
binary_frame mask payload =
    let n = length payload in
    bind
      (from_option struct_error (
        if ltb n 126
        then pack big ((1, 0x82) ∷ (1, bit_or 0x80 n) ∷ [])
        else if ltb n 65536
        then pack big ((1, 0x82) ∷ (1, bit_or 0x80 126) ∷ (2, n) ∷ [])
        else pack big ((1, 0x82) ∷ (1, bit_or 0x80 127) ∷ (8, n) ∷ [])))
      λ header. ok ((header ++ mask) ++ masked mask payload)

-- A frame that is read, with what is behind it, or a frame that is not complete.
pub data Read : Type 0 where
  complete : ℕ → Bytes → Bytes → List Event → Read
  partial : Bytes → List Event → Read

-- `if not need(n): break`, and then the rest.
abbrev pub needing : ℕ → Bytes → List Event → (Bytes → List Event → Result Read) → Result Read
needing n buf es rest =
    bind (need n buf es)
      λ (enough, buf', es'). if enough then rest buf' es' else ok (partial buf' es')

-- The length of the payload, and where it or the mask begins.
abbrev pub read_length :
    ℕ → Bytes → List Event → (ℕ → ℕ → Bytes → List Event → Result Read) → Result Read
read_length plen buf es rest =
    if plen == 126
    then needing 4 buf es (λ buf es. rest (of_uint big (slice buf 2 4)) 4 buf es)
    else if plen == 127
    then needing 10 buf es (λ buf es. rest (of_uint big (slice buf 2 10)) 10 buf es)
    else rest plen 2 buf es

abbrev pub unmasked : Option Bytes → Bytes → Bytes
unmasked none payload = payload
unmasked (some mask) payload = masked mask payload

-- The mask, and where the payload begins.
abbrev pub read_mask :
    Bool
    → ℕ
    → Bytes
    → List Event
    → (Option Bytes → ℕ → Bytes → List Event → Result Read)
    → Result Read
read_mask false idx buf es rest = rest none idx buf es
read_mask true idx buf es rest =
    needing (idx + 4) buf es (λ buf es. rest (some (slice buf idx (idx + 4))) (idx + 4) buf es)

-- One round of the loop behind its first `recv`, up to the payload.
unfoldable pub read_frame : Bytes → List Event → Result Read
read_frame buf es =
    if ltb (length buf) 2
    then ok (partial buf es)
    else let b1 = nth buf 0 in
      let b2 = nth buf 1 in
      read_length (bit_and b2 0x7f) buf es λ plen idx buf es.
        read_mask (not (bit_and b2 0x80 == 0)) idx buf es λ mask idx buf es.
          needing (idx + plen) buf es λ buf es. ok (
            complete (bit_and b1 0x0f) (unmasked mask (slice buf idx (idx + plen)))
              (drop (idx + plen) buf) es)
