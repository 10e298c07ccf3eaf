-- ===== src/Catch/Codec.antt =====
-- A frame that `ws_send_binary` sends is read back.
use poly_firmware_build.Base.{
  ℕ, zero, suc, ◌+◌, ◌%◌, ◌^◌, ◌≤◌, ◌<◌, ◌≡◌, refl, ◌∙◌, ap, ap₂, true, not, Option, some, [], ◌∷◌,
  ◌++◌, All, IsByte, lt→ltb, lt→ltb_false, ◌==◌, ==_iff, arith, dec_lt, bit_or, bit_and,
  bit_xor_twice, bit_or_top, Bytes, length, slice, slice_middle, append_assoc, append-nil,
}
use poly_firmware_build.Host.{ok}
use poly_firmware_build.Pack.{big, of_uint, uint, Fields}
use poly_firmware_build.Pack.RoundTrip.{packed, pack-Fit, length-uint, of_uint-uint}
use poly_firmware_build.Catch.Frame.{nth, mask_from, masked, binary_frame}
use poly_firmware_build.Catch.Rfc.{Frame, given, with_length, take_frame}
use poly_firmware_build.Catch.Wire.{given_enough, wire, length-wire, take_frame-wire}

length-mask_from : (i : ℕ) (mask bs : Bytes) → length (mask_from i mask bs) ≡ length bs
unfolding mask_from
length-mask_from i mask [] = refl
length-mask_from i mask (b ∷ bs) = ap suc (length-mask_from (i + 1) mask bs)

nth-IsByte : (i : ℕ) (bs : Bytes) → All IsByte bs → IsByte (nth bs i)
nth-IsByte i [] h = omega arith
nth-IsByte zero (b ∷ bs) (h, hs) = h
nth-IsByte (suc i) (b ∷ bs) (h, hs) = nth-IsByte i bs hs

mask_from_twice :
    (i : ℕ) (mask bs : Bytes)
    → All IsByte mask
    → All IsByte bs
    → mask_from i mask (mask_from i mask bs) ≡ bs
unfolding mask_from
mask_from_twice i mask [] hm h = refl
mask_from_twice i mask (b ∷ bs) hm (h, hs) =
    ap₂ ◌∷◌ (bit_xor_twice b (nth mask (i % 4)) h (nth-IsByte (i % 4) mask hm))
      (mask_from_twice (i + 1) mask bs hm hs)

uint-byte : (x : ℕ) → x < 256 → uint big 1 x ≡ x ∷ []
unfolding uint
uint-byte x h = ap (λ b. b ∷ []) (omega arith)

abbrev binary : Bytes → Frame
binary payload = record { opcode = 2; payload = payload }

module _ (mask payload : Bytes) (four : length mask ≡ 4) (mask_bytes : All IsByte mask)
    (payload_bytes : All IsByte payload) where
  abbrev sent : Bytes
  sent = masked mask payload

  -- The frame with a header of these fields, where the header is two bytes and `wide`.
  wire-binary :
      (b2 : ℕ) (wide rest : Bytes)
      → ((spec : ℕ → ℕ → Option (Frame × Bytes))
          → with_length (bit_and b2 0x7f) (wire 0x82 b2 (length payload) wide mask sent rest) spec
            ≡ spec (length payload) (2 + length wide))
      → not (bit_and b2 0x80 == 0) ≡ true
      → take_frame (((0x82 ∷ b2 ∷ wide) ++ mask) ++ (sent ++ rest)) ≡ some (binary payload, rest)
  wire-binary b2 wide rest lengths is_masked =
      ap take_frame (append_assoc (0x82 ∷ b2 ∷ wide) mask (sent ++ rest))
      ∙ take_frame-wire 0x82 b2 (length payload) wide mask sent rest four
          (length-mask_from 0 mask payload) lengths is_masked
      ∙ ap (λ p. some (binary p, rest)) (mask_from_twice 0 mask payload mask_bytes payload_bytes)

  -- The header's bytes, for a length of `w` bytes behind the second byte.
  wide_length :
      (w b2 : ℕ) (rest : Bytes) (spec : Option (Frame × Bytes))
      → length payload < 256 ^ w
      → given
          (2 + w)
          (wire 0x82 b2 (length payload) (uint big w (length payload)) mask sent rest)
          spec
        ≡ spec
  wide_length w b2 rest spec small =
      given_enough (2 + w)
        (wire 0x82 b2 (length payload) (uint big w (length payload)) mask sent rest) spec
        (omega (
          arith,
          length-uint big w (length payload),
          length-wire 0x82 b2 (length payload) (uint big w (length payload)) mask sent rest four
              (length-mask_from 0 mask payload),
        ))

  wide_value :
      (w b2 : ℕ) (rest : Bytes)
      → length payload < 256 ^ w
      → of_uint big (
          slice
            (wire 0x82 b2 (length payload) (uint big w (length payload)) mask sent rest)
            2
            (2 + w))
        ≡ length payload
  wide_value w b2 rest small =
      ap (of_uint big) (
        slice_middle 2 (2 + w) (0x82 ∷ b2 ∷ []) (uint big w (length payload))
          (mask ++ (sent ++ rest)) refl (omega (arith, length-uint big w (length payload))))
      ∙ of_uint-uint big w (length payload) small

  two_bytes :
      (b2 : ℕ) (fs : Fields)
      → b2 < 256
      → packed big ((1, 0x82) ∷ (1, b2) ∷ fs) ≡ 0x82 ∷ b2 ∷ packed big fs
  two_bytes b2 fs small = rw (uint-byte 0x82 (omega arith), uint-byte b2 small)

  -- The lengths of two and of eight bytes.
  wide_lengths :
      (w b2 : ℕ) (rest : Bytes) (spec : ℕ → ℕ → Option (Frame × Bytes))
      → length payload < 256 ^ w
      → let s = wire 0x82 b2 (length payload) (uint big w (length payload)) mask sent rest in
        given (2 + w) s (spec (of_uint big (slice s 2 (2 + w))) (2 + w))
        ≡ spec (length payload) (2 + length (uint big w (length payload)))
  wide_lengths w b2 rest spec small =
      wide_length w b2 rest _ small
      ∙ ap₂ spec (wide_value w b2 rest small) (omega (arith, length-uint big w (length payload)))

  -- `ws_send_binary` sends these bytes, and a reader takes them off any stream.
  abbrev SentAs : Bytes → Type 0
  SentAs b =
      (binary_frame mask payload ≡ ok b)
      × ((rest : Bytes) → take_frame (b ++ rest) ≡ some (binary payload, rest))

  -- The frame whose header is two bytes and `wide`.
  SentAs-wire :
      (b2 : ℕ) (wide : Bytes)
      → binary_frame mask payload ≡ ok (((0x82 ∷ b2 ∷ wide) ++ mask) ++ sent)
      → ((rest : Bytes) (spec : ℕ → ℕ → Option (Frame × Bytes))
          → with_length (bit_and b2 0x7f) (wire 0x82 b2 (length payload) wide mask sent rest) spec
            ≡ spec (length payload) (2 + length wide))
      → not (bit_and b2 0x80 == 0) ≡ true
      → SentAs (((0x82 ∷ b2 ∷ wide) ++ mask) ++ sent)
  SentAs-wire b2 wide sends lengths is_masked = (
    sends,
    λ rest.
        ap take_frame (append_assoc ((0x82 ∷ b2 ∷ wide) ++ mask) sent rest)
        ∙ wire-binary b2 wide rest (lengths rest) is_masked,
  )

  short_frame : length payload < 126 → (b : Bytes) × SentAs b
  unfolding binary_frame
  short_frame short =
      let n = length payload in
      let (low, top, byte) = bit_or_top n (omega arith) in
      let b2 = bit_or 0x80 n in
      (
        _,
        SentAs-wire b2 []
            (rw (
              lt→ltb n 126 short,
              pack-Fit big ((1, 0x82) ∷ (1, b2) ∷ []) (omega arith, (byte, tt)),
              two_bytes b2 [] byte,
            ))
            (λ rest spec. rw low (ground (arith, ==_iff n 126, ==_iff n 127))) top,
      )

  middle_frame : 126 ≤ length payload → length payload < 65536 → (b : Bytes) × SentAs b
  unfolding binary_frame
  middle_frame long short =
      let n = length payload in
      (
        _,
        SentAs-wire 254 (uint big 2 n)
            (rw (
              lt→ltb_false 126 n long,
              lt→ltb n 65536 short,
              pack-Fit big ((1, 0x82) ∷ (1, 254) ∷ (2, n) ∷ []) (omega arith),
              two_bytes 254 ((2, n) ∷ []) (omega arith),
              append-nil (uint big 2 n),
            ))
            (λ rest spec. wide_lengths 2 254 rest spec short) refl,
      )

  long_frame : 65536 ≤ length payload → length payload < 2 ^ 64 → (b : Bytes) × SentAs b
  unfolding binary_frame
  long_frame long small =
      let n = length payload in
      (
        _,
        SentAs-wire 255 (uint big 8 n)
            (rw (
              lt→ltb_false 126 n (omega arith),
              lt→ltb_false 65536 n long,
              pack-Fit big ((1, 0x82) ∷ (1, 255) ∷ (8, n) ∷ []) (omega arith),
              two_bytes 255 ((8, n) ∷ []) (omega arith),
              append-nil (uint big 8 n),
            ))
            (λ rest spec. wide_lengths 8 255 rest spec small) refl,
      )

  -- With a mask of four bytes and a payload of fewer than 2 ^ 64 bytes, `ws_send_binary` sends a
  -- frame, and a reader takes it off the front of any stream as a binary frame with that payload.
  pub binary_frame-take_frame :
      length payload < 2 ^ 64
      → (b : Bytes) × (binary_frame mask payload ≡ ok b)
        × ((rest : Bytes)
            → take_frame (b ++ rest) ≡ some (record { opcode = 2; payload = payload }, rest))
  binary_frame-take_frame small = let (b, (sends, reads)) = sent_as in (b, sends, reads)
    where
      sent_as : (b : Bytes) × SentAs b
      sent_as = elim (dec_lt (length payload) 126) [
        | yes short ↦ short_frame short
        | no long ↦ elim (dec_lt (length payload) 65536) [
          | yes short ↦ middle_frame (omega arith) short
          | no longer ↦ long_frame (omega arith) small
        ]
      ]
