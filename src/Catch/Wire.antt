-- ===== src/Catch/Wire.antt =====
-- A masked frame in front of other bytes is taken off them.
use poly_firmware_build.Base.{
  ℕ, ◌+◌, ◌≤◌, ◌≡◌, sym, ◌∙◌, ap, ap₂, true, not, Option, some, ◌∷◌, ◌++◌, le→leb, ◌==◌, arith,
  bit_and, Bytes, length, drop, slice, slice_middle, length-append, append_assoc,
  drop-length_append,
}
use poly_firmware_build.Catch.Frame.{masked, unmasked}
use poly_firmware_build.Catch.Rfc.{Frame, given, with_length, with_mask, take_frame}

pub given_enough :
    {A : Type 0} (n : ℕ) (s : Bytes) (rest : Option A) → n ≤ length s → given n s rest ≡ rest
given_enough n s rest h = rw (le→leb n (length s) h)

-- A masked frame on a stream: two bytes, the bytes `wide` of a longer length, the mask, the masked
-- payload, and what follows.
module _ (b1 b2 plen : ℕ) (wide mask sent rest : Bytes) where
  abbrev front : Bytes
  front = b1 ∷ b2 ∷ wide

  abbrev pub wire : Bytes
  wire = front ++ (mask ++ (sent ++ rest))

  abbrev at_payload : ℕ → Option Bytes → ℕ → Option (Frame × Bytes)
  at_payload size m idx = given (idx + size) wire (
      some (
        record { opcode = bit_and b1 0x0f; payload = unmasked m (slice wire idx (idx + size)) },
        drop (idx + size) wire,
      ))

  abbrev at_mask : ℕ → ℕ → Option (Frame × Bytes)
  at_mask size idx = with_mask (not (bit_and b2 0x80 == 0)) idx wire (at_payload size)

  module _ (four : length mask ≡ 4) (whole : length sent ≡ plen) where
    pub length-wire : length wire ≡ 2 + length wide + 4 + plen + length rest
    length-wire = omega (
      arith,
      length-append front (mask ++ (sent ++ rest)),
      length-append mask (sent ++ rest),
      length-append sent rest,
    )

    pub take_frame-wire :
        ((spec : ℕ → ℕ → Option (Frame × Bytes))
          → with_length (bit_and b2 0x7f) wire spec ≡ spec plen (2 + length wide))
        → not (bit_and b2 0x80 == 0) ≡ true
        → take_frame wire
          ≡ some (record { opcode = bit_and b1 0x0f; payload = masked mask sent }, rest)
    unfolding take_frame
    take_frame-wire lengths is_masked =
        let idx = 2 + length wide + 4 in
        let the_mask : slice wire (2 + length wide) idx ≡ mask =
          slice_middle (2 + length wide) idx front mask (sent ++ rest) (omega arith)
            (omega (arith, four)) in
        let assoc : wire ≡ (front ++ mask) ++ (sent ++ rest) =
          sym (append_assoc front mask (sent ++ rest)) in
        let start : length (front ++ mask) ≡ idx = omega (arith, length-append front mask, four) in
        let the_payload : slice wire idx (idx + plen) ≡ sent =
          ap (λ s. slice s idx (idx + plen)) assoc
          ∙ slice_middle idx (idx + plen) (front ++ mask) sent rest start (omega (arith, whole)) in
        let the_rest : drop (idx + plen) wire ≡ rest =
          ap (drop (idx + plen)) (assoc ∙ sym (append_assoc (front ++ mask) sent rest))
          ∙ drop-length_append (idx + plen) ((front ++ mask) ++ sent) rest
              (omega (arith, length-append (front ++ mask) sent, start, whole)) in
        given_enough 2 wire _ (omega (arith, length-wire))
        ∙ lengths at_mask
        ∙ ap (λ m. with_mask m (2 + length wide) wire (at_payload plen)) is_masked
        ∙ given_enough idx wire _ (omega (arith, length-wire))
        ∙ given_enough (idx + plen) wire _ (omega (arith, length-wire))
        ∙ ap₂ (λ (f : Frame) (t : Bytes). some (f, t))
            (ap₂ (λ m p. record { opcode = bit_and b1 0x0f; payload = masked m p }) the_mask
              the_payload)
            the_rest
