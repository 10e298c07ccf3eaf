-- ===== src/Catch/Shrinks.antt =====
-- A frame takes bytes off the stream.
use poly_firmware_build.Base.{
  ℕ, ◌+◌, ◌≤◌, ◌<◌, ◌≡◌, ap, Bool, true, false, not, Bool-cases, Option, none, some, inl, inr, leb,
  leb→le, ◌==◌, arith, bit_and, if◌then◌else◌, Bytes, length, drop, slice, length-drop,
}
use poly_firmware_build.Pack.{big, of_uint}
use poly_firmware_build.Catch.Frame.{nth, unmasked}
use poly_firmware_build.Catch.Rfc.{Frame, given, with_length, with_mask, take_frame}

module _ (s : Bytes) where
  abbrev Shrinks : Option (Frame × Bytes) → Type 0
  Shrinks o = (f : Frame) (t : Bytes) → o ≡ some (f, t) → length t < length s

  given-Shrinks :
      (n : ℕ) (spec : Option (Frame × Bytes))
      → (n ≤ length s → Shrinks spec)
      → Shrinks (given n s spec)
  given-Shrinks n spec next f t e = elim (Bool-cases (leb n (length s))) [
    | inl enough ↦ next (leb→le n (length s) enough) f t (ground (arith, enough))
    | inr short ↦ ground (arith, short)
  ]

  payload-Shrinks :
      (idx plen : ℕ) (f : Frame)
      → 2 ≤ idx
      → Shrinks (given (idx + plen) s (some (f, drop (idx + plen) s)))
  payload-Shrinks idx plen f two =
      given-Shrinks (idx + plen) (some (f, drop (idx + plen) s)) λ enough f' t e.
        let rest : drop (idx + plen) s ≡ t = cc in
        omega (arith, ap length rest, length-drop (idx + plen) s)

  mask-Shrinks :
      (m : Bool) (idx plen : ℕ) (frame : Option Bytes → ℕ → Frame)
      → 2 ≤ idx
      → Shrinks (
          with_mask m idx s
            λ mask idx. given (idx + plen) s (some (frame mask idx, drop (idx + plen) s)))
  mask-Shrinks false idx plen frame two = payload-Shrinks idx plen (frame none idx) two
  mask-Shrinks true idx plen frame two = given-Shrinks (idx + 4) _ λ _.
      payload-Shrinks (idx + 4) plen (frame (some (slice s idx (idx + 4))) (idx + 4)) (omega arith)

  length-Shrinks :
      (plen : ℕ) (spec : ℕ → ℕ → Option (Frame × Bytes))
      → ((plen idx : ℕ) → 2 ≤ idx → Shrinks (spec plen idx))
      → Shrinks (with_length plen s spec)
  length-Shrinks plen spec next = by_length (plen == 126) (plen == 127)
    where
      by_length :
          (two_bytes eight_bytes : Bool)
          → Shrinks (
              if two_bytes
              then given 4 s (spec (of_uint big (slice s 2 4)) 4)
              else if eight_bytes
              then given 10 s (spec (of_uint big (slice s 2 10)) 10)
              else spec plen 2)
      by_length true eight_bytes = given-Shrinks 4 _ λ _. next _ 4 (omega arith)
      by_length false true = given-Shrinks 10 _ λ _. next _ 10 (omega arith)
      by_length false false = next plen 2 (omega arith)

  pub take_frame-Shrinks : Shrinks (take_frame s)
  unfolding take_frame
  take_frame-Shrinks = given-Shrinks 2 _ λ _.
      length-Shrinks (bit_and (nth s 1) 0x7f) _ λ plen idx two.
        mask-Shrinks (not (bit_and (nth s 1) 0x80 == 0)) idx plen
          (λ mask idx. record {
            opcode = bit_and (nth s 0) 0x0f;
            payload = unmasked mask (slice s idx (idx + plen));
          })
          two
