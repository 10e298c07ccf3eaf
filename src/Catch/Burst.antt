-- ===== src/Catch/Burst.antt =====
-- What sending a burst does to the state at the head of a round.
use mathlib.Core.Path.{subst}
use poly_firmware_build.Base.{
  ℕ, ◌+◌, ◌≤◌, ◌≡◌, refl, sym, ◌∙◌, ap, Bool, true, Bool-cases, ◌⊎◌, inl, inr, some, ◌++◌, leb,
  leb→le, arith, Bytes, append-nil, take, replicate,
}
use poly_firmware_build.Catch.Rfc.{take_frame, Parses}
use poly_firmware_build.Catch.Codec.{binary_frame-take_frame}
use poly_firmware_build.Catch.Console.{
  Sending, sent, blocked, broken, Tick, Console, Turn, on, exit, crash, stuck, burst, send_interval,
  last_bytes, prompt_found, send_burst,
}
use poly_firmware_build.Catch.Watching.{
  IsWhole, IsGivenTick, burst_frame, IsWatching, framed-append,
}

-- What a round ends in, where all data heard is `heard` and the loop's test for the prompt was right.
abbrev pub TurnFits : Bool → ℕ → ℕ → Bytes → Turn → Type 0
TurnFits whole begun last heard (on c) = IsWatching whole begun last heard c
TurnFits whole begun last heard (exit status c) =
    IsWatching whole begun last heard c
    × (((status ≡ 0) × (prompt_found (last_bytes 200 heard) ≡ true)) ⊎ (status ≡ 1))
TurnFits whole begun last heard (crash e) = ⊥
TurnFits whole begun last heard stuck = ⊥

module _ (whole : Bool) (begun last : ℕ) where
  pub send_burst-TurnFits :
      (heard : Bytes) (t : Tick) (c : Console)
      → IsGivenTick whole last t
      → IsWatching whole begun last heard c
      → TurnFits whole begun last heard (send_burst t c)
  unfolding send_burst take
  send_burst-TurnFits heard t c (tick, sends) w = elim (Bool-cases (leb c.next_send t.now)) [
    | inr early ↦ rw early w
    | inl due ↦
        let (frame, e, takes) =
          binary_frame-take_frame t.mask burst tick.four tick.mask_bytes (omega arith)
            (omega arith) in
        rw (due, e, send_burst)
          (by_sending frame takes (leb→le c.next_send t.now due) t.sending sends)
  ]
    where
      -- A part of a frame is sent.
      w_part :
          (frame : Bytes) (n : ℕ)
          → (whole ≡ true → n ≡ 0)
          → IsWatching whole begun last heard (record c { written = c.written ++ take n frame })
      w_part frame n is_whole = record {
        bounded = w.bounded;
        paced = w.paced;
        recent = w.recent;
        framed = λ all rest.
            subst (λ b. Parses (b ++ rest) (replicate c.sends burst_frame) rest)
              (sym (append-nil c.written)
                ∙ ap (λ k. c.written ++ take k frame) (sym (is_whole all)))
              (w.framed all rest);
        calm = w.calm;
        ends = w.ends;
      }

      by_sending :
          (frame : Bytes)
          → ((rest : Bytes) → take_frame (frame ++ rest) ≡ some (burst_frame, rest))
          → c.next_send ≤ t.now
          → (s : Sending) → (whole ≡ true → IsWhole s)
          → TurnFits whole begun last heard (elim s [
            | sent ↦ on (record c {
              sends = c.sends + 1;
              next_send = t.now + send_interval;
              written = c.written ++ frame;
            })
            | blocked n ↦ on (record c { written = c.written ++ take n frame })
            | broken n ↦ exit 1 (record c { written = c.written ++ take n frame })
          ])
      by_sending frame takes due sent is_whole = record {
        bounded = w.bounded;
        paced = omega (arith, w.paced);
        recent = omega (arith, tick.early);
        framed = λ all. framed-append burst_frame c.sends c.written frame (w.framed all) takes;
        calm = w.calm;
        ends = w.ends;
      }
      by_sending frame takes due (blocked n) is_whole = w_part frame n is_whole
      by_sending frame takes due (broken n) is_whole = (w_part frame n is_whole, inr refl)
