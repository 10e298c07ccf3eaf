-- ===== src/Catch/Watching.antt =====
-- The state of `main` at the head of a round, and what keeps it.
use mathlib.Core.Path.{subst}
use poly_firmware_build.Base.{
  lt→ltb, ℕ, ◌+◌, ◌-◌, ◌*◌, ◌≤◌, ◌≡◌, refl, sym, ◌∙◌, ap, Bool, true, Bool-cases, ◌⊎◌, inl, inr,
  some, List, [], ◌∷◌, ◌++◌, All, IsByte, ltb, ltb→lt, arith, Bytes, length, drop, take,
  take-append-drop, length-append, length-drop, append_assoc, drop-length_append, drop-drop,
  replicate, replicate-add,
}
use poly_firmware_build.Catch.Socket.{Event, received, would_block, failed, IsCalm}
use poly_firmware_build.Catch.Rfc.{Frame, take_frame, Parses}
use poly_firmware_build.Catch.Console.{
  Sending, sent, blocked, broken, Tick, Console, burst, last_bytes, trimmed,
}

-- A round of a socket that raises nothing but `BlockingIOError` on receiving, before the time `last`.
pub record IsTick (last : ℕ) (t : Tick) : Type 0 where
  pub calm : IsCalm t.events
  pub early : t.now ≤ last
  pub four : length t.mask ≡ 4
  pub mask_bytes : All IsByte t.mask

-- Sending that raises has sent nothing of the frame.
abbrev pub IsWhole : Sending → Type 0
IsWhole sent = Unit
IsWhole (blocked n) = n ≡ 0
IsWhole (broken n) = n ≡ 0

abbrev pub IsGivenTick : Bool → ℕ → Tick → Type 0
IsGivenTick whole last t = IsTick last t × (whole ≡ true → IsWhole t.sending)

pub given_ticks :
    (whole : Bool) (last : ℕ) (ts : List Tick)
    → All (IsTick last) ts
    → (whole ≡ true → All (λ t. IsWhole t.sending) ts)
    → All (IsGivenTick whole last) ts
given_ticks whole last [] ticks all = tt
given_ticks whole last (t ∷ ts) (tick, ticks) all =
    ((tick, λ e. (all e).0), given_ticks whole last ts ticks λ e. (all e).1)

abbrev pub burst_frame : Frame
burst_frame = record { opcode = 2; payload = burst }

-- The buffer is the end of all that was heard, and all of it while it is short.
abbrev pub EndsWith : Bytes → Bytes → Type 0
EndsWith heard rx = (p : Bytes) × (heard ≡ p ++ rx) × ((p ≡ []) ⊎ (200 ≤ length rx))

-- The state at the head of a round, where the loop began at `begun` and all data heard is `heard`.
-- Where `whole` is set, no frame was sent in part.
pub record IsWatching (whole : Bool) (begun last : ℕ) (heard : Bytes) (c : Console) : Type 0 where
  pub bounded : length c.rx_buf ≤ 16384
  pub paced : begun + 20 * c.sends ≤ c.next_send
  pub recent : c.next_send ≤ last + 20
  pub framed :
      whole ≡ true
      → (rest : Bytes) → Parses (c.written ++ rest) (replicate c.sends burst_frame) rest
  pub calm : IsCalm c.socket
  pub ends : EndsWith heard c.rx_buf

pub IsCalm-append : (es fs : List Event) → IsCalm es → IsCalm fs → IsCalm (es ++ fs)
IsCalm-append [] fs h k = k
IsCalm-append (received b ∷ es) fs h k = IsCalm-append es fs h k
IsCalm-append (would_block ∷ es) fs h k = IsCalm-append es fs h k
IsCalm-append (failed ∷ es) fs h k = absurd h

last_bytes-append : (n : ℕ) (p b : Bytes) → n ≤ length b → last_bytes n (p ++ b) ≡ last_bytes n b
last_bytes-append n p b h =
    ap (λ k. drop k (p ++ b)) (omega (arith, length-append p b))
    ∙ sym (drop-drop (length p) (length b - n) (p ++ b))
    ∙ ap (drop (length b - n)) (drop-length_append (length p) p b refl)

-- The last 200 bytes heard are the last 200 of the buffer.
pub last_bytes-EndsWith :
    (heard rx : Bytes) → EndsWith heard rx → last_bytes 200 heard ≡ last_bytes 200 rx
last_bytes-EndsWith heard rx (p, e, inl empty) = ap (last_bytes 200) (e ∙ ap (λ q. q ++ rx) empty)
last_bytes-EndsWith heard rx (p, e, inr long) =
    ap (last_bytes 200) e ∙ last_bytes-append 200 p rx long

pub trimmed-EndsWith :
    (heard rx d : Bytes)
    → EndsWith heard rx
    → EndsWith (heard ++ d) (trimmed (rx ++ d)) × (length (trimmed (rx ++ d)) ≤ 16384)
unfolding trimmed
trimmed-EndsWith heard rx d (p, e, cut) = elim (Bool-cases (ltb 16384 (length (rx ++ d)))) [
  | inl long ↦
      let all = rx ++ d in
      let over = ltb→lt 16384 (length all) long in
      let n = length all - 8192 in
      let kept : length (drop n all) ≡ 8192 = omega (arith, length-drop n all) in
      rw long (
        (
          p ++ take n all,
          ap (λ h. h ++ d) e
              ∙ append_assoc p rx d
              ∙ ap (λ b. p ++ b) (sym (take-append-drop n all))
              ∙ sym (append_assoc p (take n all) (drop n all)),
          inr (omega (arith, kept)),
        ),
        omega (arith, kept),
      )
  | inr short ↦ rw short (
    (p, ap (λ h. h ++ d) e ∙ append_assoc p rx d, still cut),
    ground (arith, lt→ltb 16384 (length (rx ++ d))),
  )
]
  where
    still : (p ≡ []) ⊎ (200 ≤ length rx) → (p ≡ []) ⊎ (200 ≤ length (rx ++ d))
    still (inl empty) = inl empty
    still (inr long) = inr (omega (arith, length-append rx d))

Parses-append :
    (fs gs : List Frame) (s t u : Bytes) → Parses s fs t → Parses t gs u → Parses s (fs ++ gs) u
Parses-append [] gs s t u h k = subst (λ s. Parses s gs u) (sym h) k
Parses-append (f ∷ fs) gs s t u (s', e, h) k = (s', e, Parses-append fs gs s' t u h k)

-- One more frame is sent.
pub framed-append :
    (f : Frame) (n : ℕ) (s b : Bytes)
    → ((rest : Bytes) → Parses (s ++ rest) (replicate n f) rest)
    → ((rest : Bytes) → take_frame (b ++ rest) ≡ some (f, rest))
    → (rest : Bytes) → Parses ((s ++ b) ++ rest) (replicate (n + 1) f) rest
framed-append f n s b framed takes rest =
    rw (append_assoc s b rest, replicate-add n 1 f)
      (Parses-append (replicate n f) (replicate 1 f) (s ++ (b ++ rest)) (b ++ rest) rest
        (framed (b ++ rest)) (unfold replicate in (rest, takes rest, refl)))
