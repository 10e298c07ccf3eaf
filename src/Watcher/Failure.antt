-- ===== src/Watcher/Failure.antt =====
-- What the program has done where a write on the serial line fails.
use mathlib.Core.Path.{subst}
use poly_firmware_build.Base.{
  ℕ, ◌≡◌, refl, sym, ◌∙◌, ap, ap₂, Bool-cases, inl, inr, List, [], ◌∷◌, ◌++◌, length, drop,
  drop-length_append, Bytes, append-nil, append_assoc, occurs, ltb, ◌-◌,
}
use poly_firmware_build.Watcher.{
  Phase, wait_uboot, at_uboot, fastboot_sent, idle, Action, log, write, drain, sleep, state, banner,
  spam, extended, in_fastboot, advance, read_in, ser_read, System, round, Reach, Broken,
  write_fails,
}
use poly_firmware_build.Watcher.Trace.{states, writes, states-append, writes-append}
use poly_firmware_build.Watcher.Order.{lines, written, Reach-IsOrdered, round-IsOrdered}

-- No write is behind the first line of the state.
abbrev IsSettled : List Action → Type 0
IsSettled [] = Unit
IsSettled (state line ∷ acts) = writes acts ≡ []
IsSettled (log b ∷ acts) = IsSettled acts
IsSettled (write b ∷ acts) = IsSettled acts
IsSettled (drain ∷ acts) = IsSettled acts
IsSettled (sleep t ∷ acts) = IsSettled acts

writes-ne-nil : (before rest : List Action) (b : Bytes) → ¬ (writes (before ++ write b ∷ rest) ≡ [])
writes-ne-nil [] rest b e = cc
writes-ne-nil (write c ∷ before) rest b e = cc
writes-ne-nil (log c ∷ before) rest b e = writes-ne-nil before rest b e
writes-ne-nil (state line ∷ before) rest b e = writes-ne-nil before rest b e
writes-ne-nil (drain ∷ before) rest b e = writes-ne-nil before rest b e
writes-ne-nil (sleep t ∷ before) rest b e = writes-ne-nil before rest b e

-- So nothing is recorded before a write.
states-IsSettled :
    (before rest : List Action) (b : Bytes)
    → IsSettled (before ++ write b ∷ rest)
    → states before ≡ []
states-IsSettled [] rest b h = refl
states-IsSettled (write c ∷ before) rest b h = states-IsSettled before rest b h
states-IsSettled (log c ∷ before) rest b h = states-IsSettled before rest b h
states-IsSettled (state line ∷ before) rest b h = absurd (writes-ne-nil before rest b h)
states-IsSettled (drain ∷ before) rest b h = states-IsSettled before rest b h
states-IsSettled (sleep t ∷ before) rest b h = states-IsSettled before rest b h

advance-IsSettled :
    (now : ℕ) (phase : Phase) (t : ℕ) (buf : Bytes)
    → IsSettled
        ((advance now (record { phase = phase; phase_t = t; buf = buf })).1 ++ sleep 50 ∷ [])
unfolding advance spam
advance-IsSettled now wait_uboot t buf = elim (Bool-cases (occurs banner buf)) [
  | inl seen ↦ rw seen refl
  | inr quiet ↦ rw quiet tt
]
advance-IsSettled now at_uboot t buf = elim (Bool-cases (ltb 1000 (now - t))) [
  | inl due ↦ rw due refl
  | inr early ↦ rw early tt
]
advance-IsSettled now fastboot_sent t buf =
    elim (Bool-cases (in_fastboot (record { phase = fastboot_sent; phase_t = t; buf = buf }) now)) [
      | inl there ↦ rw there refl
      | inr not_yet ↦ rw not_yet tt
    ]
advance-IsSettled now idle t buf = tt

-- What a round does.
abbrev acts_of : Bytes → ℕ → System → List Action
acts_of d now s =
    let (taken, logged) = read_in d s.watcher in logged ++ ((advance now taken).1 ++ sleep 50 ∷ [])

acts_of-IsSettled : (d : Bytes) (now : ℕ) (s : System) → IsSettled (acts_of d now s)
unfolding read_in
acts_of-IsSettled [] now s = advance-IsSettled now s.watcher.phase s.watcher.phase_t s.watcher.buf
acts_of-IsSettled (b ∷ bs) now s =
    advance-IsSettled now s.watcher.phase s.watcher.phase_t (extended s.watcher.buf (b ∷ bs))

round-acts_of :
    (d : Bytes) (now : ℕ) (s : System) → (round d now s).trace ≡ s.trace ++ acts_of d now s
unfolding round
round-acts_of d now s = refl

same_behind : (xs ys zs : List Action) → xs ++ ys ≡ xs ++ zs → ys ≡ zs
same_behind xs ys zs e =
    sym (drop-length_append (length xs) xs ys refl)
    ∙ ap (drop (length xs)) e
    ∙ drop-length_append (length xs) xs zs refl

-- What a whole run writes goes on from what every phase has written.
written-idle : (phase : Phase) → (later : List Bytes) × (written idle ≡ written phase ++ later)
written-idle wait_uboot = (written idle, refl)
written-idle at_uboot = (_, refl)
written-idle fastboot_sent = ([], sym (append-nil (written idle)))
written-idle idle = ([], sym (append-nil (written idle)))

-- Where a write fails in the round behind a reachable state: the file of its state has exactly the
-- lines of the phase in which the round began, so no phase is recorded before all its writes were
-- made; the writes are those before that phase and then some of the round's; and they are the first
-- ones of a whole run in their order, with at least one missing.
pub Broken-writes :
    {s : System} {begun : ℕ} {done : List Action}
    → Reach begun s
    → Broken s done
    → (states done ≡ lines s.watcher.phase)
      × ((made : List Bytes) × (writes done ≡ written s.watcher.phase ++ made))
      × ((b : Bytes) × (later : List Bytes) × (written idle ≡ writes done ++ b ∷ later))
Broken-writes {s = s} r (write_fails reading now before rest b e) =
    let d = ser_read reading in
    let begun = Reach-IsOrdered r in
    let ordered = round-IsOrdered d now s begun in
    let after = round d now s in
    let done = s.trace ++ before in
    let acts : acts_of d now s ≡ before ++ write b ∷ rest =
      same_behind s.trace _ _ (sym (round-acts_of d now s) ∙ e) in
    let unrecorded : states before ≡ [] =
      states-IsSettled before rest b (subst IsSettled acts (acts_of-IsSettled d now s)) in
    let whole : after.trace ≡ done ++ write b ∷ rest =
      e ∙ sym (append_assoc s.trace before (write b ∷ rest)) in
    let (later, w) = written-idle after.watcher.phase in
    (
      states-append s.trace before
          ∙ ap₂ ◌++◌ begun.states_lines unrecorded
          ∙ append-nil (lines s.watcher.phase),
      (
        writes before,
        writes-append s.trace before ∙ ap (λ ws. ws ++ writes before) begun.writes_written,
      ),
      (
        b,
        writes rest ++ later,
        w
            ∙ ap (λ ws. ws ++ later)
                (sym ordered.writes_written ∙ ap writes whole ∙ writes-append done (write b ∷ rest))
            ∙ append_assoc (writes done) (b ∷ writes rest) later,
      ),
    )
