-- ===== src/Watcher/Order.antt =====
-- The order of what the program does: what it has written, on the line and to the file of its state,
-- follows from its phase.
use mathlib.Core.Path.{subst}
use poly_firmware_build.Base.{
  occurs-append_front, occurs-append_back, ℕ, ◌-◌, ◌≤◌, ◌≡◌, refl, sym, ◌∙◌, ap, true, Bool-cases,
  inl, inr, List, [], ◌∷◌, ◌++◌, ltb, ltb→lt, lt→ltb, arith, Bytes, String, length, length-drop,
  take, take-append-drop, append_assoc, append-nil, occurs,
}
use poly_firmware_build.Watcher.{
  ser_read, Phase, wait_uboot, at_uboot, fastboot_sent, idle, Watcher, Action, log, write, drain,
  sleep, state, banner, fastboot_command, spam, extended, in_fastboot, advance, read_in, System,
  round, one_round, Reach, begin, further,
}
use poly_firmware_build.Watcher.Trace.{states, writes, states-append, writes-append}

-- The lines that a phase stands for, and what was written before it.
abbrev pub lines : Phase → List String
lines wait_uboot = "STARTING" ∷ []
lines at_uboot = "STARTING" ∷ "AT_UBOOT_PROMPT" ∷ []
lines fastboot_sent = "STARTING" ∷ "AT_UBOOT_PROMPT" ∷ "FASTBOOT_CMD_SENT" ∷ []
lines idle = "STARTING" ∷ "AT_UBOOT_PROMPT" ∷ "FASTBOOT_CMD_SENT" ∷ "IN_FASTBOOT_MODE" ∷ []

abbrev commands : List Bytes
commands = (13 ∷ 13 ∷ []) ∷ fastboot_command ∷ (13 ∷ []) ∷ []

abbrev pub written : Phase → List Bytes
written wait_uboot = []
written at_uboot = writes (spam 120)
written fastboot_sent = writes (spam 120) ++ commands
written idle = writes (spam 120) ++ commands

-- While it waits, the buffer is the end of what was heard; later the banner was heard.
abbrev pub HasHeard : Phase → Bytes → Bytes → Type 0
HasHeard wait_uboot heard buf = (p : Bytes) × (heard ≡ p ++ buf)
HasHeard at_uboot heard buf = occurs banner heard ≡ true
HasHeard fastboot_sent heard buf = occurs banner heard ≡ true
HasHeard idle heard buf = occurs banner heard ≡ true

pub record IsOrdered (phase : Phase) (buf : Bytes) (trace : List Action) (heard : Bytes)
    : Type 0 where
  pub states_lines : states trace ≡ lines phase
  pub writes_written : writes trace ≡ written phase
  pub bounded : length buf ≤ 16384
  pub has_heard : HasHeard phase heard buf

extended_lem :
    (buf d : Bytes)
    → (length (extended buf d) ≤ 16384) × ((p : Bytes) × (buf ++ d ≡ p ++ extended buf d))
unfolding extended
extended_lem buf d = elim (Bool-cases (ltb 16384 (length (buf ++ d)))) [
  | inl long ↦
      let all = buf ++ d in
      let n = length all - 8192 in
      rw long (
        omega (arith, length-drop n all, ltb→lt 16384 (length all) long),
        (take n all, sym (take-append-drop n all)),
      )
  | inr short ↦ rw short (ground (arith, lt→ltb 16384 (length (buf ++ d))), ([], refl))
]

-- Actions that write nothing and change no line, behind a trace.
silent :
    {phase : Phase} {buf : Bytes} {trace : List Action} {heard : Bytes} (acts : List Action)
    → states acts ≡ []
    → writes acts ≡ []
    → IsOrdered phase buf trace heard
    → IsOrdered phase buf (trace ++ acts) heard
silent {trace = trace} acts no_lines no_writes h = record {
  states_lines =
      states-append trace acts
      ∙ ap (λ l. states trace ++ l) no_lines
      ∙ append-nil (states trace)
      ∙ h.states_lines;
  writes_written =
      writes-append trace acts
      ∙ ap (λ l. writes trace ++ l) no_writes
      ∙ append-nil (writes trace)
      ∙ h.writes_written;
  bounded = h.bounded;
  has_heard = h.has_heard;
}

HasHeard-append :
    (phase : Phase) (heard buf d : Bytes)
    → HasHeard phase heard buf
    → HasHeard phase (heard ++ d) (extended buf d)
HasHeard-append wait_uboot heard buf d (p, e) =
    let (_, (q, e')) = extended_lem buf d in
    (
      p ++ q,
      ap (λ h. h ++ d) e
          ∙ append_assoc p buf d
          ∙ ap (λ b. p ++ b) e'
          ∙ sym (append_assoc p q (extended buf d)),
    )
HasHeard-append at_uboot heard buf d h = occurs-append_back banner heard d h
HasHeard-append fastboot_sent heard buf d h = occurs-append_back banner heard d h
HasHeard-append idle heard buf d h = occurs-append_back banner heard d h

read_in-IsOrdered :
    (d : Bytes) (w : Watcher) (trace : List Action) (heard : Bytes)
    → IsOrdered w.phase w.buf trace heard
    → IsOrdered (read_in d w).0.phase (read_in d w).0.buf (trace ++ (read_in d w).1) (heard ++ d)
unfolding read_in
read_in-IsOrdered [] w trace heard h =
    subst (IsOrdered w.phase w.buf (trace ++ [])) (sym (append-nil heard)) (silent [] refl refl h)
read_in-IsOrdered (b ∷ bs) w trace heard h = silent (log (b ∷ bs) ∷ []) refl refl (record {
  states_lines = h.states_lines;
  writes_written = h.writes_written;
  bounded = (extended_lem w.buf (b ∷ bs)).0;
  has_heard = HasHeard-append w.phase heard w.buf (b ∷ bs) h.has_heard;
})

-- The next phase, with the lines and the writes that lead to it.
promoted :
    {phase next : Phase} {buf : Bytes} {trace : List Action} {heard : Bytes} (buf' : Bytes)
    (acts : List Action)
    → lines phase ++ states acts ≡ lines next
    → written phase ++ writes acts ≡ written next
    → length buf' ≤ 16384
    → HasHeard next heard buf'
    → IsOrdered phase buf trace heard
    → IsOrdered next buf' (trace ++ acts) heard
promoted {trace = trace} buf' acts more_lines more_writes small heard_now h = record {
  states_lines = states-append trace acts ∙ ap (λ l. l ++ states acts) h.states_lines ∙ more_lines;
  writes_written =
      writes-append trace acts ∙ ap (λ l. l ++ writes acts) h.writes_written ∙ more_writes;
  bounded = small;
  has_heard = heard_now;
}

abbrev interrupt_acts : List Action
interrupt_acts = spam 120 ++ drain ∷ state "AT_UBOOT_PROMPT" ∷ []

interrupt_states : states interrupt_acts ≡ "AT_UBOOT_PROMPT" ∷ []
unfolding spam
interrupt_states = refl

interrupt_writes : writes interrupt_acts ≡ writes (spam 120)
unfolding spam
interrupt_writes = refl

advance-IsOrdered :
    (now : ℕ) (phase : Phase) (t : ℕ) (buf : Bytes) (trace : List Action) (heard : Bytes)
    → IsOrdered phase buf trace heard
    → let (next, acts) = advance now (record { phase = phase; phase_t = t; buf = buf }) in
      IsOrdered next.phase next.buf (trace ++ acts) heard
unfolding advance
advance-IsOrdered now wait_uboot t buf trace heard h = elim (Bool-cases (occurs banner buf)) [
  | inr quiet ↦ rw quiet (silent [] refl refl h)
  | inl seen ↦
      let (p, e) = h.has_heard in
      rw seen (
        promoted [] interrupt_acts (ap (λ l. "STARTING" ∷ l) interrupt_states) interrupt_writes
          (omega arith) (ap (occurs banner) e ∙ occurs-append_front banner p buf seen) h)
]
advance-IsOrdered now at_uboot t buf trace heard h = elim (Bool-cases (ltb 1000 (now - t))) [
  | inr early ↦ rw early (silent [] refl refl h)
  | inl due ↦ rw due (
      promoted []
        (write (13 ∷ 13 ∷ [])
          ∷ sleep 100
          ∷ write fastboot_command
          ∷ sleep 500
          ∷ write (13 ∷ [])
          ∷ state "FASTBOOT_CMD_SENT"
          ∷ [])
        refl refl (omega arith) h.has_heard h)
]
advance-IsOrdered now fastboot_sent t buf trace heard h =
    elim (Bool-cases (in_fastboot (record { phase = fastboot_sent; phase_t = t; buf = buf }) now)) [
      | inr not_yet ↦ rw not_yet (silent [] refl refl h)
      | inl there ↦ rw there (
          promoted buf (state "IN_FASTBOOT_MODE" ∷ []) refl (append-nil (written fastboot_sent))
            h.bounded h.has_heard h)
    ]
advance-IsOrdered now idle t buf trace heard h = silent [] refl refl h

abbrev pub SystemIsOrdered : System → Type 0
SystemIsOrdered s = IsOrdered s.watcher.phase s.watcher.buf s.trace s.heard

pub round-IsOrdered :
    (d : Bytes) (now : ℕ) (s : System) → SystemIsOrdered s → SystemIsOrdered (round d now s)
unfolding round
round-IsOrdered d now s h =
    let w = (read_in d s.watcher).0 in
    let logged = (read_in d s.watcher).1 in
    let taken = read_in-IsOrdered d s.watcher s.trace s.heard h in
    let moved =
      advance-IsOrdered now w.phase w.phase_t w.buf (s.trace ++ logged) (s.heard ++ d) taken in
    let acts = (advance now w).1 in
    subst (λ trace. IsOrdered (advance now w).0.phase (advance now w).0.buf trace (s.heard ++ d))
      (append_assoc (s.trace ++ logged) acts (sleep 50 ∷ [])
        ∙ append_assoc s.trace logged (acts ++ sleep 50 ∷ []))
      (silent (sleep 50 ∷ []) refl refl moved)

-- In every reachable state: the lines in the file of its state are those of its phase, in their
-- order; the writes on the serial line are exactly those before its phase, so `fastboot 0` is
-- written once and nothing before the banner; the buffer has at most 16384 bytes; and behind the
-- first phase the banner is in the data heard.
pub Reach-IsOrdered : {begun : ℕ} {s : System} → Reach begun s → SystemIsOrdered s
Reach-IsOrdered begin = record {
  states_lines = refl;
  writes_written = refl;
  bounded = omega arith;
  has_heard = ([], refl);
}
Reach-IsOrdered (further r (one_round s reading now)) =
    round-IsOrdered (ser_read reading) now s (Reach-IsOrdered r)
