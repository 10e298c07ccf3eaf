-- ===== src/Watcher/Progress.antt =====
-- The phases only go forward, and with time they go to the end.
use poly_firmware_build.Base.{
  dec_lt, ◌⊎◌, true_ne_false, ℕ, ◌+◌, ◌-◌, ◌≤◌, ◌<◌, ◌≡◌, refl, sym, ◌∙◌, true, Bool-cases, inl,
  inr, List, [], ◌∷◌, All, ltb, lt→ltb, arith, Bytes, occurs,
}
use poly_firmware_build.Watcher.{
  Phase, wait_uboot, at_uboot, fastboot_sent, idle, Watcher, banner, in_fastboot, advance, read_in,
  System, round,
}

abbrev pub rank : Phase → ℕ
rank wait_uboot = 0
rank at_uboot = 1
rank fastboot_sent = 2
rank idle = 3

-- The rounds of the loop, on the data and the clock of each.
abbrev pub rounds : List (Bytes × ℕ) → System → System
rounds [] s = s
rounds ((d, now) ∷ rs) s = rounds rs (round d now s)

-- A step of the phases: none goes back, a full wait goes on, and the time of the phase is of a round.
record IsStep (phase : Phase) (t now : ℕ) (w : Watcher) : Type 0 where
  forward : rank phase ≤ rank w.phase
  recent : (w.phase_t ≡ t) ⊎ (w.phase_t ≡ now)
  waits : rank w.phase ≡ rank phase → w.phase_t ≡ t
  starts : 1 ≤ rank phase → t + 1000 < now → 2 ≤ rank w.phase
  finishes : 2 ≤ rank phase → t + 8000 < now → 3 ≤ rank w.phase

in_fastboot_late : (w : Watcher) (now : ℕ) → w.phase_t + 8000 < now → in_fastboot w now ≡ true
unfolding in_fastboot
in_fastboot_late w now late = ground (arith, lt→ltb 8000 (now - w.phase_t))

advance-IsStep :
    (now : ℕ) (phase : Phase) (t : ℕ) (buf : Bytes)
    → IsStep phase t now (advance now (record { phase = phase; phase_t = t; buf = buf })).0
unfolding advance
advance-IsStep now wait_uboot t buf = elim (Bool-cases (occurs banner buf)) [
  | inl seen ↦ rw seen (record {
    forward = omega arith;
    recent = inr refl;
    waits = λ e. absurd (omega arith);
    starts = λ h. absurd (omega arith);
    finishes = λ h. absurd (omega arith);
  })
  | inr quiet ↦ rw quiet (record {
    forward = omega arith;
    recent = inl refl;
    waits = λ e. refl;
    starts = λ h. absurd (omega arith);
    finishes = λ h. absurd (omega arith);
  })
]
advance-IsStep now at_uboot t buf = elim (Bool-cases (ltb 1000 (now - t))) [
  | inl due ↦ rw due (record {
    forward = omega arith;
    recent = inr refl;
    waits = λ e. absurd (omega arith);
    starts = λ _ _. omega arith;
    finishes = λ h. absurd (omega arith);
  })
  | inr early ↦ rw early (record {
    forward = omega arith;
    recent = inl refl;
    waits = λ e. refl;
    starts = λ _ late. ground (arith, lt→ltb 1000 (now - t), early);
    finishes = λ h. absurd (omega arith);
  })
]
advance-IsStep now fastboot_sent t buf =
    let w : Watcher = record { phase = fastboot_sent; phase_t = t; buf = buf } in
    elim (Bool-cases (in_fastboot w now)) [
      | inl there ↦ rw there (record {
        forward = omega arith;
        recent = inr refl;
        waits = λ e. absurd (omega arith);
        starts = λ _ _. omega arith;
        finishes = λ _ _. omega arith;
      })
      | inr not_yet ↦ rw not_yet (record {
        forward = omega arith;
        recent = inl refl;
        waits = λ e. refl;
        starts = λ _ _. omega arith;
        finishes = λ _ late. absurd (true_ne_false (sym (in_fastboot_late w now late) ∙ not_yet));
      })
    ]
advance-IsStep now idle t buf = record {
  forward = omega arith;
  recent = inl refl;
  waits = λ e. refl;
  starts = λ _ _. omega arith;
  finishes = λ _ _. omega arith;
}

read_in-phase : (d : Bytes) (w : Watcher) → (read_in d w).0 ≡ record w { buf = (read_in d w).0.buf }
unfolding read_in
read_in-phase [] w = refl
read_in-phase (b ∷ bs) w = refl

round-IsStep :
    (d : Bytes) (now : ℕ) (s : System)
    → IsStep s.watcher.phase s.watcher.phase_t now (round d now s).watcher
unfolding round
round-IsStep d now s =
    rw (read_in-phase d s.watcher)
      (advance-IsStep now s.watcher.phase s.watcher.phase_t (read_in d s.watcher).0.buf)

-- Rounds up to the time `last`: the phase is still the second, since the time `t`, or it is a later
-- one, since a time that is not behind `last`.
abbrev Waits : ℕ → ℕ → Watcher → Type 0
Waits t last w = ((rank w.phase ≡ 1) × (w.phase_t ≡ t)) ⊎ ((2 ≤ rank w.phase) × (w.phase_t ≤ last))

rounds-Waits :
    (rs : List (Bytes × ℕ)) (s : System) (t last : ℕ)
    → t ≤ last
    → All (λ (d, now). now ≤ last) rs
    → Waits t last s.watcher
    → Waits t last (rounds rs s).watcher
rounds-Waits [] s t last early h w = w
rounds-Waits ((d, now) ∷ rs) s t last early (h, hs) w =
    rounds-Waits rs (round d now s) t last early hs (step (round-IsStep d now s) w)
  where
    step :
        IsStep s.watcher.phase s.watcher.phase_t now (round d now s).watcher
        → Waits t last s.watcher
        → Waits t last (round d now s).watcher
    step st (inl (at, since)) = elim (dec_lt 1 (rank (round d now s).watcher.phase)) [
      | yes went_on ↦ inr (omega arith, ground (arith, st.recent, since, early))
      | no waiting ↦
          let same : rank (round d now s).watcher.phase ≡ rank s.watcher.phase =
            omega (arith, st.forward, at) in
          inl (same ∙ at, st.waits same ∙ since)
    ]
    step st (inr (at, since)) = inr (omega (arith, st.forward), ground (arith, st.recent))

rounds_idle :
    (rs : List (Bytes × ℕ)) (s : System)
    → 3 ≤ rank s.watcher.phase
    → (rounds rs s).watcher.phase ≡ idle
rounds_idle [] s h = is_idle s.watcher.phase h
  where
    is_idle : (phase : Phase) → 3 ≤ rank phase → phase ≡ idle
    is_idle wait_uboot h = absurd (omega arith)
    is_idle at_uboot h = absurd (omega arith)
    is_idle fastboot_sent h = absurd (omega arith)
    is_idle idle h = refl
rounds_idle ((d, now) ∷ rs) s h =
    rounds_idle rs (round d now s) (omega (arith, (round-IsStep d now s).forward))

-- The phase is the third, since a time that is not behind `last`, or the fourth.
record IsSent (last : ℕ) (w : Watcher) : Type 0 where
  behind : 2 ≤ rank w.phase
  since : rank w.phase ≡ 2 → w.phase_t ≤ last

rounds-IsSent :
    (rs : List (Bytes × ℕ)) (s : System) (last : ℕ)
    → IsSent last s.watcher
    → IsSent last (rounds rs s).watcher
rounds-IsSent [] s last h = h
rounds-IsSent ((d, now) ∷ rs) s last h =
    let st = round-IsStep d now s in
    rounds-IsSent rs (round d now s) last (record {
      behind = omega (arith, h.behind, st.forward);
      since = λ e.
          let before : rank s.watcher.phase ≡ 2 = omega (arith, e, h.behind, st.forward) in
          omega (arith, st.waits (e ∙ sym before), h.since before);
    })

-- A round more than 1 s behind the time of the second phase.
due-IsSent :
    (d : Bytes) (now : ℕ) (s : System) (t : ℕ)
    → t + 1000 < now
    → Waits t now s.watcher
    → IsSent now (round d now s).watcher
due-IsSent d now s t late (inl (at, since)) =
    let st = round-IsStep d now s in
    record {
      behind = st.starts (omega (arith, at)) (omega (arith, since));
      since = λ _. ground (arith, st.recent, since);
    }
due-IsSent d now s t late (inr (at, since)) =
    let st = round-IsStep d now s in
    record { behind = omega (arith, at, st.forward); since = λ _. ground (arith, st.recent, since) }

-- Once the banner was seen: after a round more than 1 s behind the time of the phase, with any number
-- of rounds before it whose clocks are not behind its own, and a round more than 8 s behind that one,
-- with any rounds at all between the two, the phase is `idle`, and stays so in any rounds.
pub rounds_end_idle :
    (s : System) (early middle after : List (Bytes × ℕ)) (d d' : Bytes) (now now' : ℕ)
    → 1 ≤ rank s.watcher.phase
    → s.watcher.phase_t + 1000 < now
    → All (λ (d, clock). clock ≤ now) early
    → now + 8000 < now'
    → (rounds after (round d' now' (rounds middle (round d now (rounds early s))))).watcher.phase
      ≡ idle
rounds_end_idle s early middle after d d' now now' seen wait before wait' =
    let begin : Waits s.watcher.phase_t now s.watcher = begins (dec_lt 1 (rank s.watcher.phase)) in
    let s1 = rounds early s in
    let sent =
      due-IsSent d now s1 s.watcher.phase_t wait
        (rounds-Waits early s s.watcher.phase_t now (omega (arith, wait)) before begin) in
    let s2 = rounds middle (round d now s1) in
    let still = rounds-IsSent middle (round d now s1) now sent in
    rounds_idle after (round d' now' s2) (ends s2 still (round-IsStep d' now' s2))
  where
    begins : Dec (1 < rank s.watcher.phase) → Waits s.watcher.phase_t now s.watcher
    begins (yes later) = inr (omega arith, omega (arith, wait))
    begins (no first) = inl (omega (arith, seen), refl)

    ends :
        (s2 : System)
        → IsSent now s2.watcher
        → IsStep s2.watcher.phase s2.watcher.phase_t now' (round d' now' s2).watcher
        → 3 ≤ rank (round d' now' s2).watcher.phase
    ends s2 still st = elim (dec_lt 2 (rank s2.watcher.phase)) [
      | yes there ↦ omega (arith, st.forward)
      | no waiting ↦
          let two : rank s2.watcher.phase ≡ 2 = omega (arith, still.behind) in
          st.finishes still.behind (omega (arith, still.since two))
    ]
