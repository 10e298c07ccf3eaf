-- ===== src/Catch/Safety.antt =====
-- What the loop of `main` promises: when it reports the prompt, how fast it sends, what it sends, and
-- that it ends.
use mathlib.Core.Path.{subst}
use poly_firmware_build.Base.{
  ℕ, ◌+◌, ◌*◌, ◌≤◌, ◌≡◌, ◌≢◌, refl, sym, ◌∙◌, ap, Bool, true, false, true_ne_false, ◌⊎◌, inl, inr,
  List, [], ◌∷◌, ◌++◌, All, arith, lt→ltb_false, Bytes, length, replicate, Text, codes, some,
  partition, occurs,
}
use poly_firmware_build.Catch.Socket.{Event, received, would_block, failed, pending, IsCalm}
use poly_firmware_build.Catch.Connect.{blank_line, first_line}
use poly_firmware_build.Catch.Handshake.{IsSteady, ws_connect-IsSteady}
use poly_firmware_build.Catch.Rfc.{Parses}
use poly_firmware_build.Catch.Console.{
  Tick, Console, start, Turn, on, exit, crash, stuck, last_bytes, prompt_found, turn, watch,
  ws_path, main,
}
use poly_firmware_build.Catch.Watching.{IsTick, IsWhole, given_ticks, IsWatching, burst_frame}
use poly_firmware_build.Catch.Burst.{TurnFits}
use poly_firmware_build.Catch.Watch.{heard_in, watch-TurnFits}

-- A round at or behind the deadline ends the loop.
pub watch_late :
    (deadline : ℕ) (before after : List Tick) (late : Tick) (c c' : Console)
    → deadline ≤ late.clock
    → watch deadline (before ++ late ∷ after) c ≢ on c'
unfolding watch turn
watch_late deadline [] after late c c' reached e =
    ground (arith, lt→ltb_false deadline late.clock reached)
watch_late deadline (t ∷ before) after late c c' reached e =
    by_turn (turn deadline t c)
      (λ next e'. watch_late deadline before after late next c' reached e') e
  where
    by_turn :
        (x : Turn)
        → ((next : Console) → watch deadline (before ++ late ∷ after) next ≢ on c')
        → (elim x [
          | on next ↦ watch deadline (before ++ late ∷ after) next
          | exit status next ↦ exit status next
          | crash e ↦ crash e
          | stuck ↦ stuck
        ])
          ≢ on c'
    by_turn (on next) ih e = ih next e
    by_turn (exit status next) ih e = cc
    by_turn (crash x) ih e = cc
    by_turn stuck ih e = cc

ends_well :
    (whole : Bool) (begun last : ℕ) (heard : Bytes) (x : Turn)
    → TurnFits whole begun last heard x
    → ((c : Console) → x ≢ on c)
    → (status : ℕ) × (c : Console) × (x ≡ exit status c) × ((status ≡ 0) ⊎ (status ≡ 1))
ends_well whole begun last heard (on c) h over = absurd (over c refl)
ends_well whole begun last heard (exit status c) (w, inl (zero_status, found)) over =
    (status, c, refl, inl zero_status)
ends_well whole begun last heard (exit status c) (w, inr one_status) over =
    (status, c, refl, inr one_status)
ends_well whole begun last heard (crash e) h over = absurd h
ends_well whole begun last heard stuck h over = absurd h

module _ (begun last : ℕ) (leftover : Bytes) (socket : List Event) (calm : IsCalm socket)
    (in_order : begun ≤ last) where
  begin-IsWatching : (whole : Bool) → IsWatching whole begun last [] (start leftover socket begun)
  begin-IsWatching whole = record {
    bounded = omega arith;
    paced = omega arith;
    recent = omega arith;
    framed = λ _ rest. unfold replicate in refl;
    calm = calm;
    ends = ([], refl, inl refl);
  }

  module _ (deadline : ℕ) (ticks : List Tick) (fine : All (IsTick last) ticks) where
    abbrev outcome : Turn
    outcome = watch deadline ticks (start leftover socket begun)

    abbrev heard : Bytes
    heard = heard_in deadline ticks (start leftover socket begun)

    outcome-TurnFits :
        (whole : Bool)
        → (whole ≡ true → All (λ t. IsWhole t.sending) ticks)
        → TurnFits whole begun last heard outcome
    outcome-TurnFits whole all =
        watch-TurnFits whole begun last deadline [] ticks (start leftover socket begun)
          (given_ticks whole last ticks fine all) (begin-IsWatching whole)

    -- Where frames may be sent in part.
    loop-TurnFits : TurnFits false begun last heard outcome
    loop-TurnFits = outcome-TurnFits false λ e. absurd (true_ne_false (sym e))

    -- On a socket that raises nothing but `BlockingIOError` or a timeout on receiving, with masks of
    -- four bytes: `main` exits with 0 only where the prompt is in the last 200 bytes of all data heard.
    pub watch_caught :
        (c : Console)
        → watch deadline ticks (start leftover socket begun) ≡ exit 0 c
        → prompt_found (last_bytes 200 (heard_in deadline ticks (start leftover socket begun)))
          ≡ true
    watch_caught c e = elim (subst (TurnFits false begun last heard) e loop-TurnFits).1 [
      | inl (zero_status, found) ↦ found
      | inr one_status ↦ absurd (omega arith)
    ]

    -- The state after the rounds, or where the loop was left.
    abbrev pub IsFinal : Console → Type 0
    IsFinal c = (outcome ≡ on c) ⊎ ((status : ℕ) × (outcome ≡ exit status c))

    final-IsWatching :
        (whole : Bool)
        → TurnFits whole begun last heard outcome
        → (c : Console) → IsFinal c
        → IsWatching whole begun last heard c
    final-IsWatching whole fits c (inl e) = subst (TurnFits whole begun last heard) e fits
    final-IsWatching whole fits c (inr (status, e)) =
        (subst (TurnFits whole begun last heard) e fits).0

    -- On such a socket, with such masks, after any rounds before the time `last`: the buffer has at most
    -- 16384 bytes, and the bursts whose sending returned are at most one for each 20 ms since the loop
    -- began, and one more.
    pub watch_paced :
        (c : Console) → IsFinal c → (length c.rx_buf ≤ 16384) × (begun + 20 * c.sends ≤ last + 20)
    watch_paced c final =
        let w = final-IsWatching false loop-TurnFits c final in
        (w.bounded, omega (arith, w.paced, w.recent))

    -- On such a socket, with such masks, where sending that raises has sent nothing of its frame: what was sent is
    -- `sends` whole binary frames, each of which a reader takes as one burst.
    pub watch-Parses :
        All (λ t. IsWhole t.sending) ticks
        → (c : Console) → IsFinal c
        → (rest : Bytes) → Parses (c.written ++ rest) (replicate c.sends burst_frame) rest
    watch-Parses all c final =
        (final-IsWatching true (outcome-TurnFits true λ _. all) c final).framed refl

    -- The loop has ended where the clock of a round has reached the deadline.
    pub watch_ends :
        (before after : List Tick) (late : Tick)
        → ticks ≡ before ++ late ∷ after
        → deadline ≤ late.clock
        → (status : ℕ) × (c : Console) × (watch deadline ticks (start leftover socket begun)
            ≡ exit status c)
          × ((status ≡ 0) ⊎ (status ≡ 1))
    watch_ends before after late parts reached =
        ends_well false begun last heard outcome loop-TurnFits λ c e.
          watch_late deadline before after late (start leftover socket begun) c reached
            (ap (λ ts. watch deadline ts (start leftover socket begun)) (sym parts) ∙ e)

IsSteady-IsCalm : (es : List Event) → IsSteady es → IsCalm es
IsSteady-IsCalm [] h = tt
IsSteady-IsCalm (received [] ∷ es) h = absurd h
IsSteady-IsCalm (received (c ∷ cs) ∷ es) h = IsSteady-IsCalm es h
IsSteady-IsCalm (would_block ∷ es) h = absurd h
IsSteady-IsCalm (failed ∷ es) h = absurd h

-- The probe delivers a response with status 101 in its first line, receiving then raises nothing but
-- `BlockingIOError` or a timeout, masks have four bytes, and the clock of one round has reached the timeout: `main` has ended with exit
-- status 0 or 1, whatever else the rounds bring.
pub main_ends :
    (host : Text) (host_port port total_timeout : ℕ) (key : Text) (response : List Event)
    (head rest : Bytes) (begun last : ℕ) (before after : List Tick) (late : Tick)
    → IsSteady response
    → partition blank_line (pending response) ≡ some (head, rest)
    → occurs (codes "101") (first_line head) ≡ true
    → begun ≤ last
    → All (IsTick last) (before ++ late ∷ after)
    → begun + total_timeout ≤ late.clock
    → (status : ℕ) × (c : Console) × (main host host_port port total_timeout key response begun
          (before ++ late ∷ after)
        ≡ exit status c)
      × ((status ≡ 0) ⊎ (status ≡ 1))
unfolding main
main_ends host host_port port total_timeout key response head rest begun last before after late
      steady cut good in_order fine reached =
    let (_, accepted, _) =
      ws_connect-IsSteady (ws_path port) host host_port key response head rest steady cut in
    let (leftover, socket, e, _, steady') = accepted good in
    let (status, c, e', st) =
      watch_ends begun last leftover socket (IsSteady-IsCalm socket steady') in_order
        (begun + total_timeout) (before ++ late ∷ after) fine before after late refl reached in
    (status, c, rw (e, main) e', st)
