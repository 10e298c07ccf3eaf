-- ===== src/Catch/Watch.antt =====
-- What holds of the loop of `main` after any rounds.
use mathlib.Core.Path.{subst}
use poly_firmware_build.Base.{
  ℕ, refl, sym, ◌∙◌, ap, Bool, true, false, not, ◌&&◌, Bool-cases, inl, inr, Option, none, some,
  List, [], ◌∷◌, ◌++◌, All, ltb, if◌then◌else◌, Bytes, append_assoc, append-nil,
}
use poly_firmware_build.Host.{Result, ok, raise}
use poly_firmware_build.Catch.Receive.{Received, ws_recv_all_available}
use poly_firmware_build.Catch.Stream.{ws_recv_all_available-IsReceived}
use poly_firmware_build.Catch.Console.{
  Tick, Console, Turn, on, exit, crash, stuck, last_bytes, prompt_found, trimmed, send_burst,
  take_data, receive_tick, turn, watch,
}
use poly_firmware_build.Catch.Watching.{
  IsGivenTick, IsWatching, IsCalm-append, last_bytes-EndsWith, trimmed-EndsWith,
}
use poly_firmware_build.Catch.Burst.{TurnFits, send_burst-TurnFits}

abbrev payload_in : Option (Result Received) → Bytes
payload_in none = []
payload_in (some (raise e)) = []
payload_in (some (ok r)) = r.payload

-- The data that a round hears, and the data that the rounds hear.
abbrev tick_data : ℕ → Tick → Console → Bytes
tick_data deadline t c =
    if ltb t.clock deadline && t.readable
    then payload_in (ws_recv_all_available c.leftover (c.socket ++ t.events))
    else []

abbrev pub heard_in : ℕ → List Tick → Console → Bytes
heard_in deadline [] c = []
heard_in deadline (t ∷ ts) c = tick_data deadline t c ++ elim (turn deadline t c) [
  | on c' ↦ heard_in deadline ts c'
  | exit status c' ↦ []
  | crash e ↦ []
  | stuck ↦ []
]

abbrev later_in : ℕ → List Tick → Turn → Bytes
later_in deadline ts (on c) = heard_in deadline ts c
later_in deadline ts (exit status c) = []
later_in deadline ts (crash e) = []
later_in deadline ts stuck = []

module _ (whole : Bool) (begun last : ℕ) where
  take_data-TurnFits :
      (heard : Bytes) (t : Tick) (c : Console) (d : Bytes)
      → IsGivenTick whole last t
      → IsWatching whole begun last heard c
      → TurnFits whole begun last (heard ++ d) (take_data t c d)
  unfolding take_data
  take_data-TurnFits heard t c [] tick w =
      subst (λ h. TurnFits whole begun last h (send_burst t c)) (sym (append-nil heard))
        (send_burst-TurnFits whole begun last heard t c tick w)
  take_data-TurnFits heard t c (b ∷ bs) tick w =
      let d = b ∷ bs in
      let (ends, bounded) = trimmed-EndsWith heard c.rx_buf d w.ends in
      let c' = record c { rx_buf = trimmed (c.rx_buf ++ d) } in
      let w' : IsWatching whole begun last (heard ++ d) c' = record {
        bounded = bounded;
        paced = w.paced;
        recent = w.recent;
        framed = w.framed;
        calm = w.calm;
        ends = ends;
      } in
      elim (Bool-cases (prompt_found (last_bytes 200 c'.rx_buf))) [
        | inl found ↦ rw found (
          w',
          inl (refl, ap prompt_found (last_bytes-EndsWith (heard ++ d) c'.rx_buf ends) ∙ found),
        )
        | inr not_found ↦
            rw not_found (send_burst-TurnFits whole begun last (heard ++ d) t c' tick w')
      ]

  receive_tick-TurnFits :
      (heard : Bytes) (t : Tick) (c : Console)
      → IsGivenTick whole last t
      → IsWatching whole begun last heard c
      → TurnFits whole begun last
          (heard ++ payload_in (ws_recv_all_available c.leftover c.socket))
          (receive_tick t c)
  unfolding receive_tick
  receive_tick-TurnFits heard t c tick w =
      let (r, e, taken, _) = ws_recv_all_available-IsReceived c.leftover c.socket w.calm in
      rw (e, receive_tick)
        (take_data-TurnFits heard t (record c { leftover = r.leftover; socket = r.events })
          r.payload tick
          (record {
            bounded = w.bounded;
            paced = w.paced;
            recent = w.recent;
            framed = w.framed;
            calm = taken.calm;
            ends = w.ends;
          }))

  turn-TurnFits :
      (deadline : ℕ) (heard : Bytes) (t : Tick) (c : Console)
      → IsGivenTick whole last t
      → IsWatching whole begun last heard c
      → TurnFits whole begun last (heard ++ tick_data deadline t c) (turn deadline t c)
  unfolding turn
  turn-TurnFits deadline heard t c tick w = by_test (ltb t.clock deadline) t.readable
    where
      c' : Console
      c' = record c { socket = c.socket ++ t.events }

      w' : IsWatching whole begun last heard c'
      w' = record {
        bounded = w.bounded;
        paced = w.paced;
        recent = w.recent;
        framed = w.framed;
        calm = IsCalm-append c.socket t.events w.calm tick.0.calm;
        ends = w.ends;
      }

      nothing :
          (x : Turn) → TurnFits whole begun last heard x → TurnFits whole begun last (heard ++ []) x
      nothing x h = subst (λ b. TurnFits whole begun last b x) (sym (append-nil heard)) h

      by_test :
          (in_time readable : Bool)
          → TurnFits whole begun last
              (heard
                ++ (if in_time && readable
                    then payload_in (ws_recv_all_available c.leftover (c.socket ++ t.events))
                    else []))
              (if not in_time
                then exit 1 c'
                else if readable
                then receive_tick t c'
                else send_burst t c')
      by_test false readable = nothing (exit 1 c') (w', inr refl)
      by_test true true = receive_tick-TurnFits heard t c' tick w'
      by_test true false =
          nothing (send_burst t c') (send_burst-TurnFits whole begun last heard t c' tick w')

  pub watch-TurnFits :
      (deadline : ℕ) (heard : Bytes) (ts : List Tick) (c : Console)
      → All (IsGivenTick whole last) ts
      → IsWatching whole begun last heard c
      → TurnFits whole begun last (heard ++ heard_in deadline ts c) (watch deadline ts c)
  unfolding watch
  watch-TurnFits deadline heard [] c ticks w =
      subst (λ b. IsWatching whole begun last b c) (sym (append-nil heard)) w
  watch-TurnFits deadline heard (t ∷ ts) c (tick, ticks) w =
      by_turn (turn deadline t c) (turn-TurnFits deadline heard t c tick w)
        (λ c' w'. watch-TurnFits deadline (heard ++ tick_data deadline t c) ts c' ticks w')
    where
      d : Bytes
      d = tick_data deadline t c

      by_turn :
          (x : Turn)
          → TurnFits whole begun last (heard ++ d) x
          → ((c' : Console)
              → IsWatching whole begun last (heard ++ d) c'
              → TurnFits whole begun last
                  ((heard ++ d) ++ heard_in deadline ts c')
                  (watch deadline ts c'))
          → TurnFits whole begun last (heard ++ (d ++ later_in deadline ts x)) (elim x [
            | on c' ↦ watch deadline ts c'
            | exit status c' ↦ exit status c'
            | crash e ↦ crash e
            | stuck ↦ stuck
          ])
      by_turn (on c') w' ih =
          subst (λ b. TurnFits whole begun last b (watch deadline ts c'))
            (append_assoc heard d (heard_in deadline ts c')) (ih c' w')
      by_turn (exit status c') h ih =
          subst (λ b. TurnFits whole begun last (heard ++ b) (exit status c')) (sym (append-nil d))
            h
      by_turn (crash e) h ih = h
      by_turn stuck h ih = h
