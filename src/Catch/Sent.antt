-- ===== src/Catch/Sent.antt =====
-- The streams that calls of `ws_send_binary` write, and the frames read off them.
use mathlib.Core.Path.{subst}
use poly_firmware_build.Base.{
  ◌^◌, ◌<◌, ◌≡◌, refl, sym, ◌∙◌, ap, Option, none, some, List, [], ◌∷◌, ◌++◌, All, IsByte, arith,
  Bytes, length, append_assoc,
}
use poly_firmware_build.Host.{ok}
use poly_firmware_build.Catch.Frame.{binary_frame}
use poly_firmware_build.Catch.Rfc.{Frame, take_frame, Parses, payloads}
use poly_firmware_build.Catch.Round.{IsClosing, take_frame-nil}
use poly_firmware_build.Catch.Codec.{binary_frame-take_frame}

-- A mask and a payload that `ws_send_binary` can send.
abbrev pub IsSendable : Bytes × Bytes → Type 0
IsSendable (mask, payload) =
    (length mask ≡ 4) × All IsByte mask × All IsByte payload × (length payload < 2 ^ 64)

-- A stream that calls of `ws_send_binary` wrote.
abbrev pub IsStream : List (Bytes × Bytes) → Bytes → Type 0
IsStream [] s = s ≡ []
IsStream ((mask, payload) ∷ ps) s =
    (b rest : Bytes) × (binary_frame mask payload ≡ ok b) × (s ≡ b ++ rest) × IsStream ps rest

abbrev pub joined : List (Bytes × Bytes) → Bytes
joined [] = []
joined ((mask, payload) ∷ ps) = payload ++ joined ps

pub take_frame-IsStream :
    (mask payload s : Bytes) (ps : List (Bytes × Bytes))
    → IsSendable (mask, payload)
    → IsStream ((mask, payload) ∷ ps) s
    → (rest : Bytes) × (take_frame s ≡ some (record { opcode = 2; payload = payload }, rest))
      × IsStream ps rest
take_frame-IsStream mask payload s ps (four, mask_bytes, payload_bytes, small)
      (b, rest, e, same, later) =
    let (b', e', takes) =
      binary_frame-take_frame mask payload four mask_bytes payload_bytes small in
    let one : b ≡ b' = cc in
    (rest, ap take_frame (same ∙ ap (λ b. b ++ rest) one) ∙ takes rest, later)

-- Frames read off such a stream are the first ones sent, and none of them closes.
pub record IsPart (ps : List (Bytes × Bytes)) (fs : List Frame) (t : Bytes) : Type 0 where
  pub left : List (Bytes × Bytes)
  pub sendable : All IsSendable left
  pub stream : IsStream left t
  pub same : payloads fs ++ joined left ≡ joined ps
  pub open_still : ¬ (IsClosing fs)

abbrev found : Frame → Bytes → Option (Frame × Bytes)
found f s = some (f, s)

same_frame : (f g : Frame) (s t : Bytes) → found f s ≡ found g t → (f ≡ g) × (s ≡ t)
same_frame f g s t e = (cc, cc)

pub none_ne_some : {A : Type 0} {a : A} → ¬ (none ≡ some a)
none_ne_some e = cc

pub parts_of :
    (ps : List (Bytes × Bytes)) (s : Bytes) (fs : List Frame) (t : Bytes)
    → All IsSendable ps
    → IsStream ps s
    → Parses s fs t
    → IsPart ps fs t
parts_of ps s [] t good stream same = record {
  left = ps;
  sendable = good;
  stream = subst (IsStream ps) same stream;
  same = refl;
  open_still = λ h. h;
}
parts_of [] s (f ∷ fs) t good stream (s', e, later) =
    absurd (none_ne_some (sym (ap take_frame stream ∙ take_frame-nil) ∙ e))
parts_of ((mask, payload) ∷ ps) s (f ∷ fs) t (good, goods) stream (s', e, later) =
    let (rest, e', stream') = take_frame-IsStream mask payload s ps good stream in
    let (same_f, same_s) =
      same_frame f (record { opcode = 2; payload = payload }) s' rest (sym e ∙ e') in
    let part = parts_of ps s' fs t goods (subst (IsStream ps) (sym same_s) stream') later in
    record {
      left = part.left;
      sendable = part.sendable;
      stream = part.stream;
      same =
          ap (λ g. (payloads (g ∷ fs)) ++ joined part.left) same_f
          ∙ append_assoc payload (payloads fs) (joined part.left)
          ∙ ap (λ b. payload ++ b) part.same;
      open_still = not_closing f fs (ap (λ g. g.opcode) same_f) part.open_still;
    }
  where
    not_closing :
        (f : Frame) (fs : List Frame) → f.opcode ≡ 2 → ¬ (IsClosing fs) → ¬ (IsClosing (f ∷ fs))
    not_closing f [] two h c = omega arith
    not_closing f (g ∷ fs) two h c = h c
