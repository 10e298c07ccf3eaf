-- ===== src/Catch/Used.antt =====
-- What a round takes off the socket, and that a frame which is not complete is not complete in what
-- was received of it.
use mathlib.Core.Path.{subst}
use poly_firmware_build.Base.{
  ℕ, ◌+◌, ◌≤◌, ◌≡◌, refl, sym, ◌∙◌, ap, Bool, true, false, not, ◌==◌, Bool-cases, Option, none, inl,
  inr, List, [], ◌∷◌, ◌++◌, ltb, leb, bit_and, arith, if◌then◌else◌, Bytes, length, length-append,
  slice, drop, append_assoc, append-nil, fun_ext,
}
use poly_firmware_build.Host.{Result, ok, raise, bind}
use poly_firmware_build.Catch.Socket.{Event, received, would_block, failed, IsCalm, need}
use poly_firmware_build.Catch.Frame.{
  Read, complete, partial, needing, read_length, read_mask, read_frame, nth, unmasked,
}
use poly_firmware_build.Catch.Rfc.{take_frame}
use poly_firmware_build.Catch.Cut.{read_frame-Refines}

-- With enough bytes in the buffer nothing is received.
need_enough :
    (n : ℕ) (buf : Bytes) (es : List Event)
    → leb n (length buf) ≡ true
    → need n buf es ≡ ok (true, buf, es)
unfolding need
need_enough n buf [] h = rw h refl
need_enough n buf (received [] ∷ es) h = rw h refl
need_enough n buf (received (c ∷ cs) ∷ es) h = rw h refl
need_enough n buf (would_block ∷ es) h = rw h refl
need_enough n buf (failed ∷ es) h = rw h refl

-- The events that a call of `need` used, on which alone it depends.
abbrev NeedUsed : ℕ → Bytes → List Event → Result (Bool × Bytes × List Event) → Type 0
NeedUsed n buf es (raise e) = Unit
NeedUsed n buf es (ok (true, buf', es')) =
    (used : List Event) × (es ≡ used ++ es')
    × ((others : List Event) → need n buf (used ++ others) ≡ ok (true, buf', others))
NeedUsed n buf es (ok (false, buf', es')) =
    (used : List Event) × (es ≡ used ++ es') × (need n buf used ≡ ok (false, buf', []))

need-NeedUsed : (n : ℕ) (buf : Bytes) (es : List Event) → NeedUsed n buf es (need n buf es)
unfolding need
need-NeedUsed n buf [] = elim (Bool-cases (leb n (length buf))) [
  | inl t ↦ rw t ([], refl, λ others. need_enough n buf others t)
  | inr f ↦ rw f ([], refl, rw f refl)
]
need-NeedUsed n buf (received [] ∷ es) = elim (Bool-cases (leb n (length buf))) [
  | inl t ↦ rw t ([], refl, λ others. need_enough n buf others t)
  | inr f ↦ rw f (received [] ∷ [], refl, rw f refl)
]
need-NeedUsed n buf (would_block ∷ es) = elim (Bool-cases (leb n (length buf))) [
  | inl t ↦ rw t ([], refl, λ others. need_enough n buf others t)
  | inr f ↦ rw f (would_block ∷ [], refl, rw f refl)
]
need-NeedUsed n buf (failed ∷ es) = elim (Bool-cases (leb n (length buf))) [
  | inl t ↦ rw t ([], refl, λ others. need_enough n buf others t)
  | inr f ↦ rw f tt
]
need-NeedUsed n buf (received (c ∷ cs) ∷ es) = elim (Bool-cases (leb n (length buf))) [
  | inl t ↦ rw t ([], refl, λ others. need_enough n buf others t)
  | inr f ↦ rw f (step (need n (buf ++ c ∷ cs) es) (need-NeedUsed n (buf ++ c ∷ cs) es) f)
]
  where
    step :
        (r : Result (Bool × Bytes × List Event))
        → NeedUsed n (buf ++ c ∷ cs) es r
        → leb n (length buf) ≡ false
        → NeedUsed n buf (received (c ∷ cs) ∷ es) r
    step (raise e) h f = tt
    step (ok (true, buf', es')) (used, e, more) f =
        (received (c ∷ cs) ∷ used, ap (λ t. received (c ∷ cs) ∷ t) e, λ others. rw f (more others))
    step (ok (false, buf', es')) (used, e, more) f =
        (received (c ∷ cs) ∷ used, ap (λ t. received (c ∷ cs) ∷ t) e, rw f more)

-- The events that a round `read` used, where its frame was not complete.
abbrev ReadUsed : (List Event → Result Read) → List Event → Result Read → Type 0
ReadUsed read es (raise e) = Unit
ReadUsed read es (ok (complete op p buf es')) = length es' ≤ length es
ReadUsed read es (ok (partial buf es')) =
    (used : List Event) × (es ≡ used ++ es') × (read used ≡ ok (partial buf []))

needing-ReadUsed :
    (n : ℕ) (buf : Bytes) (es : List Event) (rest : Bytes → List Event → Result Read)
    → ((buf' : Bytes) (es' : List Event) → ReadUsed (rest buf') es' (rest buf' es'))
    → ReadUsed (λ es. needing n buf es rest) es (needing n buf es rest)
needing-ReadUsed n buf es rest next = step (need n buf es) (need-NeedUsed n buf es)
  where
    after :
        (buf' : Bytes) (es' used : List Event)
        → es ≡ used ++ es'
        → ((others : List Event) → need n buf (used ++ others) ≡ ok (true, buf', others))
        → (r : Result Read) → ReadUsed (rest buf') es' r
        → ReadUsed (λ es. needing n buf es rest) es r
    after buf' es' used e more (raise x) h = tt
    after buf' es' used e more (ok (complete op p b es2)) h =
        omega (arith, h, ap length e, length-append used es')
    after buf' es' used e more (ok (partial b es2)) (used2, e2, stops) = (
      used ++ used2,
      e ∙ ap (λ t. used ++ t) e2 ∙ sym (append_assoc used used2 es2),
      rw (more used2) stops,
    )

    step :
        (r : Result (Bool × Bytes × List Event))
        → NeedUsed n buf es r
        → ReadUsed
            (λ es. needing n buf es rest)
            es
            (bind r λ (enough, buf', es'). if enough then rest buf' es' else ok (partial buf' es'))
    step (raise e) h = tt
    step (ok (true, buf', es')) (used, e, more) =
        after buf' es' used e more (rest buf' es') (next buf' es')
    step (ok (false, buf', es')) (used, e, more) = (used, e, rw more refl)

length-ReadUsed :
    (plen : ℕ) (buf : Bytes) (es : List Event) (rest : ℕ → ℕ → Bytes → List Event → Result Read)
    → ((plen' idx : ℕ) (buf' : Bytes) (es' : List Event)
        → ReadUsed (rest plen' idx buf') es' (rest plen' idx buf' es'))
    → ReadUsed (λ es. read_length plen buf es rest) es (read_length plen buf es rest)
length-ReadUsed plen buf es rest next = elim (Bool-cases (plen == 126)) [
  | inl two ↦ rw two (needing-ReadUsed 4 buf es _ λ buf' es'. next _ 4 buf' es')
  | inr other ↦ elim (Bool-cases (plen == 127)) [
    | inl eight ↦ rw (other, eight) (needing-ReadUsed 10 buf es _ λ buf' es'. next _ 10 buf' es')
    | inr short ↦ rw (other, short) (next plen 2 buf es)
  ]
]

mask-ReadUsed :
    (m : Bool) (idx : ℕ) (buf : Bytes) (es : List Event)
    (rest : Option Bytes → ℕ → Bytes → List Event → Result Read)
    → ((mask : Option Bytes) (idx' : ℕ) (buf' : Bytes) (es' : List Event)
        → ReadUsed (rest mask idx' buf') es' (rest mask idx' buf' es'))
    → ReadUsed (λ es. read_mask m idx buf es rest) es (read_mask m idx buf es rest)
mask-ReadUsed false idx buf es rest next = next none idx buf es
mask-ReadUsed true idx buf es rest next =
    needing-ReadUsed (idx + 4) buf es _ λ buf' es'. next _ (idx + 4) buf' es'

abbrev read_payload : ℕ → Option Bytes → ℕ → ℕ → Bytes → List Event → Result Read
read_payload b1 mask idx plen b e =
    ok (
      complete (bit_and b1 0x0f) (unmasked mask (slice b idx (idx + plen))) (drop (idx + plen) b) e)

-- A round whose buffer has the first two bytes.
abbrev read_body : Bytes → List Event → Result Read
read_body buf es = read_length (bit_and (nth buf 1) 0x7f) buf es λ plen idx buf' es'.
    read_mask (not (bit_and (nth buf 1) 0x80 == 0)) idx buf' es' λ mask idx' buf'' es''.
      needing (idx' + plen) buf'' es'' (read_payload (nth buf 0) mask idx' plen)

read_body-ReadUsed :
    (buf : Bytes) (es : List Event) → ReadUsed (read_body buf) es (read_body buf es)
read_body-ReadUsed buf es = length-ReadUsed (bit_and (nth buf 1) 0x7f) buf es _ λ plen idx buf' es'.
    mask-ReadUsed (not (bit_and (nth buf 1) 0x80 == 0)) idx buf' es' _ λ mask idx' buf'' es''.
      needing-ReadUsed (idx' + plen) buf'' es'' (read_payload (nth buf 0) mask idx' plen)
        λ b e. omega arith

read_frame-read_body :
    (buf : Bytes)
    → ltb (length buf) 2 ≡ false
    → (es : List Event) → read_frame buf es ≡ read_body buf es
unfolding read_frame
read_frame-read_body buf long es = rw long refl

pub read_frame-ReadUsed :
    (buf : Bytes) (es : List Event) → ReadUsed (read_frame buf) es (read_frame buf es)
unfolding read_frame
read_frame-ReadUsed buf es = elim (Bool-cases (ltb (length buf) 2)) [
  | inl short ↦ rw short ([], refl, rw short refl)
  | inr long ↦
      subst (λ f. ReadUsed f es (f es)) (sym (fun_ext (read_frame-read_body buf long)))
        (read_body-ReadUsed buf es)
]

IsCalm-front : (xs ys : List Event) → IsCalm (xs ++ ys) → IsCalm xs
IsCalm-front [] ys h = tt
IsCalm-front (received b ∷ xs) ys h = IsCalm-front xs ys h
IsCalm-front (would_block ∷ xs) ys h = IsCalm-front xs ys h
IsCalm-front (failed ∷ xs) ys h = absurd h

-- Where a round stops at a frame that is not complete, the buffer it keeps begins with none.
pub take_frame-partial :
    (buf : Bytes) (es : List Event) (buf' : Bytes) (es' : List Event)
    → IsCalm es
    → read_frame buf es ≡ ok (partial buf' es')
    → take_frame buf' ≡ none
take_frame-partial buf es buf' es' calm e =
    let (used, parts, stops) =
      subst (ReadUsed (read_frame buf) es) e (read_frame-ReadUsed buf es) in
    let (same, _, no_frame) =
      rw stops at (read_frame-Refines buf used (IsCalm-front used es' (subst IsCalm parts calm))) in
    ap take_frame (sym (append-nil buf') ∙ same) ∙ no_frame refl

abbrev pub Leaves : List Event → Result Read → Type 0
Leaves es (raise e) = Unit
Leaves es (ok (complete op p b es')) = length es' ≤ length es
Leaves es (ok (partial b es')) = length es' ≤ length es

-- What a round leaves on the socket is no more than it found.
pub length-read_frame : (buf : Bytes) (es : List Event) → Leaves es (read_frame buf es)
length-read_frame buf es = step (read_frame buf es) (read_frame-ReadUsed buf es)
  where
    step : (r : Result Read) → ReadUsed (read_frame buf) es r → Leaves es r
    step (raise e) h = tt
    step (ok (complete op p b es')) h = h
    step (ok (partial b es')) (used, e, _) = omega (arith, ap length e, length-append used es')
