-- ===== src/Catch/Shortens.antt =====
-- A frame that `read_frame` reads takes bytes off the stream, on any socket.
use mathlib.Core.Path.{subst}
use poly_firmware_build.Base.{
  ℕ, ◌+◌, ◌≤◌, ◌<◌, ◌≡◌, refl, Bool, true, false, not, Bool-cases, Option, none, some, inl, inr,
  List, [], ◌∷◌, ◌++◌, ltb, leb, leb→le, ◌==◌, arith, bit_and, if◌then◌else◌, Bytes, length, drop,
  slice, length-append, length-drop,
}
use poly_firmware_build.Host.{Result, ok, raise, bind}
use poly_firmware_build.Pack.{big, of_uint}
use poly_firmware_build.Catch.Socket.{Event, received, would_block, failed, pending, need}
use poly_firmware_build.Catch.Frame.{
  nth, unmasked, Read, complete, partial, needing, read_length, read_mask, read_frame,
}

-- The bytes in the buffer and those still to come.
abbrev pub size : Bytes → List Event → ℕ
size buf es = length buf + length (pending es)

-- A result of `need` makes no byte, and has the bytes that it says it has.
abbrev Waited : ℕ → ℕ → Result (Bool × Bytes × List Event) → Type 0
Waited n s (raise e) = Unit
Waited n s (ok (enough, buf, es)) = (size buf es ≤ s) × (enough ≡ true → n ≤ length buf)

need-Waited : (n : ℕ) (buf : Bytes) (es : List Event) → Waited n (size buf es) (need n buf es)
unfolding need
need-Waited n buf [] = (omega arith, λ h. leb→le n (length buf) h)
need-Waited n buf (received [] ∷ es) = elim (Bool-cases (leb n (length buf))) [
  | inl t ↦ rw t (omega arith, λ _. leb→le n (length buf) t)
  | inr f ↦ rw f (omega arith, λ h. cc)
]
need-Waited n buf (would_block ∷ es) = elim (Bool-cases (leb n (length buf))) [
  | inl t ↦ rw t (omega arith, λ _. leb→le n (length buf) t)
  | inr f ↦ rw f (omega arith, λ h. cc)
]
need-Waited n buf (failed ∷ es) = elim (Bool-cases (leb n (length buf))) [
  | inl t ↦ rw t (omega arith, λ _. leb→le n (length buf) t)
  | inr f ↦ rw f tt
]
need-Waited n buf (received (c ∷ cs) ∷ es) = elim (Bool-cases (leb n (length buf))) [
  | inl t ↦ rw t (omega arith, λ _. leb→le n (length buf) t)
  | inr f ↦
      let later = need-Waited n (buf ++ c ∷ cs) es in
      let same : size (buf ++ c ∷ cs) es ≡ size buf (received (c ∷ cs) ∷ es) =
        omega (arith, length-append buf (c ∷ cs), length-append (c ∷ cs) (pending es)) in
      rw f (subst (λ s. Waited n s (need n (buf ++ c ∷ cs) es)) same later)
]

-- A frame that is read takes bytes off the stream.
module _ (s : ℕ) where
  abbrev pub Shortens : Result Read → Type 0
  Shortens (raise e) = Unit
  Shortens (ok (partial buf es)) = Unit
  Shortens (ok (complete op p buf es)) = size buf es < s

  needing-Shortens :
      (n : ℕ) (buf : Bytes) (es : List Event) (rest : Bytes → List Event → Result Read)
      → size buf es ≤ s
      → ((buf' : Bytes) (es' : List Event)
          → size buf' es' ≤ s
          → n ≤ length buf'
          → Shortens (rest buf' es'))
      → Shortens (needing n buf es rest)
  needing-Shortens n buf es rest small next = step (need n buf es) (need-Waited n buf es)
    where
      step :
          (r : Result (Bool × Bytes × List Event))
          → Waited n (size buf es) r
          → Shortens (
              bind r λ (enough, buf', es'). if enough then rest buf' es' else ok (partial buf' es'))
      step (raise e) h = tt
      step (ok (true, buf', es')) (less, enough) = next buf' es' (omega (arith, less)) (enough refl)
      step (ok (false, buf', es')) h = tt

  payload-Shortens :
      (b1 idx plen : ℕ) (mask : Option Bytes) (buf : Bytes) (es : List Event)
      → 2 ≤ idx
      → size buf es ≤ s
      → Shortens (
          needing (idx + plen) buf es λ buf es. ok (
            complete
              (bit_and b1 0x0f)
              (unmasked mask (slice buf idx (idx + plen)))
              (drop (idx + plen) buf)
              es))
  payload-Shortens b1 idx plen mask buf es two small =
      needing-Shortens (idx + plen) buf es _ small
        λ buf' es' small' enough. omega (arith, length-drop (idx + plen) buf')

  mask-Shortens :
      (m : Bool) (idx : ℕ) (buf : Bytes) (es : List Event)
      (rest : Option Bytes → ℕ → Bytes → List Event → Result Read)
      → 2 ≤ idx
      → size buf es ≤ s
      → ((mask : Option Bytes) (idx' : ℕ) (buf' : Bytes) (es' : List Event)
          → 2 ≤ idx'
          → size buf' es' ≤ s
          → Shortens (rest mask idx' buf' es'))
      → Shortens (read_mask m idx buf es rest)
  mask-Shortens false idx buf es rest two small next = next none idx buf es two small
  mask-Shortens true idx buf es rest two small next =
      needing-Shortens (idx + 4) buf es _ small λ buf' es' small' _.
        next (some (slice buf' idx (idx + 4))) (idx + 4) buf' es' (omega arith) small'

  length-Shortens :
      (plen : ℕ) (buf : Bytes) (es : List Event) (rest : ℕ → ℕ → Bytes → List Event → Result Read)
      → size buf es ≤ s
      → ((plen' idx : ℕ) (buf' : Bytes) (es' : List Event)
          → 2 ≤ idx
          → size buf' es' ≤ s
          → Shortens (rest plen' idx buf' es'))
      → Shortens (read_length plen buf es rest)
  length-Shortens plen buf es rest small next = by_length (plen == 126) (plen == 127)
    where
      by_length :
          (two_bytes eight_bytes : Bool)
          → Shortens (
              if two_bytes
              then needing 4 buf es (λ buf es. rest (of_uint big (slice buf 2 4)) 4 buf es)
              else if eight_bytes
              then needing 10 buf es (λ buf es. rest (of_uint big (slice buf 2 10)) 10 buf es)
              else rest plen 2 buf es)
      by_length true eight_bytes =
          needing-Shortens 4 buf es _ small
            λ buf' es' small' _. next _ 4 buf' es' (omega arith) small'
      by_length false true =
          needing-Shortens 10 buf es _ small
            λ buf' es' small' _. next _ 10 buf' es' (omega arith) small'
      by_length false false = next plen 2 buf es (omega arith) small

  pub read_frame-Shortens :
      (buf : Bytes) (es : List Event) → size buf es ≤ s → Shortens (read_frame buf es)
  unfolding read_frame
  read_frame-Shortens buf es small = elim (Bool-cases (ltb (length buf) 2)) [
    | inl short ↦ rw short tt
    | inr long ↦ rw long (
        length-Shortens (bit_and (nth buf 1) 0x7f) buf es _ small λ plen idx buf' es' two small'.
          mask-Shortens (not (bit_and (nth buf 1) 0x80 == 0)) idx buf' es' _ two small'
            λ mask idx' buf'' es'' two' small''.
              payload-Shortens (nth buf 0) idx' plen mask buf'' es'' two' small'')
  ]
