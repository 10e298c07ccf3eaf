-- ===== src/Catch/Cut.antt =====
-- However the stream is cut into pieces, a round reads the frame that the whole stream begins with.
use poly_firmware_build.Base.{
  ltb→lt, lt→ltb, ℕ, zero, suc, ◌+◌, ◌≤◌, ◌<◌, ◌≡◌, refl, sym, ◌∙◌, ap, ap₂, Bool, true, false, not,
  Bool-cases, Option, none, some, inl, inr, List, [], ◌∷◌, ◌++◌, ltb, leb, leb→le, le→leb,
  lt→leb_false, ◌==◌, arith, bit_and, if◌then◌else◌, Bytes, length, drop, slice, length-append,
  drop-append_le, slice-append_le,
}
use poly_firmware_build.Host.{Result, ok, raise}
use poly_firmware_build.Pack.{big, of_uint}
use poly_firmware_build.Catch.Socket.{Event, pending, IsCalm}
use poly_firmware_build.Catch.Frame.{
  nth, unmasked, Read, complete, partial, needing, read_length, read_mask, read_frame,
}
use poly_firmware_build.Catch.Rfc.{Frame, given, with_length, with_mask, take_frame}
use poly_firmware_build.Catch.Waiting.{need_total}

-- What a round reads, against the first frame of the whole stream `s`.
abbrev pub Refines : Bytes → Result Read → Option (Frame × Bytes) → Type 0
Refines s (raise e) spec = ⊥
Refines s (ok (complete op p buf es)) spec =
    (spec ≡ some (record { opcode = op; payload = p }, buf ++ pending es)) × IsCalm es
Refines s (ok (partial buf es)) spec =
    (buf ++ pending es ≡ s) × IsCalm es × (pending es ≡ [] → spec ≡ none)

nth-append : (i : ℕ) (xs ys : Bytes) → i < length xs → nth (xs ++ ys) i ≡ nth xs i
nth-append i [] ys h = absurd (omega arith)
nth-append zero (x ∷ xs) ys h = refl
nth-append (suc i) (x ∷ xs) ys h = nth-append i xs ys (omega arith)

module _ (s : Bytes) where
  -- A buffer and a socket that together are the stream.
  abbrev Holds : Bytes → List Event → Type 0
  Holds buf es = (buf ++ pending es ≡ s) × IsCalm es

  slice-stream :
      (a b : ℕ) (buf : Bytes) (es : List Event)
      → Holds buf es
      → b ≤ length buf
      → slice buf a b ≡ slice s a b
  slice-stream a b buf es (same, _) h =
      sym (slice-append_le a b buf (pending es) h) ∙ ap (λ t. slice t a b) same

  le-stream : (n : ℕ) (buf : Bytes) (es : List Event) → Holds buf es → n ≤ length buf → n ≤ length s
  le-stream n buf es (same, _) h = omega (arith, ap length same, length-append buf (pending es))

  needing-Refines :
      (n : ℕ) (buf : Bytes) (es : List Event) (rest : Bytes → List Event → Result Read)
      (spec : Option (Frame × Bytes))
      → Holds buf es
      → ((buf' : Bytes) (es' : List Event)
          → Holds buf' es'
          → n ≤ length buf'
          → Refines s (rest buf' es') spec)
      → Refines s (needing n buf es rest) (given n s spec)
  needing-Refines n buf es rest spec (same, calm) next =
      let (enough, buf', es', e, w) = need_total n buf es calm in
      rw e (step enough buf' es' (w.same ∙ same, w.calm) w.tested)
    where
      step :
          (enough : Bool) (buf' : Bytes) (es' : List Event)
          → Holds buf' es'
          → leb n (length buf') ≡ enough
          → Refines s (if enough then rest buf' es' else ok (partial buf' es')) (given n s spec)
      step true buf' es' h t =
          rw (le→leb n (length s) (le-stream n buf' es' h (leb→le _ _ t)))
            (next buf' es' h (leb→le _ _ t))
      step false buf' es' (same', calm') f = (
        same',
        calm',
        λ none_left.
            let whole : length s ≡ length buf' =
              omega
                (arith, ap length same', length-append buf' (pending es'), ap length none_left) in
            rw (whole, f),
      )

  length-Refines :
      (plen : ℕ) (buf : Bytes) (es : List Event) (rest : ℕ → ℕ → Bytes → List Event → Result Read)
      (spec : ℕ → ℕ → Option (Frame × Bytes))
      → Holds buf es
      → 2 ≤ length buf
      → ((plen' idx : ℕ) (buf' : Bytes) (es' : List Event)
          → Holds buf' es'
          → idx ≤ length buf'
          → Refines s (rest plen' idx buf' es') (spec plen' idx))
      → Refines s (read_length plen buf es rest) (with_length plen s spec)
  length-Refines plen buf es rest spec h two next = by_length (plen == 126) (plen == 127)
    where
      wide :
          (n : ℕ)
          → Refines s
              (needing n buf es (λ buf es. rest (of_uint big (slice buf 2 n)) n buf es))
              (given n s (spec (of_uint big (slice s 2 n)) n))
      wide n = needing-Refines n buf es _ _ h λ buf' es' h' enough.
          rw (← slice-stream 2 n buf' es' h' enough)
            (next (of_uint big (slice buf' 2 n)) n buf' es' h' enough)

      by_length :
          (two_bytes eight_bytes : Bool)
          → Refines s
              (if two_bytes
                then needing 4 buf es (λ buf es. rest (of_uint big (slice buf 2 4)) 4 buf es)
                else if eight_bytes
                then needing 10 buf es (λ buf es. rest (of_uint big (slice buf 2 10)) 10 buf es)
                else rest plen 2 buf es)
              (if two_bytes
                then given 4 s (spec (of_uint big (slice s 2 4)) 4)
                else if eight_bytes
                then given 10 s (spec (of_uint big (slice s 2 10)) 10)
                else spec plen 2)
      by_length true eight_bytes = wide 4
      by_length false true = wide 10
      by_length false false = next plen 2 buf es h two

  mask-Refines :
      (m : Bool) (idx : ℕ) (buf : Bytes) (es : List Event)
      (rest : Option Bytes → ℕ → Bytes → List Event → Result Read)
      (spec : Option Bytes → ℕ → Option (Frame × Bytes))
      → Holds buf es
      → ((mask : Option Bytes) (idx' : ℕ) (buf' : Bytes) (es' : List Event)
          → Holds buf' es'
          → Refines s (rest mask idx' buf' es') (spec mask idx'))
      → Refines s (read_mask m idx buf es rest) (with_mask m idx s spec)
  mask-Refines false idx buf es rest spec h next = next none idx buf es h
  mask-Refines true idx buf es rest spec h next =
      needing-Refines (idx + 4) buf es _ _ h λ buf' es' h' enough.
        rw (← slice-stream idx (idx + 4) buf' es' h' enough)
          (next (some (slice buf' idx (idx + 4))) (idx + 4) buf' es' h')

  payload-Refines :
      (b1 idx plen : ℕ) (mask : Option Bytes) (buf : Bytes) (es : List Event)
      → Holds buf es
      → Refines s
          (needing (idx + plen) buf es λ buf es. ok (
            complete
              (bit_and b1 0x0f)
              (unmasked mask (slice buf idx (idx + plen)))
              (drop (idx + plen) buf)
              es))
          (given (idx + plen) s (
            some (
              record {
                opcode = bit_and b1 0x0f;
                payload = unmasked mask (slice s idx (idx + plen));
              },
              drop (idx + plen) s,
            )))
  payload-Refines b1 idx plen mask buf es h =
      let end = idx + plen in
      needing-Refines end buf es
        (λ buf es.
          ok (complete (bit_and b1 0x0f) (unmasked mask (slice buf idx end)) (drop end buf) es))
        (some (
          record { opcode = bit_and b1 0x0f; payload = unmasked mask (slice s idx end) },
          drop end s,
        ))
        h
        λ buf' es' h' enough. (
          ap₂
              (λ (p : Bytes) (t : Bytes).
                some (record { opcode = bit_and b1 0x0f; payload = unmasked mask p }, t))
              (sym (slice-stream idx end buf' es' h' enough))
              (sym (ap (drop end) h'.0) ∙ drop-append_le end buf' (pending es') enough),
          h'.1,
        )

  body-Refines :
      (b1 b2 : ℕ) (buf : Bytes) (es : List Event)
      → Holds buf es
      → 2 ≤ length buf
      → Refines s
          (read_length (bit_and b2 0x7f) buf es λ plen idx buf es.
            read_mask (not (bit_and b2 0x80 == 0)) idx buf es λ mask idx buf es.
              needing (idx + plen) buf es λ buf es. ok (
                complete
                  (bit_and b1 0x0f)
                  (unmasked mask (slice buf idx (idx + plen)))
                  (drop (idx + plen) buf)
                  es))
          (with_length (bit_and b2 0x7f) s λ plen idx.
            with_mask (not (bit_and b2 0x80 == 0)) idx s λ mask idx. given (idx + plen) s (
              some (
                record {
                  opcode = bit_and b1 0x0f;
                  payload = unmasked mask (slice s idx (idx + plen));
                },
                drop (idx + plen) s,
              )))
  body-Refines b1 b2 buf es h two =
      length-Refines (bit_and b2 0x7f) buf es _ _ h two λ plen idx buf' es' h' enough.
        mask-Refines (not (bit_and b2 0x80 == 0)) idx buf' es' _ _ h'
          λ mask idx' buf'' es'' h''. payload-Refines b1 idx' plen mask buf'' es'' h''

pub read_frame-Refines :
    (buf : Bytes) (es : List Event)
    → IsCalm es
    → Refines (buf ++ pending es) (read_frame buf es) (take_frame (buf ++ pending es))
unfolding read_frame take_frame
read_frame-Refines buf es calm = elim (Bool-cases (ltb (length buf) 2)) [
  | inl short ↦ rw short (
    refl,
    calm,
    λ none_left.
        let few : length (buf ++ pending es) < 2 = omega (
          arith,
          ltb→lt (length buf) 2 short,
          length-append buf (pending es),
          ap length none_left,
        ) in
        rw (lt→leb_false 2 (length (buf ++ pending es)) few),
  )
  | inr long ↦
      let two : 2 ≤ length buf = ground (arith, lt→ltb (length buf) 2) in
      rw
        (
          long,
          le→leb 2 (length (buf ++ pending es)) (omega (arith, length-append buf (pending es))),
          nth-append 1 buf (pending es) (omega arith),
          nth-append 0 buf (pending es) (omega arith),
        )
        (body-Refines (buf ++ pending es) (nth buf 0) (nth buf 1) buf es (refl, calm) two)
]
