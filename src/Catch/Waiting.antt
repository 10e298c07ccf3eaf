-- ===== src/Catch/Waiting.antt =====
-- What `need` and `poll` keep: the bytes in the buffer and those still to come, in their order.
use poly_firmware_build.Base.{
  ℕ, ◌≤◌, ◌≡◌, refl, ◌∙◌, Bool, true, false, inl, inr, List, [], ◌∷◌, ◌++◌, Bool-cases,
  true_ne_false, leb, arith, Bytes, length, length-append, append_assoc,
}
use poly_firmware_build.Host.{ok}
use poly_firmware_build.Catch.Socket.{
  Event, received, would_block, failed, pending, IsCalm, need, poll,
}

-- A result of `need` on a stream.
pub record IsWaited (n : ℕ) (s buf : Bytes) (enough : Bool) (buf' : Bytes) (es' : List Event)
    : Type 0 where
  pub same : buf' ++ pending es' ≡ s
  pub calm : IsCalm es'
  pub tested : leb n (length buf') ≡ enough
  pub grown : length buf ≤ length buf'

stays :
    (n : ℕ) (buf : Bytes) (es : List Event) (enough : Bool)
    → IsCalm es
    → leb n (length buf) ≡ enough
    → IsWaited n (buf ++ pending es) buf enough buf es
stays n buf es enough calm h = record { same = refl; calm = calm; tested = h; grown = omega arith }

pub need_total :
    (n : ℕ) (buf : Bytes) (es : List Event)
    → IsCalm es
    → (enough : Bool) × (buf' : Bytes) × (es' : List Event) × (need n buf es
        ≡ ok (enough, buf', es'))
      × IsWaited n (buf ++ pending es) buf enough buf' es'
unfolding need
need_total n buf [] calm = (leb n (length buf), buf, [], refl, stays n buf [] _ tt refl)
need_total n buf (received [] ∷ es) calm = elim (Bool-cases (leb n (length buf))) [
  | inl t ↦ (true, buf, received [] ∷ es, rw t, stays n buf (received [] ∷ es) true calm t)
  | inr f ↦ (false, buf, es, rw f, stays n buf es false calm f)
]
need_total n buf (would_block ∷ es) calm = elim (Bool-cases (leb n (length buf))) [
  | inl t ↦ (true, buf, would_block ∷ es, rw t, stays n buf (would_block ∷ es) true calm t)
  | inr f ↦ (false, buf, es, rw f, stays n buf es false calm f)
]
need_total n buf (failed ∷ es) calm = absurd calm
need_total n buf (received (c ∷ cs) ∷ es) calm =
    let (enough, buf', es', e, w) = need_total n (buf ++ c ∷ cs) es calm in
    elim (Bool-cases (leb n (length buf))) [
      | inl t ↦ (
        true,
        buf,
        received (c ∷ cs) ∷ es,
        rw t,
        stays n buf (received (c ∷ cs) ∷ es) true calm t,
      )
      | inr f ↦ (
        enough,
        buf',
        es',
        rw f e,
        record {
          same = w.same ∙ append_assoc buf (c ∷ cs) (pending es);
          calm = w.calm;
          tested = w.tested;
          grown = omega (arith, w.grown, length-append buf (c ∷ cs));
        },
      )
    ]

-- A result of `poll` on a stream: where the loop ends, the buffer is empty.
pub record IsPolled (s : Bytes) (on : Bool) (buf' : Bytes) (es' : List Event) : Type 0 where
  pub same : buf' ++ pending es' ≡ s
  pub calm : IsCalm es'
  pub ended : on ≡ false → buf' ≡ []

pub poll_total :
    (buf : Bytes) (es : List Event)
    → IsCalm es
    → (on : Bool) × (buf' : Bytes) × (es' : List Event) × (poll buf es ≡ ok (on, buf', es'))
      × IsPolled (buf ++ pending es) on buf' es'
unfolding poll
poll_total [] [] calm = (false, [], [], refl, record { same = refl; calm = tt; ended = λ _. refl })
poll_total (b ∷ bs) [] calm = (
  true,
  b ∷ bs,
  [],
  refl,
  record { same = refl; calm = tt; ended = λ h. absurd (true_ne_false h) },
)
poll_total [] (received [] ∷ es) calm =
    (false, [], es, refl, record { same = refl; calm = calm; ended = λ _. refl })
poll_total (b ∷ bs) (received [] ∷ es) calm = (
  true,
  b ∷ bs,
  es,
  refl,
  record { same = refl; calm = calm; ended = λ h. absurd (true_ne_false h) },
)
poll_total buf (received (c ∷ cs) ∷ es) calm = (
  true,
  buf ++ c ∷ cs,
  es,
  refl,
  record {
    same = append_assoc buf (c ∷ cs) (pending es);
    calm = calm;
    ended = λ h. absurd (true_ne_false h);
  },
)
poll_total [] (would_block ∷ es) calm =
    (false, [], es, refl, record { same = refl; calm = calm; ended = λ _. refl })
poll_total (b ∷ bs) (would_block ∷ es) calm = (
  true,
  b ∷ bs,
  es,
  refl,
  record { same = refl; calm = calm; ended = λ h. absurd (true_ne_false h) },
)
poll_total buf (failed ∷ es) calm = absurd calm
