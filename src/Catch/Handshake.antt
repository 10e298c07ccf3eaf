-- ===== src/Catch/Handshake.antt =====
-- However the response is cut into pieces, the frames begin where its headers end.
use poly_firmware_build.Base.{
  ℕ, ◌≡◌, ◌≢◌, refl, sym, ◌∙◌, ap, true, false, Bool-cases, Option, some, inl, inr, List, [], ◌∷◌,
  ◌++◌, arith, Bytes, Text, codes, occurs, occurs-partition, partition, partition-append,
  append-nil, append_assoc, true_ne_false,
}
use poly_firmware_build.Host.{Result, ok, raise, runtime_error}
use poly_firmware_build.Catch.Socket.{Event, received, would_block, failed, pending}
use poly_firmware_build.Catch.Connect.{
  blank_line, read_response, halves, first_line, request, accept_response, ws_connect,
}

-- Every call gets some bytes.
abbrev pub IsSteady : List Event → Type 0
IsSteady [] = Unit
IsSteady (received [] ∷ es) = ⊥
IsSteady (received (c ∷ cs) ∷ es) = IsSteady es
IsSteady (would_block ∷ es) = ⊥
IsSteady (failed ∷ es) = ⊥

abbrev ResponseIs : Bytes → Bytes → Result (Bytes × List Event) → Type 0
ResponseIs head rest r =
    (buf leftover : Bytes) × (es' : List Event) × (r ≡ ok (buf, es'))
    × (partition blank_line buf ≡ some (head, leftover))
    × (leftover ++ pending es' ≡ rest)
    × IsSteady es'

abbrev two_halves : Bytes → Bytes → Option (Bytes × Bytes)
two_halves head rest = some (head, rest)

same_halves : (h h' l l' : Bytes) → two_halves h l ≡ two_halves h' l' → (h ≡ h') × (l ≡ l')
same_halves h h' l l' e = (cc, cc)

-- The separator is in the buffer already.
headers_in :
    (head rest buf : Bytes) (es : List Event)
    → IsSteady es
    → occurs blank_line buf ≡ true
    → partition blank_line (buf ++ pending es) ≡ some (head, rest)
    → ResponseIs head rest (ok (buf, es))
headers_in head rest buf es steady here e = elim (occurs-partition blank_line buf) [
  | inl (h, l, found, o) ↦
      let (same_head, same_rest) =
        same_halves h head (l ++ pending es) rest
          (sym (partition-append blank_line buf (pending es) h l found) ∙ e) in
      (buf, l, es, refl, found ∙ ap (λ h. some (h, l)) same_head, same_rest, steady)
  | inr (missing, o) ↦ absurd (true_ne_false (sym here ∙ o))
]

headers_missing :
    (head rest buf : Bytes)
    → occurs blank_line buf ≡ false
    → partition blank_line (buf ++ []) ≢ some (head, rest)
headers_missing head rest buf absent e = elim (occurs-partition blank_line buf) [
  | inl (h, l, found, o) ↦ true_ne_false (sym o ∙ absent)
  | inr (missing, o) ↦ ground (arith, append-nil buf)
]

read_response-IsSteady :
    (head rest buf : Bytes) (es : List Event)
    → IsSteady es
    → partition blank_line (buf ++ pending es) ≡ some (head, rest)
    → ResponseIs head rest (read_response buf es)
unfolding read_response
read_response-IsSteady head rest buf [] steady e = elim (Bool-cases (occurs blank_line buf)) [
  | inl t ↦ rw t (headers_in head rest buf [] tt t e)
  | inr f ↦ absurd (headers_missing head rest buf f e)
]
read_response-IsSteady head rest buf (received [] ∷ es) steady e = absurd steady
read_response-IsSteady head rest buf (would_block ∷ es) steady e = absurd steady
read_response-IsSteady head rest buf (failed ∷ es) steady e = absurd steady
read_response-IsSteady head rest buf (received (c ∷ cs) ∷ es) steady e =
    let later =
      read_response-IsSteady head rest (buf ++ c ∷ cs) es steady
        (ap (partition blank_line) (append_assoc buf (c ∷ cs) (pending es)) ∙ e) in
    elim (Bool-cases (occurs blank_line buf)) [
      | inl t ↦ rw t (headers_in head rest buf (received (c ∷ cs) ∷ es) steady t e)
      | inr f ↦ rw f later
    ]

halves-partition :
    (sep buf : Bytes) (p : Bytes × Bytes) → partition sep buf ≡ some p → halves sep buf ≡ p
halves-partition sep buf p e = rw (e, halves)

pub ws_connect-IsSteady :
    (path host : Text) (port : ℕ) (key : Text) (es : List Event) (head rest : Bytes)
    → IsSteady es
    → partition blank_line (pending es) ≡ some (head, rest)
    → ((ws_connect path host port key es).0 ≡ request path host port key)
      × (occurs (codes "101") (first_line head) ≡ true
          → (leftover : Bytes) × (es' : List Event) × ((ws_connect path host port key es).1
              ≡ ok (leftover, es'))
            × (leftover ++ pending es' ≡ rest)
            × IsSteady es')
      × (occurs (codes "101") (first_line head) ≡ false
          → (ws_connect path host port key es).1
            ≡ raise (runtime_error "ws handshake: {!r}" (first_line head ∷ [])))
unfolding ws_connect accept_response
ws_connect-IsSteady path host port key es head rest steady e =
    let (buf, leftover, es', read, cut, same, steady') =
      read_response-IsSteady head rest [] es steady e in
    let found = halves-partition blank_line buf (head, leftover) cut in
    (
      refl,
      λ good. (leftover, es', rw (read, found, good), same, steady'),
      λ bad. rw (read, found, bad),
    )
