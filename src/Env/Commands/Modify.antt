-- ===== src/Env/Commands/Modify.antt =====
-- `modify` and `delete` on a well-formed block: the entries afterwards, and their sizes.
use poly_firmware_build.Base.{
  ℕ, ◌+◌, ◌≤◌, ◌≡◌, ◌≢◌, refl, ◌∙◌, ap, inl, inr, Bool, false, ◌||◌, Option, none, some, List, [],
  ◌∷◌, arith, Bytes, Text, length, length-append, All, IsAscii, Lacks, split_once, split_once_sound,
  text_eq, text_eq_iff, Bool-cases, Option-cases, if◌then◌else◌,
}
use poly_firmware_build.Host.{warned, World, ok, done}
use poly_firmware_build.Env.Dict.{
  Env, lookup, insert, erase, lookup-insert, lookup-erase, erase-NodupKeys,
}
use poly_firmware_build.Env.Slots.{env_data_size}
use poly_firmware_build.Env.Block.{parse_warnings, parse_env}
use poly_firmware_build.Env.Block.Storable.{AllEntries, IsStorable, used_bytes, payload_size}
use poly_firmware_build.Env.Block.Sound.{insert-IsStorable, split_once-IsEntry}
use poly_firmware_build.Env.Commands.{load, apply_args, erase_all, cmd_modify, cmd_delete}
use poly_firmware_build.Env.Commands.Save.{saved, save-saved, load-saved}

-- An argument `key=value` that the block can hold.
pub record IsArg (kv : Text) : Type 0 where
  pub ascii : All IsAscii kv
  pub no_nul : Lacks 0 kv
  pub has_eq : split_once b'=' kv ≢ none

-- The value of `j` after the assignments, from its value before them: the last one counts.
abbrev pub assigned : Text → List Text → Option Text → Option Text
assigned j [] old = old
assigned j (kv ∷ kvs) old = elim (split_once b'=' kv) [
  | none ↦ assigned j kvs old
  | some (k, v) ↦ assigned j kvs (if text_eq j k then some v else old)
]

abbrev pub args_size : List Text → ℕ
args_size [] = 0
args_size (kv ∷ kvs) = length kv + 1 + args_size kvs

pub used_bytes-insert :
    (k v : Text) (d : Env) → used_bytes (insert k v d) ≤ used_bytes d + length k + length v + 2
unfolding insert
used_bytes-insert k v [] = omega arith
used_bytes-insert k v ((j, w) ∷ d) = elim (Bool-cases (text_eq k j)) [
  | inl same ↦ rw same (omega (arith, ap (λ (t : Text). length t) ((text_eq_iff k j).0 same)))
  | inr differ ↦ rw differ (omega (arith, used_bytes-insert k v d))
]

used_bytes-erase : (k : Text) (d : Env) → used_bytes (erase k d) ≤ used_bytes d
unfolding erase
used_bytes-erase k [] = omega arith
used_bytes-erase k ((j, w) ∷ d) = ground (arith, used_bytes-erase k d)

pub payload_size-le : (d : Env) → payload_size d ≤ used_bytes d + 2
payload_size-le [] = omega arith
payload_size-le ((k, v) ∷ d) = omega arith

payload_size_mono : (d d' : Env) → used_bytes d' ≤ used_bytes d → payload_size d' ≤ payload_size d
payload_size_mono [] [] h = omega arith
payload_size_mono [] ((k, v) ∷ d') h = absurd (omega arith)
payload_size_mono ((k, v) ∷ d) [] h = omega arith
payload_size_mono ((k, v) ∷ d) ((j, w) ∷ d') h = omega arith

-- `erase_all` takes each key away and keeps the others.
abbrev pub listed : Text → List Text → Bool
listed j [] = false
listed j (k ∷ ks) = text_eq j k || listed j ks

record Erased (keys : List Text) (d d' : Env) : Type 0 where
  storable : IsStorable d'
  size : used_bytes d' ≤ used_bytes d
  found : (j : Text) → lookup j d' ≡ (if listed j keys then none else lookup j d)

erase-AllEntries : (k : Text) (d : Env) → AllEntries d → AllEntries (erase k d)
unfolding erase
erase-AllEntries k [] h = tt
erase-AllEntries k ((j, w) ∷ d) (h, hs) = elim (Bool-cases (text_eq k j)) [
  | inl same ↦ rw same hs
  | inr differ ↦ rw differ (h, erase-AllEntries k d hs)
]

erase_all-Erased : (keys : List Text) (d : Env) → IsStorable d → Erased keys d (erase_all keys d)
erase_all-Erased [] d s =
    unfold erase_all in record { storable = s; size = omega arith; found = λ j. refl }
erase_all-Erased (k ∷ ks) d s = step (
    erase_all-Erased ks (erase k d)
      (record { nodup = erase-NodupKeys k d s.nodup; entries = erase-AllEntries k d s.entries }))
  where
    step :
        Erased ks (erase k d) (erase_all ks (erase k d)) → Erased (k ∷ ks) d (erase_all (k ∷ ks) d)
    step rest =
        unfold erase_all in
        record {
          storable = rest.storable;
          size = omega (arith, rest.size, used_bytes-erase k d);
          found = λ j. rest.found j ∙ rw (lookup-erase j k d s.nodup) (ground arith);
        }

-- What the loop over the arguments makes of a storable environment.
record Applied (kvs : List Text) (d : Env) : Type 0 where
  result : Env
  returns : apply_args kvs d ≡ some result
  storable : IsStorable result
  size : used_bytes result ≤ used_bytes d + args_size kvs
  found : (j : Text) → lookup j result ≡ assigned j kvs (lookup j d)

apply_args-Applied : (kvs : List Text) (d : Env) → IsStorable d → All IsArg kvs → Applied kvs d
apply_args-Applied [] d s h = record {
  result = d;
  returns = unfold apply_args in refl;
  storable = s;
  size = omega arith;
  found = λ j. refl;
}
apply_args-Applied (kv ∷ kvs) d s (a, h) = elim (Option-cases (split_once b'=' kv)) [
  | inl lacks ↦ absurd (a.has_eq lacks)
  | inr ((k, v), cut) ↦
      let e = split_once-IsEntry kv a.ascii a.no_nul cut in
      step k v cut (apply_args-Applied kvs (insert k v d) (insert-IsStorable k v d e s) h)
]
  where
    step :
        (k v : Text)
        → split_once b'=' kv ≡ some (k, v)
        → Applied kvs (insert k v d)
        → Applied (kv ∷ kvs) d
    step k v cut rest = record {
      result = rest.result;
      returns = unfold apply_args in rw (cut, apply_args) rest.returns;
      storable = rest.storable;
      size = omega (
        arith,
        rest.size,
        used_bytes-insert k v d,
        ap (λ (t : Text). length t) (split_once_sound b'=' kv cut).0,
        length-append k (b'=' ∷ v),
      );
      found = λ j. rest.found j ∙ rw (lookup-insert j k v d, cut, assigned);
    }

module _ (src dst : Text) (w : World) {b : Bytes} {d : Env} (there : w.files src ≡ some b)
    (parses : parse_env b ≡ ok d) (s : IsStorable d) where
  pub load-src : load src w ≡ done d (warned (parse_warnings b) w)
  unfolding load
  load-src = rw (there, parses)

  -- `modify` on a well-formed source with arguments that fit: it exits with 0, prints nothing, and
  -- the output file reads back as an environment in which each key has the value last assigned to
  -- it, or else its old value.
  pub cmd_modify-load :
      (kv : Text) (kvs : List Text)
      → All IsArg (kv ∷ kvs)
      → used_bytes d + args_size (kv ∷ kvs) + 2 ≤ env_data_size
      → (w' : World) × (d' : Env) × (cmd_modify (src ∷ dst ∷ kv ∷ kvs) w ≡ done 0 w')
        × (load dst w' ≡ done d' w')
        × (w'.stdout ≡ w.stdout)
        × ((j : Text) → lookup j d' ≡ assigned j (kv ∷ kvs) (lookup j d))
  unfolding cmd_modify
  cmd_modify-load kv kvs args room =
      let a = apply_args-Applied (kv ∷ kvs) d s args in
      let fits : payload_size a.result ≤ env_data_size =
        omega (arith, a.size, payload_size-le a.result) in
      (
        saved a.result a.storable fits dst (warned (parse_warnings b) w),
        a.result,
        rw (
          load-src,
          a.returns,
          save-saved a.result a.storable fits dst (warned (parse_warnings b) w),
        ),
        load-saved a.result a.storable fits dst (warned (parse_warnings b) w),
        refl,
        a.found,
      )

  -- `delete` on a well-formed source: it exits with 0, prints nothing, and the output file reads
  -- back as an environment that lacks the named keys and has every other entry's value.
  pub cmd_delete-load :
      (key : Text) (keys : List Text)
      → payload_size d ≤ env_data_size
      → (w' : World) × (d' : Env) × (cmd_delete (src ∷ dst ∷ key ∷ keys) w ≡ done 0 w')
        × (load dst w' ≡ done d' w')
        × (w'.stdout ≡ w.stdout)
        × ((j : Text) → lookup j d' ≡ (if listed j (key ∷ keys) then none else lookup j d))
  unfolding cmd_delete
  cmd_delete-load key keys room =
      let d' = erase_all (key ∷ keys) d in
      let e = erase_all-Erased (key ∷ keys) d s in
      let fits : payload_size d' ≤ env_data_size = omega (arith, payload_size_mono d d' e.size) in
      (
        saved d' e.storable fits dst (warned (parse_warnings b) w),
        d',
        rw (load-src, save-saved d' e.storable fits dst (warned (parse_warnings b) w)),
        load-saved d' e.storable fits dst (warned (parse_warnings b) w),
        refl,
        e.found,
      )
