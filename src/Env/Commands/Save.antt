-- ===== src/Env/Commands/Save.antt =====
-- `_load` and `_save`: what they leave, on every branch.
use poly_firmware_build.Base.{
  [], ◌∷◌, ap, ◌≡◌, refl, ◌⊎◌, inl, inr, ◌≤◌, Bool, some, arith, Bytes, Text, length, ==_iff, ◌≢◌,
  Bool-cases, Option-cases, ◌==◌,
}
use poly_firmware_build.Host.{
  warned, warned_none, message, Error, file_not_found, Result, ok, raise, World, done, raised,
  update, update_self, Message,
}
use poly_firmware_build.Env.Dict.{Env}
use poly_firmware_build.Env.Slots.{env_block_size, env_data_size}
use poly_firmware_build.Env.Block.Warnings.{verify_block-parse_warnings, unpack_u32-take}
use poly_firmware_build.Env.Block.{parse_warnings, parse_env, serialize_env, verify_block}
use poly_firmware_build.Env.Block.Storable.{IsStorable, payload_size}
use poly_firmware_build.Env.Block.RoundTrip.{
  payload, block_of, serialize_env-block, parse_env-block, verify_block-block,
}
use poly_firmware_build.Env.Commands.{saved_line, load, save}

pub Result-cases {ℓ} :
    {A : Type ℓ} (r : Result A) → ((e : Error) × (r ≡ raise e)) ⊎ ((a : A) × (r ≡ ok a))
Result-cases (ok a) = inr (a, refl)
Result-cases (raise e) = inl (e, refl)

verify_block-ne-raise : (block : Bytes) (e : Error) → verify_block block ≢ raise e
unfolding verify_block
verify_block-ne-raise block e h = elim (Bool-cases (length block == env_block_size)) [
  | inl size ↦ let (n, stored) = unpack_u32-take block ((==_iff _ _).0 size) in ground arith
  | inr size ↦ ground arith
]

-- `verify_block` returns a verdict for every block: it never raises.
pub verify_block_total : (block : Bytes) → (v : Bool × Message) × (verify_block block ≡ ok v)
verify_block_total block = elim (Result-cases (verify_block block)) [
  | inl (e, bad) ↦ absurd (verify_block-ne-raise block e bad)
  | inr found ↦ found
]

-- `_load` returns the environment and prints its warnings, or raises and changes nothing.
pub load_cases :
    (path : Text) (w : World)
    → ((e : Error) × (load path w ≡ raised e w))
      ⊎ ((b : Bytes) × (d : Env) × (w.files path ≡ some b)
          × (parse_env b ≡ ok d)
          × (load path w ≡ done d (warned (parse_warnings b) w)))
unfolding load
load_cases path w = elim (Option-cases (w.files path)) [
  | inl missing ↦ inl (file_not_found path, rw missing)
  | inr (b, there) ↦ elim (Result-cases (parse_env b)) [
    | inl (e, bad) ↦ inl (e, rw (there, bad))
    | inr (d, good) ↦ inr (b, d, there, good, rw (there, good))
  ]
]

-- The world after a block is saved and the verdict on it is printed.
abbrev pub wrote : Env → Text → Bytes → Message → World → World
wrote d path b msg w =
    warned (saved_line d path msg ∷ []) (record w { files = update w.files path b })

-- `_save` raises before it writes, or writes the serialised environment and nothing else.
pub save_cases :
    (d : Env) (path : Text) (w : World)
    → ((e : Error) × (serialize_env d ≡ raise e) × (save d path w ≡ raised e w))
      ⊎ ((b : Bytes) × (msg : Message) × (serialize_env d ≡ ok b)
          × (save d path w ≡ done tt (wrote d path b msg w)))
unfolding save
save_cases d path w = elim (Result-cases (serialize_env d)) [
  | inl (e, bad) ↦ inl (e, bad, rw bad)
  | inr (b, good) ↦
      let ((_, msg), verdict) = verify_block_total b in inr (b, msg, good, rw (good, verdict))
]

module _ (d : Env) (s : IsStorable d) (fits : payload_size d ≤ env_data_size) (path : Text) where
  -- A sound block is loaded without a warning.
  pub load-block_of :
      (w : World) → w.files path ≡ some (block_of (payload d)) → load path w ≡ done d w
  unfolding load
  load-block_of w there =
      rw
        (
          there,
          parse_env-block d s fits,
          verify_block-parse_warnings (block_of (payload d)) (verify_block-block d s fits),
        )
        (ap (done d) (warned_none w))

  module _ (w : World) where
    -- The world after the environment is saved, with the verdict that it is sound.
    abbrev pub saved : World
    saved = wrote d path (block_of (payload d)) (message "ok" [] []) w

    pub save-saved : save d path w ≡ done tt saved
    unfolding save
    save-saved = rw (serialize_env-block d s fits, verify_block-block d s fits)

    pub load-saved : load path saved ≡ done d saved
    load-saved = load-block_of saved (update_self w.files path (block_of (payload d)))
