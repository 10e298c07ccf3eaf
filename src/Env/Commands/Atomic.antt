-- ===== src/Env/Commands/Atomic.antt =====
-- No subcommand but `read` changes a file, except that it exits with 0 and changes only its second
-- argument, the output path.
use poly_firmware_build.Base.{
  if◌then◌else◌, true, ℕ, zero, suc, ap, ◌≡◌, ◌≢◌, refl, ◌∙◌, inl, inr, Bool, false, Option, none,
  some, List, [], ◌∷◌, ◌||◌, arith, Bytes, Text, text_eq, codes, Bool-cases, Option-cases,
}
use poly_firmware_build.Host.{
  warned, print_errs, print_err, Message, World, ◌>>◌, ◌>>=◌, pure, Outcome, done, raised, update,
}
use poly_firmware_build.Env.Dict.{Env}
use poly_firmware_build.Env.Block.{parse_warnings, parse_env}
use poly_firmware_build.Env.Commands.{
  parse, macro_lines, load_or_empty, Completed, save, cmd_show, print_entries, cmd_modify,
  apply_args, save_args, cmd_delete, erase_all, cmd_preset_symmetric, preset, cmd_verify,
  report_missing, missing_keys, must_have, Subcommand, read, show, modify, delete, preset_symmetric,
  verify, subcommand, dispatch, main,
}
use poly_firmware_build.Env.Commands.Save.{Result-cases, load_cases, save_cases, verify_block_total}

-- The output path of a command line, or the empty path.
abbrev pub output_path : List Text → Text
output_path (src ∷ dst ∷ _) = dst
output_path _ = []

-- All files but the one are as before.
abbrev pub SameBut : Text → World → World → Type 0
SameBut path w w' = (p : Text) → text_eq p path ≡ false → w'.files p ≡ w.files p

abbrev pub Ends : Text → World → Outcome ℕ → Type 0
Ends dst w (done zero w') = SameBut dst w w'
Ends dst w (done _ w') = w'.files ≡ w.files
Ends dst w (raised e w') = w'.files ≡ w.files

SameBut-update :
    (path : Text) (b : Bytes) (w : World)
    → SameBut path w (record w { files = update w.files path b })
SameBut-update path b w p h = rw h

-- Saving and then exiting with 0.
save-Ends : (d : Env) (path : Text) (w : World) → Ends path w ((save d path >> pure 0) w)
save-Ends d path w = elim (save_cases d path w) [
  | inl (e, _, raises) ↦ rw raises refl
  | inr (b, _, _, writes) ↦ rw writes (SameBut-update path b w)
]

-- The end of `preset-symmetric`.
save-preset-Ends :
    (d : Env) (path : Text) (w : World)
    → Ends path w ((save (preset d) path >> (print_errs macro_lines >> pure 0)) w)
save-preset-Ends d path w = elim (save_cases (preset d) path w) [
  | inl (e, _, raises) ↦ rw raises refl
  | inr (b, _, _, writes) ↦ rw writes (SameBut-update path b w)
]

cmd_modify-Ends : (argv : List Text) (w : World) → Ends (output_path argv) w (cmd_modify argv w)
unfolding cmd_modify
cmd_modify-Ends [] w = refl
cmd_modify-Ends (src ∷ []) w = refl
cmd_modify-Ends (src ∷ dst ∷ []) w = refl
cmd_modify-Ends (src ∷ dst ∷ kv ∷ kvs) w = elim (load_cases src w) [
  | inl (e, raises) ↦ rw raises refl
  | inr (b, d, _, _, loads) ↦
      rw loads (then_save (warned (parse_warnings b) w) (apply_args (kv ∷ kvs) d))
]
  where
    then_save : (w : World) (r : Option Env) → Ends dst w (save_args dst (kv ∷ kvs) r w)
    then_save w none = refl
    then_save w (some d) = save-Ends d dst w

cmd_delete-Ends : (argv : List Text) (w : World) → Ends (output_path argv) w (cmd_delete argv w)
unfolding cmd_delete
cmd_delete-Ends [] w = refl
cmd_delete-Ends (src ∷ []) w = refl
cmd_delete-Ends (src ∷ dst ∷ []) w = refl
cmd_delete-Ends (src ∷ dst ∷ key ∷ keys) w = elim (load_cases src w) [
  | inl (e, raises) ↦ rw raises refl
  | inr (b, d, _, _, loads) ↦
      rw loads (save-Ends (erase_all (key ∷ keys) d) dst (warned (parse_warnings b) w))
]

cmd_preset_symmetric-Ends :
    (argv : List Text) (w : World) → Ends (output_path argv) w (cmd_preset_symmetric argv w)
unfolding cmd_preset_symmetric
cmd_preset_symmetric-Ends [] w = refl
cmd_preset_symmetric-Ends (src ∷ []) w = refl
cmd_preset_symmetric-Ends (src ∷ dst ∷ rest) w = elim (Option-cases (w.files src)) [
  | inl missing ↦ rw (missing, load_or_empty) (save-preset-Ends [] dst (warned (_ ∷ []) w))
  | inr (b, there) ↦ rw there (elim (load_cases src w) [
    | inl (e, raises) ↦ rw raises refl
    | inr (b, d, _, _, loads) ↦
        rw (loads, load_or_empty) (save-preset-Ends d dst (warned (parse_warnings b) w))
  ])
]

-- Files are as before, whatever the outcome.
abbrev Unchanged : World → Outcome ℕ → Type 0
Unchanged w (done a w') = w'.files ≡ w.files
Unchanged w (raised e w') = w'.files ≡ w.files

print_entries-Unchanged :
    (d : Env) (m : Message) (w : World)
    → Unchanged w ((print_entries d >> (print_err m >> pure 0)) w)
unfolding print_entries
print_entries-Unchanged [] m w = refl
print_entries-Unchanged ((k, v) ∷ d) m w = print_entries-Unchanged d m _

cmd_show-Unchanged : (argv : List Text) (w : World) → Unchanged w (cmd_show argv w)
unfolding cmd_show
cmd_show-Unchanged [] w = refl
cmd_show-Unchanged (path ∷ _) w = elim (Option-cases (w.files path)) [
  | inl missing ↦ rw missing refl
  | inr (b, there) ↦ elim (Result-cases (parse_env b)) [
    | inl (e, bad) ↦ rw (there, bad) refl
    | inr (d, good) ↦ rw (there, good) (print_entries-Unchanged d _ (warned (parse_warnings b) w))
  ]
]

report_missing-Unchanged :
    (good : Bool) (ks : List Text) (w : World) → Unchanged w (report_missing good ks w)
report_missing-Unchanged good [] w = refl
report_missing-Unchanged good (k ∷ ks) w = refl

-- What `verify` does behind the test of the block.
report_entries-Unchanged :
    (good : Bool) (block : Bytes) (w : World)
    → Unchanged w (
        ((if good then parse block else pure []) >>= λ d.
        report_missing good (missing_keys must_have d))
          w)
report_entries-Unchanged false block w =
    report_missing-Unchanged false (missing_keys must_have []) w
report_entries-Unchanged true block w = elim (Result-cases (parse_env block)) [
  | inl (e, bad) ↦ rw bad refl
  | inr (d, good) ↦
      rw good
        (report_missing-Unchanged true (missing_keys must_have d) (warned (parse_warnings block) w))
]

cmd_verify-Unchanged : (argv : List Text) (w : World) → Unchanged w (cmd_verify argv w)
unfolding cmd_verify
cmd_verify-Unchanged [] w = refl
cmd_verify-Unchanged (path ∷ _) w = elim (Option-cases (w.files path)) [
  | inl missing ↦ rw missing refl
  | inr (b, there) ↦
      let ((good, msg), verdict) = verify_block_total b in
      rw (there, verdict) (report_entries-Unchanged good b _)
]

Unchanged-Ends : (dst : Text) (w : World) (o : Outcome ℕ) → Unchanged w o → Ends dst w o
Unchanged-Ends dst w (done zero w') h = λ p _. ap (λ (f : Text → Option Bytes). f p) h
Unchanged-Ends dst w (done (suc n) w') h = h
Unchanged-Ends dst w (raised e w') h = h

dispatch-Ends :
    (run : List Text → Completed) (command : Subcommand) (argv : List Text) (w : World)
    → command ≢ read
    → Ends (output_path argv) w (dispatch run command argv w)
unfolding dispatch
dispatch-Ends run read argv w h = absurd (h refl)
dispatch-Ends run show argv w h = Unchanged-Ends _ w _ (cmd_show-Unchanged argv w)
dispatch-Ends run modify argv w h = cmd_modify-Ends argv w
dispatch-Ends run delete argv w h = cmd_delete-Ends argv w
dispatch-Ends run preset_symmetric argv w h = cmd_preset_symmetric-Ends argv w
dispatch-Ends run verify argv w h = Unchanged-Ends _ w _ (cmd_verify-Unchanged argv w)

subcommand-ne-read : (sub : Text) → text_eq sub (codes "read") ≡ false → subcommand sub ≢ some read
unfolding subcommand
subcommand-ne-read sub h = ground arith

-- Whatever the arguments after any subcommand but `read`: where `main` exits with 0, only the file
-- named second may have changed; with another status, or with an exception, no file has changed.
pub main-Ends :
    (run : List Text → Completed) (sub : Text) (argv : List Text) (w : World)
    → text_eq sub (codes "read") ≡ false
    → Ends (output_path argv) w (main run (sub ∷ argv) w)
unfolding main
main-Ends run sub argv w h =
    elim (Bool-cases
      (text_eq sub (codes "-h") || text_eq sub (codes "--help") || text_eq sub (codes "help"))) [
        | inl help ↦ rw help (λ p _. refl)
        | inr other ↦ rw other (elim (Option-cases (subcommand sub)) [
          | inl unknown ↦ rw (unknown, main) refl
          | inr (command, known) ↦
              rw (known, main)
                (dispatch-Ends run command argv w
                  (λ e. subcommand-ne-read sub h (known ∙ ap some e)))
        ])
      ]
