-- ===== src/Config/Refusal.antt =====
-- What `main` does to the files, whatever its inputs.
use poly_firmware_build.Base.{
  Bytes, Text, Option, none, some, List, [], ◌∷◌, Bool-cases, inl, inr, length, text_eq, codes,
  refl,
}
use poly_firmware_build.Host.{World, lift, read_file, message}
use poly_firmware_build.Host.Writes.{
  Writes, IsReading, lift-IsReading, read_file-IsReading, Writes-bind, Writes-write_file,
  IsReading-bind,
}
use poly_firmware_build.Config.{
  write_config, cache_image, cfg_blob, take_bootloader, text_lines, take_lines, write_output,
  write_cache, main,
}

take_lines-IsReading : (rest : List Text) (w : World) → IsReading (take_lines rest) w
take_lines-IsReading [] w = inl ([], refl)
take_lines-IsReading (a ∷ []) w = lift-IsReading _ w
take_lines-IsReading (a ∷ path ∷ args) w = elim (Bool-cases (text_eq a (codes "--from"))) [
  | inl from ↦ rw from (
      IsReading-bind w (read_file path) _ (read_file-IsReading path w)
        λ b. lift-IsReading (text_lines b) w)
  | inr plain ↦ rw plain (inl (a ∷ path ∷ args, refl))
]

write_cache-Writes :
    (sha256 : Bytes → Bytes) (out : Text) (cfg : Bytes) (bootloader : Text) (w : World)
    → Writes out w (write_cache sha256 out cfg bootloader w)
write_cache-Writes sha256 out cfg bootloader w =
    Writes-bind out w (read_file bootloader) _ (read_file-IsReading bootloader w) λ image.
      Writes-bind out w (lift (cache_image sha256 cfg image)) _ (lift-IsReading _ w) λ buf.
        Writes-write_file out buf
          (message "wrote {}: config {} B + bootloader {} B (cache image {} B)"
            (length cfg ∷ length image ∷ length buf ∷ []) (out ∷ []))
          w

write_config-Writes : (out : Text) (cfg : Bytes) (w : World) → Writes out w (write_config out cfg w)
write_config-Writes out cfg w =
    Writes-write_file out cfg (message "wrote {}: config blob {} B" (length cfg ∷ []) (out ∷ [])) w

write_output-Writes :
    (sha256 : Bytes → Bytes) (out : Text) (cfg : Bytes) (bootloader : Option Text) (w : World)
    → Writes out w (write_output sha256 out cfg bootloader w)
write_output-Writes sha256 out cfg none w = write_config-Writes out cfg w
write_output-Writes sha256 out cfg (some []) w = write_config-Writes out cfg w
write_output-Writes sha256 out cfg (some (c ∷ cs)) w = write_cache-Writes sha256 out cfg (c ∷ cs) w

-- Whatever the inputs: where `main` raises, no file has changed, and else none but the output.
pub main-Writes :
    (sha256 : Bytes → Bytes) (name out : Text) (args : List Text) (w : World)
    → Writes out w (main sha256 (name ∷ out ∷ args) w)
unfolding main
main-Writes sha256 name out [] w = refl
main-Writes sha256 name out (a ∷ args) w =
    Writes-bind out w (lift (take_bootloader (a ∷ args))) _ (lift-IsReading _ w) λ given.
      Writes-bind out w (take_lines given.rest) _ (take_lines-IsReading given.rest w) λ lines.
        Writes-bind out w (lift (cfg_blob sha256 lines)) _ (lift-IsReading _ w)
          λ cfg. write_output-Writes sha256 out cfg given.bootloader w
