-- ===== src/Boot/Refusal.antt =====
-- What `main` does to the files, whatever its inputs.
use poly_firmware_build.Base.{
  ◌+◌, if◌then◌else◌, refl, Bytes, Text, Option, none, some, [], ◌∷◌, ◌==◌, Bool-cases, inl, inr,
  ltb, length,
}
use poly_firmware_build.Host.{raise, system_exit, ◌>>=◌, ◌>>◌, write_file, print, World, lift}
use poly_firmware_build.Host.Writes.{
  Writes, IsReading, lift-IsReading, read_file-IsReading, Writes-bind, Writes-write_file,
}
use poly_firmware_build.Boot.{Namespace, boot_image, filedata, main, summary}

filedata-IsReading : (path : Option Text) (w : World) → IsReading (filedata path) w
filedata-IsReading none w = inl ([], refl)
filedata-IsReading (some []) w = inl ([], refl)
filedata-IsReading (some (c ∷ cs)) w = read_file-IsReading (c ∷ cs) w

-- Whatever the inputs: where `main` raises, no file has changed, and else none but the output.
pub main-Writes :
    (sha1 : Bytes → Bytes) (a : Namespace) (w : World) → Writes a.output w (main sha1 a w)
unfolding main
main-Writes sha1 a w = elim (Bool-cases (a.header_version == 0)) [
  | inr other ↦ rw other refl
  | inl zero_version ↦ rw zero_version (
      Writes-bind a.output w (filedata (some a.kernel)) _ (filedata-IsReading (some a.kernel) w)
        λ kernel.
          Writes-bind a.output w (filedata a.ramdisk) _ (filedata-IsReading a.ramdisk w) λ ramdisk.
            Writes-bind a.output w (filedata a.second) _ (filedata-IsReading a.second w)
              λ second. packed kernel ramdisk second)
]
  where
    packed :
        (kernel ramdisk second : Bytes)
        → Writes a.output w (
            (if ltb (512 + 1024) (length a.cmdline)
                then lift (raise (system_exit "mkbootimg.py: cmdline too long" []))
                else (do
                  img ← lift (boot_image sha1 a kernel ramdisk second)
                  write_file a.output img
                  print (summary a kernel ramdisk second img)))
              w)
    packed kernel ramdisk second = elim (Bool-cases (ltb (512 + 1024) (length a.cmdline))) [
      | inl long ↦ rw long refl
      | inr short ↦ rw short (
          Writes-bind a.output w (lift (boot_image sha1 a kernel ramdisk second)) _
            (lift-IsReading _ w)
            λ img. Writes-write_file a.output img (summary a kernel ramdisk second img) w)
    ]
