-- ===== src/Initramfs/Refusal.antt =====
-- What `main` does to the files, whatever its inputs.
use poly_firmware_build.Base.{Bytes, Text}
use poly_firmware_build.Host.{World, read_file}
use poly_firmware_build.Host.Writes.{
  Writes, lift-IsReading, read_file-IsReading, Writes-bind, Writes-write_file,
}
use poly_firmware_build.Initramfs.{archive, check_inputs, main, summary}

-- Whatever the inputs: where `main` raises, no file has changed, and else none but the output.
pub main-Writes :
    (gzip : Bytes → Bytes) (init_path busybox_path out : Text) (w : World)
    → Writes out w (main gzip init_path busybox_path out w)
unfolding main check_inputs
main-Writes gzip init_path busybox_path out w =
    Writes-bind out w (read_file init_path) _ (read_file-IsReading init_path w) λ init.
      Writes-bind out w (read_file busybox_path) _ (read_file-IsReading busybox_path w) λ busybox.
        Writes-bind out w (check_inputs init busybox) _ (lift-IsReading _ w) λ _.
          let payload = gzip (archive init busybox) in
          Writes-write_file out payload (summary (archive init busybox) out payload) w
