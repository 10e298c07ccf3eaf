-- ===== src/Build/Refusal.antt =====
-- What the tools that begin from a command line do to the files, whatever their inputs.
use poly_firmware_build.Base.{Bytes, Text, List, ◌∷◌}
use poly_firmware_build.Host.{World}
use poly_firmware_build.Host.Writes.{Writes}
use poly_firmware_build.Initramfs
use poly_firmware_build.Initramfs.Refusal as InitramfsRefusal
use poly_firmware_build.Boot
use poly_firmware_build.Boot.{Namespace}
use poly_firmware_build.Boot.Refusal as BootRefusal
use poly_firmware_build.Config
use poly_firmware_build.Config.Refusal as ConfigRefusal

-- Whatever the inputs of mkinitramfs.py, mkbootimg.py and, with an output path, mkconfigblob.py:
-- where one raises, no file has changed, and where it ends, none but its output.
pub main-Writes :
    (gzip sha1 sha256 : Bytes → Bytes) (w : World) (init_path busybox_path ramdisk : Text)
    (a : Namespace) (name out : Text) (args : List Text)
    → Writes ramdisk w (Initramfs.main gzip init_path busybox_path ramdisk w)
      × Writes a.output w (Boot.main sha1 a w)
      × Writes out w (Config.main sha256 (name ∷ out ∷ args) w)
main-Writes gzip sha1 sha256 w init_path busybox_path ramdisk a name out args = (
  InitramfsRefusal.main-Writes gzip init_path busybox_path ramdisk w,
  BootRefusal.main-Writes sha1 a w,
  ConfigRefusal.main-Writes sha256 name out args w,
)
