-- ===== src/Build/Ramdisk.antt =====
-- tools/mkinitramfs.py and then tools/mkbootimg.py with its output, as build.sh and
-- targets/tc8/boot.sh call them.
use poly_firmware_build.Base.{◌≡◌, refl, false, Option, none, some, [], ◌∷◌, Bytes, Text, text_eq}
use poly_firmware_build.Host.{World, ◌>>◌, done, holding, update_self}
use poly_firmware_build.Initramfs
use poly_firmware_build.Initramfs.{archive}
use poly_firmware_build.Initramfs.Newc.{read_archive}
use poly_firmware_build.Initramfs.Listing.{listing, read_archive-archive}
use poly_firmware_build.Initramfs.Main.{IsAccepted, packed, main-packed}
use poly_firmware_build.Boot
use poly_firmware_build.Boot.{Namespace, filedata}
use poly_firmware_build.Boot.Loader.{Loaded, load_image}
use poly_firmware_build.Boot.Layout.{IsBootable}
use poly_firmware_build.Boot.Image.{loaded, main-load_image}

-- A path that is not empty, as a path of `filedata` has to be.
abbrev pub IsPath : Text → Type 0
IsPath [] = ⊥
IsPath (c ∷ cs) = Unit

filedata-some :
    (path : Text) (b : Bytes) (w : World)
    → IsPath path
    → w.files path ≡ some b
    → filedata (some path) w ≡ done b w
filedata-some [] b w h there = absurd h
filedata-some (c ∷ cs) b w h there = rw there refl

-- The arguments of `mkbootimg.py` after the ramdisk is built at `out`.
pub record IsFollowing (a : Namespace) (out : Text) : Type 0 where
  pub version : a.header_version ≡ 0
  pub takes_ramdisk : a.ramdisk ≡ some out
  pub no_second : a.second ≡ none
  pub kernel_path : IsPath a.kernel
  pub out_path : IsPath out
  pub apart : text_eq a.kernel out ≡ false

module _ (gzip : Bytes → Bytes) (gunzip : Bytes → Option Bytes)
    (inverse : (b : Bytes) → gunzip (gzip b) ≡ some b) (sha1 : Bytes → Bytes) where
  -- With a decompressor that undoes `gzip`, on inputs that both tools accept and a kernel that is
  -- another file than the ramdisk: the two commands in a row succeed and write the ramdisk and the
  -- boot image only, and from the image a boot loader takes the kernel and a ramdisk that
  -- decompresses to an archive of exactly the nine directories, the two devices and the two files.
  pub main-main-load_image :
      (init busybox kernel : Bytes) (init_path busybox_path out : Text) (a : Namespace) (w : World)
      → IsAccepted init busybox
      → IsFollowing a out
      → IsBootable sha1 a kernel (gzip (archive init busybox)) []
      → w.files init_path ≡ some init
      → w.files busybox_path ≡ some busybox
      → w.files a.kernel ≡ some kernel
      → (ramdisk img cpio : Bytes) × (l : Loaded) × (w' : World) × ((Initramfs.main gzip init_path
                busybox_path out
              >> Boot.main sha1 a)
            w
          ≡ done tt w')
        × (w'.files ≡ (holding a.output img (holding out ramdisk w)).files)
        × (load_image img ≡ some l)
        × (l.kernel ≡ kernel)
        × (l.ramdisk ≡ ramdisk)
        × (gunzip ramdisk ≡ some cpio)
        × (read_archive 14 cpio ≡ some (listing init busybox))
  main-main-load_image init busybox kernel init_path busybox_path out a w good follows fits first
        second third =
      let cpio = archive init busybox in
      let w1 = packed gzip init busybox out w in
      let (img, w', runs, wrote, loads) =
        main-load_image sha1 a kernel (gzip cpio) [] fits w1 follows.version
          (filedata-some a.kernel kernel w1 follows.kernel_path (rw follows.apart third))
          (rw follows.takes_ramdisk (
            filedata-some out (gzip cpio) w1 follows.out_path
              (update_self w.files out (gzip cpio))))
          (rw follows.no_second refl) in
      (
        gzip cpio,
        img,
        cpio,
        loaded sha1 a kernel (gzip cpio) [] fits,
        w',
        rw (main-packed gzip init busybox init_path busybox_path out w good first second) runs,
        wrote,
        loads,
        refl,
        refl,
        inverse cpio,
        read_archive-archive init busybox good.init_fits good.busybox_fits,
      )
