-- ===== src/Tests/Dtbo.antt =====
-- The DTBO packer on a tree of six bytes.
use poly_firmware_build.Base.{
  ◌≡◌, ◌++◌, refl, true, some, none, [], ◌∷◌, arith, Bytes, codes, text_eq, if◌then◌else◌, take,
}
use poly_firmware_build.Host.{raised, system_exit, World, done, ok, holding}
use poly_firmware_build.Pack.{uint, pack}
use poly_firmware_build.Dtbo.{Namespace, build, out_path, or_text, fdt_magic, main}
use poly_firmware_build.Dtbo.Layout.{main_atomic, first_dtb, main-first_dtb}

abbrev tree : Bytes
tree = fdt_magic ++ 1 ∷ 2 ∷ []

abbrev namespace : Namespace
namespace = record {
  command = some (codes "create");
  out_pos = some (codes "dtbo.img");
  dtb = codes "tc8.dtb";
  output = none;
}

abbrev world : World
world = record {
  files = λ p. if text_eq p (codes "tc8.dtb") then some tree else none;
  stdout = [];
  stderr = [];
}

build_six :
    build tree
    ≡ ok (
        0xd7 ∷ 0xb7 ∷ 0xab ∷ 0x1e ∷ 0 ∷ 0 ∷ 0 ∷ 70 ∷ 0 ∷ 0 ∷ 0 ∷ 32 ∷ 0 ∷ 0 ∷ 0 ∷ 32 ∷ 0 ∷ 0 ∷ 0 ∷ 1
        ∷ 0 ∷ 0 ∷ 0 ∷ 32 ∷ 0 ∷ 0 ∷ 8 ∷ 0 ∷ 0 ∷ 0 ∷ 0 ∷ 0 ∷ 0 ∷ 0 ∷ 0 ∷ 6 ∷ 0 ∷ 0 ∷ 0 ∷ 64 ∷ 0 ∷ 0
        ∷ 0 ∷ 0 ∷ 0 ∷ 0 ∷ 0 ∷ 0 ∷ 0 ∷ 0 ∷ 0 ∷ 0 ∷ 0 ∷ 0 ∷ 0 ∷ 0 ∷ 0 ∷ 0 ∷ 0 ∷ 0 ∷ 0 ∷ 0 ∷ 0 ∷ 0
        ∷ tree)
unfolding build pack uint
build_six = refl

namespace-out : or_text (out_path namespace) none ≡ some (codes "dtbo.img")
unfolding out_path text_eq
namespace-out = refl

world-tree : world.files namespace.dtb ≡ some tree
unfolding text_eq
world-tree = refl

tree-fdt : text_eq (take 4 tree) fdt_magic ≡ true
unfolding text_eq take
tree-fdt = refl

main-first_dtb_example :
    (img : Bytes) × (w' : World) × (main namespace world ≡ done tt w')
    × (w'.files ≡ (holding (codes "dtbo.img") img world).files)
    × (first_dtb img ≡ some tree)
main-first_dtb_example =
    main-first_dtb namespace (codes "dtbo.img") tree world namespace-out world-tree tree-fdt
      (omega arith)

-- A file that is not a device tree.
abbrev other_world : World
other_world = record {
  files = λ p. if text_eq p (codes "tc8.dtb") then some (codes "dtb") else none;
  stdout = [];
  stderr = [];
}

main-other_world :
    main namespace other_world
    ≡ raised (system_exit "mkdtboimg.py: {} is not an FDT (missing d00dfeed magic)" []) other_world
unfolding main out_path text_eq take
main-other_world = refl

main_atomic_example : other_world.files ≡ other_world.files
main_atomic_example = main_atomic namespace other_world main-other_world
