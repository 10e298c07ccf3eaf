-- ===== src/Config/Layout.antt =====
-- Where the parts of the image lie.
use poly_firmware_build.Base.{
  ℕ, ◌+◌, ◌-◌, ◌≤◌, ◌≡◌, refl, ◌∙◌, ap, ap₂, ◌++◌, arith, Bytes, length, length-append, length-take,
  length-drop, length-replicate, take, drop, take-add, take-length_append, drop-length_append,
  append_assoc, replicate,
}
use poly_firmware_build.Config.{bl_hdr_off, bl_img_off, set_slice}

module _ (cfg hdr image : Bytes) (sixty_four : length hdr ≡ 64) where
  abbrev blank : Bytes
  blank = replicate (bl_img_off + length image) 0

  abbrev configured : Bytes
  configured = set_slice 0 (length cfg) cfg blank

  abbrev pub buf : Bytes
  buf =
      set_slice bl_img_off (bl_img_off + length image) image
        (set_slice bl_hdr_off (bl_hdr_off + length hdr) hdr configured)

  abbrev pre : Bytes
  pre = take bl_hdr_off configured

  abbrev post : Bytes
  post = drop (bl_hdr_off + length hdr) configured

  abbrev end : Bytes
  end = drop (bl_img_off + length image) (pre ++ (hdr ++ post))

  configured-append : configured ≡ cfg ++ drop (length cfg) blank
  configured-append = unfold take in refl

  long : bl_img_off + length image ≤ length configured
  long = omega (
    arith,
    ap length configured-append,
    length-append cfg (drop (length cfg) blank),
    length-drop (length cfg) blank,
    length-replicate {A = ℕ} (bl_img_off + length image) 0,
  )

  length-pre : length pre ≡ bl_hdr_off
  length-pre = omega (arith, length-take bl_hdr_off configured, long)

  -- The whole image, in its parts.
  pub buf-parts : buf ≡ pre ++ (hdr ++ (take 448 post ++ (image ++ end)))
  buf-parts =
      let first : take bl_img_off (pre ++ (hdr ++ post)) ≡ pre ++ (hdr ++ take 448 post) =
        take-add bl_hdr_off 512 (pre ++ (hdr ++ post))
        ∙ ap₂ ◌++◌ (take-length_append bl_hdr_off pre (hdr ++ post) length-pre) (
            ap (take 512) (drop-length_append bl_hdr_off pre (hdr ++ post) length-pre)
            ∙ take-add 64 448 (hdr ++ post)
            ∙ ap₂ ◌++◌ (take-length_append 64 hdr post sixty_four)
                (ap (take 448) (drop-length_append 64 hdr post sixty_four))) in
      ap (λ b. b ++ (image ++ end)) first ∙ simp append_assoc refl

  pub buf-header : drop bl_hdr_off buf ≡ hdr ++ (take 448 post ++ (image ++ end))
  buf-header = ap (drop bl_hdr_off) buf-parts ∙ drop-length_append bl_hdr_off pre _ length-pre

  pub buf-image : drop bl_img_off buf ≡ image ++ end
  buf-image =
      ap (drop bl_img_off) (buf-parts ∙ front pre hdr (take 448 post) (image ++ end))
      ∙ drop-length_append bl_img_off (pre ++ (hdr ++ take 448 post)) (image ++ end) (
          omega (
            arith,
            length-append pre (hdr ++ take 448 post),
            length-append hdr (take 448 post),
            length-take 448 post,
            length-drop (bl_hdr_off + length hdr) configured,
            length-pre,
            sixty_four,
            long,
          ))
    where
      front : (a b c d : Bytes) → a ++ (b ++ (c ++ d)) ≡ (a ++ (b ++ c)) ++ d
      front a b c d = simp append_assoc refl

  -- A configuration that ends before the header is at the front.
  pub buf-config :
      length cfg ≤ bl_hdr_off
      → buf
        ≡ cfg
          ++ (take (bl_hdr_off - length cfg) (drop (length cfg) blank)
              ++ (hdr ++ (take 448 post ++ (image ++ end))))
  buf-config fits =
      let zeros = drop (length cfg) blank in
      let split : pre ≡ cfg ++ take (bl_hdr_off - length cfg) zeros =
        ap₂ take (omega arith) configured-append
        ∙ take-add (length cfg) (bl_hdr_off - length cfg) (cfg ++ zeros)
        ∙ ap₂ ◌++◌ (take-length_append (length cfg) cfg zeros refl) (
            ap (take (bl_hdr_off - length cfg)) (drop-length_append (length cfg) cfg zeros refl)) in
      buf-parts
      ∙ ap (λ b. b ++ (hdr ++ (take 448 post ++ (image ++ end)))) split
      ∙ append_assoc cfg (take (bl_hdr_off - length cfg) zeros) _
