-- ===== src/Boot/SelfTest/RootTest.antt =====
-- The first self test passes on every disk.
use icosaos.Prelude.{
  ℕ, ◌+◌, ◌*◌, ◌≤◌, ◌<◌, ◌^◌, ◌≡◌, ◌⊎◌, ◌∙◌, refl, arith, true, codes, load32, load32-same, ok,
}
use icosaos.Disk.{Registers}
use icosaos.Framebuffer.{Screen}
use icosaos.Framebuffer.Text.{Font}
use icosaos.Framebuffer.Text.Place.{IsReady}
use icosaos.Framebuffer.Text.Kept.{IsKept}
use icosaos.Framebuffer.Text.Print.{StringAt-IsKept}
use icosaos.Klog.{log_success}
use icosaos.Fat32.Directory.{info_size, info_is_directory, info_first_cluster}
use icosaos.Fat32.Resolve.Root.{IsRoot, fat32_resolve_path-IsRoot}
use icosaos.Boot.Startup.{Image, Kernel, verdict}
use icosaos.Boot.Startup.Lines.{
  shown, with_screen, IsFresh, Stands, info_line-returns, set_status-returns,
}
use icosaos.Boot.SelfTest.{with_files, resolve, test_root}

module _ {fuel calls : ℕ} where
  -- The variable `info` is in memory, outside the framebuffer and away from zero.
  pub record HasInfo (image : Image) (k : Kernel fuel calls) : Type 0 where
    pub there : 0 < image.info
    pub fits : image.info + info_size < 2 ^ 32
    pub outside :
        (image.info + info_size ≤ k.log.screen.mode.framebuffer)
        ⊎ (k.log.screen.mode.framebuffer + k.log.screen.mode.height * k.log.screen.mode.pitch
            ≤ image.info)

  abbrev with_bytes : (ℕ → ℕ) → Kernel fuel calls → Kernel fuel calls
  with_bytes bytes k = record k { files = record (k.files) { bytes = bytes } }

  resolve-IsRoot :
      (font : Font) (drive : Registers → ℕ → ℕ) (image : Image) (root : ℕ) (k : Kernel fuel calls)
      → 0 < image.literal (codes "/")
      → Stands image k (codes "/")
      → HasInfo image k
      → root < 2 ^ 32
      → (bytes : ℕ → ℕ) × (resolve font drive image (codes "/") root k ≡ ok (1, with_bytes bytes k))
        × IsRoot root image.info k.files.bytes bytes
  unfolding resolve with_files
  resolve-IsRoot font drive image root k nonzero (slash, pos, out, (end, out')) has small =
      let there = has.there in
      let (bytes, e, is_root) =
        fat32_resolve_path-IsRoot drive fuel (image.literal (codes "/")) root image.info image.node
          k.files (λ p. omega arith) (λ p. omega arith) slash end small has.fits in
      (bytes, rw e refl, is_root)

  -- Information that describes a root is read the same where only the framebuffer changes.
  IsRoot-kept :
      (image : Image) (root : ℕ) (before bytes : ℕ → ℕ) (k : Kernel fuel calls) (s : Screen)
      → HasInfo image k
      → IsRoot root image.info before bytes
      → IsKept (shown (with_bytes bytes k)) s
      → (s.bytes (image.info + info_is_directory) ≡ 1)
        × (load32 (image.info + info_first_cluster) s.bytes ≡ root)
  IsRoot-kept image root before bytes k s has is_root kept =
      let fits = has.fits in
      let apart = has.outside in
      let same : (a : ℕ) → image.info ≤ a → a < image.info + 28 → s.bytes a ≡ bytes a =
        λ a from to. kept.memory a (ground (arith, apart)) in
      (
        same (image.info + 20) (omega arith) (omega arith) ∙ is_root.is_directory,
        load32-same (image.info + 24) bytes s.bytes (omega arith)
              (λ a from to. same a (omega arith) (omega arith))
            ∙ is_root.cluster,
      )

  -- Where the log's console is ready, at the start of a line, the message and the text "/" stand in
  -- memory, and the variable `info` has room outside the framebuffer, the first self test of
  -- `kernel_main` passes, given 85 rounds for the loops, whatever the disk holds: the start goes on with
  -- the cursor at the start of a line, and `info` describes a directory at the given root cluster.
  pub test_root-passes :
      (font : Font) (drive : Registers → ℕ → ℕ) (image : Image) (root : ℕ) (k : Kernel fuel calls)
      → IsFresh k
      → Stands image k (codes "FAT32 root resolution test...")
      → Stands image k (codes "/")
      → 0 < image.literal (codes "/")
      → HasInfo image k
      → root < 2 ^ 32
      → 85 ≤ fuel
      → (k' : Kernel fuel calls) × (test_root font drive image root k ≡ ok (true, k'))
        × IsFresh k'
        × (k'.files.bytes (image.info + info_is_directory) ≡ 1)
        × (load32 (image.info + info_first_cluster) k'.files.bytes ≡ root)
  unfolding test_root verdict
  test_root-passes font drive image root k fresh stands slash nonzero has small enough =
      let message = codes "FAT32 root resolution test..." in
      let (s1, e1, m1) =
        info_line-returns font image message k fresh stands refl (omega arith) enough in
      let k1 : Kernel fuel calls = with_screen s1 k in
      let mode = m1.kept.same_mode in
      let slash1 =
        StringAt-IsKept (shown k) s1 (image.literal (codes "/")) (codes "/") m1.kept slash in
      let has1 : HasInfo image k1 = record {
        there = has.there;
        fits = has.fits;
        outside = rw mode has.outside;
      } in
      let (bytes, e2, is_root) =
        resolve-IsRoot font drive image root k1 nonzero slash1 has1 small in
      let k2 : Kernel fuel calls = with_bytes bytes k1 in
      let wide = fresh.wide in
      let ready1 = m1.kept.ready in
      let ready2 : IsReady (shown k2) = record {
        sound = ready1.sound;
        tall = ready1.tall;
        column = ready1.column;
        line = ready1.line;
        all = is_root.bytes_stay ready1.all;
      } in
      let (s3, e3, kept, x3) =
        set_status-returns font image log_success k2 ready2 (rw m1.at_x refl)
          (rw m1.at_x (omega arith)) (rw mode wide) enough in
      let (directory, cluster) = IsRoot-kept image root s1.bytes bytes k1 s3 has1 is_root kept in
      (
        with_screen s3 k2,
        rw (e1, e2, e3) refl,
        record { ready = kept.ready; at_start = x3; wide = rw (kept.same_mode, mode) wide },
        directory,
        cluster,
      )
