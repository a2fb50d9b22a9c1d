-- ===== src/Boot/Tags.antt =====
-- The search of the tags ends where each of them has a size.
use icosaos.Prelude.{
  ℕ, zero, suc, ◌+◌, ◌*◌, ◌/◌, ◌<◌, ◌^◌, ◌≡◌, inl, inr, refl, arith, true, false, ◌&&◌, add32, ◌==◌,
  ltb, load32, Bool-cases, ok,
}
use icosaos.Prelude.Bits.{and-tag_mask}
use icosaos.Framebuffer.{vga_init}
use icosaos.Boot.{Found, take_framebuffer, scan_tags}

-- The type and the size of the tag at an offset.
abbrev pub type_at : ℕ → (ℕ → ℕ) → ℕ → ℕ
type_at mbi_addr bytes offset = load32 (add32 mbi_addr offset) bytes

abbrev pub size_at : ℕ → (ℕ → ℕ) → ℕ → ℕ
size_at mbi_addr bytes offset = load32 (add32 (add32 mbi_addr offset) 4) bytes

-- `n` tags stand one behind another, eight-byte aligned, from `offset` on up to that of the framebuffer
-- at `at`; none of them is the end mark or a framebuffer.
abbrev pub Leads : ℕ → ℕ → (ℕ → ℕ) → ℕ → ℕ → ℕ → Type 0
Leads mbi_addr mbi_size bytes zero offset at =
    (offset ≡ at) × (at < mbi_size) × (type_at mbi_addr bytes at ≡ 8)
Leads mbi_addr mbi_size bytes (suc n) offset at =
    (offset < mbi_size)
    × ((type_at mbi_addr bytes offset == 0 && size_at mbi_addr bytes offset == 8) ≡ false)
    × ((type_at mbi_addr bytes offset == 8) ≡ false)
    × (offset + size_at mbi_addr bytes offset + 7 < 2 ^ 32)
    × Leads mbi_addr mbi_size bytes n (offset + (size_at mbi_addr bytes offset + 7) / 8 * 8) at

-- The console set up from the tag.
pub record Uses (tag : ℕ) (bytes shown : ℕ → ℕ) (s' : Found) : Type 0 where
  pub address : s'.screen.mode.framebuffer ≡ load32 (add32 tag 8) bytes
  pub pitch : s'.screen.mode.pitch ≡ load32 (add32 tag 16) bytes
  pub width : s'.screen.mode.width ≡ load32 (add32 tag 20) bytes
  pub height : s'.screen.mode.height ≡ load32 (add32 tag 24) bytes
  pub depth : s'.screen.mode.bpp ≡ bytes (add32 tag 28)
  pub corner : (s'.screen.cursor_x ≡ 0) × (s'.screen.cursor_y ≡ 0)
  pub memory : s'.screen.bytes ≡ shown
  pub locals :
      (s'.fb_addr ≡ s'.screen.mode.framebuffer)
      × (s'.fb_pitch_local ≡ s'.screen.mode.pitch)
      × (s'.fb_height_local ≡ s'.screen.mode.height)

-- Where `n` tags lead to that of the framebuffer, the loop of `kernel_main` ends, given a round for
-- each and one more: the console is set up from that tag with the cursor in the corner, memory is as it
-- was, and the address, the pitch and the height that go to `init_paging` are those of the console.
pub scan_tags-Uses :
    (n fuel offset at mbi_addr mbi_size : ℕ) (bytes : ℕ → ℕ) (s : Found)
    → Leads mbi_addr mbi_size bytes n offset at
    → n < fuel
    → (s' : Found) × (scan_tags fuel offset mbi_addr mbi_size bytes s ≡ ok s')
      × Uses (add32 mbi_addr at) bytes s.screen.bytes s'
unfolding scan_tags take_framebuffer vga_init
scan_tags-Uses n zero offset at mbi_addr mbi_size bytes s leads h = absurd (omega arith)
scan_tags-Uses zero (suc fuel) offset at mbi_addr mbi_size bytes s (e, inside, is_framebuffer) h =
    let more : ltb at mbi_size ≡ true = ground arith in
    rw (e, more, is_framebuffer)
      (
        _,
        refl,
        record {
          address = refl;
          pitch = refl;
          width = refl;
          height = refl;
          depth = refl;
          corner = (refl, refl);
          memory = refl;
          locals = (refl, refl, refl);
        },
      )
scan_tags-Uses (suc n) (suc fuel) offset at mbi_addr mbi_size bytes s
      (inside, no_end, other, small, leads) h =
    let more : ltb offset mbi_size ≡ true = ground arith in
    let size = size_at mbi_addr bytes offset in
    let padded : add32 size 7 ≡ size + 7 = omega arith in
    let next : add32 offset ((size + 7) / 8 * 8) ≡ offset + (size + 7) / 8 * 8 = omega arith in
    let rest = λ (noted : Found).
      scan_tags-Uses n fuel (offset + (size + 7) / 8 * 8) at mbi_addr mbi_size bytes noted leads
        (omega arith) in
    rw (more, no_end, other)
      (rw (padded, and-tag_mask (size + 7) (omega arith), next)
        (elim (Bool-cases (type_at mbi_addr bytes offset == 14)) [
          | inl acpi ↦
              rw acpi (rest (record s { acpi_rsdp_phys = add32 (add32 mbi_addr offset) 8 }))
          | inr plain ↦ rw plain (rest s)
        ]))
