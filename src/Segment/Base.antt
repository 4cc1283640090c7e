-- ===== src/Segment/Base.antt =====
-- The address in the descriptor of the TSS.
use so.Common.{ℕ, ◌+◌, ◌*◌, ◌^◌, ◌<◌, ◌≡◌, ◌≢◌, refl, arith}
use so.Segment.{Descriptor, set_gdt}

-- The 32-bit base that the processor reads from a descriptor.
abbrev pub base_of : Descriptor → ℕ
base_of d = d.low_base + d.mid_base * 2 ^ 16 + d.high_base * 2 ^ 24

-- `setGdt` puts the address of the TSS, a 32-bit number, into the entry that the selector of the
-- TSS names, in three parts; the other fields of that entry and the other entries stay.
pub set_gdt-base_of :
    (tss : ℕ) (gdt : ℕ → Descriptor)
    → tss < 2 ^ 32
    → let d = (set_gdt tss gdt).0 in
      (base_of (d 6) ≡ tss)
      × (((d 6).limit ≡ (gdt 6).limit)
          × ((d 6).flags1 ≡ (gdt 6).flags1)
          × ((d 6).flags2 ≡ (gdt 6).flags2))
      × ((i : ℕ) → i ≢ 6 → d i ≡ gdt i)
unfolding set_gdt
set_gdt-base_of tss gdt fits = (omega arith, (refl, refl, refl), λ i ne. ground arith)
