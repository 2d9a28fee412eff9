-- ===== src/Drivers/Storage/Split.antt =====
-- Where a sector of 512 bytes lies in the sectors of the drive.
use bedrock_os.Base.{ℕ, ◌+◌, ◌*◌, ◌^◌, ◌≤◌, ◌<◌, ◌≡◌, ◌⊎◌, inl, inr, arith}
use bedrock_os.Drivers.Storage.{real_sector, offset_in}

-- For both sector sizes and sectors below 2 GiB, the sector of the drive and the offset in it say
-- where the 512 bytes are, and they lie within that sector.
pub real_sector_offset :
    (sector sector_size : ℕ)
    → sector < 2 ^ 22
    → (sector_size ≡ 512) ⊎ (sector_size ≡ 2048)
    → (real_sector sector sector_size * sector_size + offset_in sector sector_size ≡ sector * 512)
      × (offset_in sector sector_size + 512 ≤ sector_size)
unfolding real_sector offset_in
real_sector_offset sector sector_size small (inl e) = rw e (ground arith)
real_sector_offset sector sector_size small (inr e) = rw e (ground arith)
