-- ===== src/Examples/Files.antt =====
-- The file system at a directory of one file, and at a superblock whose words are all 2.
use bedrock_os.Base.{
  ℕ, zero, suc, ◌+◌, ◌*◌, ◌/◌, ◌^◌, ◌≤◌, ◌<◌, ◌≡◌, refl, inl, arith, ◌==◌, if◌then◌else◌, List, [],
  ◌∷◌, replicate, length, get_or, u32,
}
use bedrock_os.Machine.{Machine, ok}
use bedrock_os.Machine.Devices.{DeviceInfo}
use bedrock_os.Machine.Memory.{Memory, load16, load32}
use bedrock_os.Kernel.Kmalloc.{block_size}
use bedrock_os.Kernel.Kmalloc.Region.{free_blocks}
use bedrock_os.Kernel.Kmalloc.Scan.{free_count, first_free}
use bedrock_os.Drivers.Ext2.Layout.{superblock_at, PrivData, priv_data_at, inode_size}
use bedrock_os.Drivers.Ext2.Volume.{
  inode_group, inode_index, inode_block, inode_slot, fill_priv_data,
}
use bedrock_os.Drivers.Ext2.Directory.{bytes_at, ext2_read_directory}
use bedrock_os.Drivers.Ext2.Listing.{TextAt, File, Listing, find_name}
use bedrock_os.Drivers.Ext2.Search.{Reused, next_block}
use bedrock_os.Drivers.Ext2.Finds.{ext2_read_directory_lem}
use bedrock_os.Drivers.Ext2.Geometry.{BlockFits, inode_place, fill_priv_data_lem}
use bedrock_os.Examples.Machines.{machine, free_map, twos, load32-twos, word, word-IsText}

-- A directory at 4096 with the file `word` at inode 12, and the name to look for at 8192.
abbrev listed : Memory
listed a =
    if a == 4096
    then 12
    else if a == 4100
    then 16
    else if a == 4102
    then 2
    else if a == 4104
    then 97
    else if a == 4105
    then 98
    else if a == 8192
    then 97
    else if a == 8193
    then 98
    else 0

abbrev with_directory : Machine
with_directory = record (machine free_map 0x58 []) { mem = listed }

abbrev files : List File
files = record { name = word; inode = 12 } ∷ []

some_free : 0 < free_blocks with_directory
unfolding free_count
some_free = omega arith

block_place : next_block with_directory ≡ 0xc0100000
unfolding first_free
block_place = refl

named : TextAt 256 8192 word listed
unfolding bytes_at
named = (replicate 253 0, refl)

word_characters : (i : ℕ) → i < length word → listed (4096 + 8 + i) ≡ get_or word i 0
word_characters zero h = refl
word_characters (suc zero) h = refl
word_characters (suc (suc i)) h = absurd (omega (arith, h))

listing :
    Listing (next_block with_directory) (next_block with_directory + block_size) listed 4096 files
unfolding load32 load16
listing = (
  record {
    inode_is = refl;
    used = omega arith;
    length_is = refl;
    characters = word_characters;
    text = word-IsText;
    short = omega arith;
    outside = inl (omega (arith, block_place));
  },
  (refl, inl (omega (arith, block_place))),
)

ext2_read_directory_lem_example :
    (m' : Machine) × (ext2_read_directory 2 256 8192 4096 with_directory
      ≡ ok (find_name word files) m')
    × Reused (next_block with_directory) (next_block with_directory + block_size) with_directory m'
ext2_read_directory_lem_example =
    ext2_read_directory_lem 2 256 8192 4096 word files with_directory some_free refl (omega arith)
      listing (omega arith) named word-IsText (inl (omega (arith, block_place))) (omega arith)
      (omega arith)

abbrev disk : DeviceInfo
disk = record { vd_id = 0; kind = 0; ata_id = 0; sector_size = 512 }

-- Every word of the structures is 2.
abbrev with_twos : Machine
with_twos = machine free_map 0x58 []

some_free_twos : 0 < free_blocks with_twos
unfolding free_count
some_free_twos = omega arith

-- A volume with blocks of 1 KiB and 214 inodes in a group.
abbrev volume : PrivData
volume = record {
  sb = record (superblock_at 0 twos) { inodes_in_blockgroup = 214 };
  first_bgd = 2;
  number_of_bgs = 1;
  blocksize = 1024;
  sectors_per_block = 2;
  inodes_per_block = 8;
}

inode_place_example :
    (214 * inode_group volume 300 + inode_index volume 300 + 1 ≡ 300)
    × (inode_index volume 300 < 214)
    × (inode_block volume 300 * 1024 + inode_slot volume (inode_index volume 300) * inode_size
        ≡ inode_index volume 300 * inode_size)
    × (inode_slot volume (inode_index volume 300) * inode_size + inode_size ≤ 1024)
inode_place_example =
    inode_place volume 300 (inl refl) refl (omega arith) (omega arith) (omega arith) (omega arith)

hint_is : (superblock_at 0xc0180000 twos).blocksize_hint ≡ 2
unfolding superblock_at
hint_is = load32-twos (0xc0180000 + 24) refl

groups_are : (superblock_at 0xc0180000 twos).blocks_in_blockgroup ≡ 2
unfolding superblock_at
groups_are = load32-twos (0xc0180000 + 32) refl

fill_priv_data_lem_example :
    (m' : Machine) × (fill_priv_data 0xc0180000 0xc0181000 with_twos ≡ ok tt m')
    × BlockFits (priv_data_at 0xc0181000 m'.mem).blocksize
    × ((priv_data_at 0xc0181000 m'.mem).blocksize
        ≡ 1024 * 2 ^ (superblock_at 0xc0180000 twos).blocksize_hint)
    × ((priv_data_at 0xc0181000 m'.mem).inodes_per_block
        ≡ (priv_data_at 0xc0181000 m'.mem).blocksize / inode_size)
    × ((priv_data_at 0xc0181000 m'.mem).sectors_per_block
        ≡ (priv_data_at 0xc0181000 m'.mem).blocksize / 512)
    × ((priv_data_at 0xc0181000 m'.mem).first_bgd ≡ (
        if (superblock_at 0xc0180000 twos).blocksize_hint == 0
        then u32 ((superblock_at 0xc0180000 twos).superblock_id + 1)
        else u32 (superblock_at 0xc0180000 twos).superblock_id))
    × ((priv_data_at 0xc0181000 m'.mem).sb.inodes_in_blockgroup
        ≡ (superblock_at 0xc0180000 twos).inodes_in_blockgroup)
fill_priv_data_lem_example =
    fill_priv_data_lem 0xc0180000 0xc0181000 with_twos (omega (arith, hint_is))
      (omega (arith, groups_are)) (inl (omega arith))
