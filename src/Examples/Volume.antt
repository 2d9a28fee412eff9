-- ===== src/Examples/Volume.antt =====
-- A volume with blocks of 1 KiB and groups of 8 inodes, whose only group has its inodes from block 5 on.
use bedrock_os.Base.{
  ℕ, ◌+◌, ◌*◌, ◌/◌, ◌%◌, ◌≤◌, ◌<◌, ◌≡◌, refl, inl, inr, arith, [], ◌∷◌, ◌==◌, if◌then◌else◌,
}
use bedrock_os.Machine.{Machine, ok}
use bedrock_os.Machine.Memory.{Memory, load16, load32}
use bedrock_os.Machine.Frame.{Always}
use bedrock_os.Kernel.Kmalloc.Region.{free_blocks}
use bedrock_os.Drivers.Ext2.Leak.{LosesBlock, ext2_read_inode-LosesBlock}
use bedrock_os.Kernel.Kmalloc.Second.{InUse}
use bedrock_os.Kernel.Kmalloc.Scan.{free_count}
use bedrock_os.Drivers.Ata.Sectors.{is_absent}
use bedrock_os.Drivers.Ata.Drive.{Drive, drive_after, Within}
use bedrock_os.Drivers.Ata.Contents.{disks}
use bedrock_os.Drivers.Storage.Online.{Linked}
use bedrock_os.Drivers.Ext2.Layout.{
  PrivData, priv_data_at, superblock_at, block_group_at, inode_size,
}
use bedrock_os.Drivers.Ext2.Volume.{inode_group, inode_index, inode_block, ext2_read_inode}
use bedrock_os.Drivers.Ext2.Blocks.{Mounted, disk_memory}
use bedrock_os.Drivers.Ext2.Inodes.{InodeOnDrive, table_on_disk}
use bedrock_os.Drivers.Ext2.ReadInode.{ext2_read_inode-InodeRead}
use bedrock_os.Examples.Machines.{machine, free_map}
use bedrock_os.Examples.Protocol.{
  first_drive, hard, served-Plain, obedient, status_of-Reports, paced,
}

-- The disk: the descriptor in block 2 names block 5.
abbrev volume_disk : Drive
volume_disk = record {
  select = 0;
  count = 0;
  lba0 = 0;
  lba1 = 0;
  lba2 = 0;
  command = 0;
  words = 0;
  contents = λ disk address.
      if address == 2056 then 5 else if address / 4 == 514 then 0 else address % 251;
  busy = 1;
  pace = λ command words. 1 + words / 256 % 3;
  patience = 3;
}

volume_disk-Within : Within 3 volume_disk
volume_disk-Within = record { busy = omega arith; pace = λ command words. paced words }

abbrev priv : ℕ
priv = 0xc0180000

-- The private data: 8 inodes to a group, the descriptors in block 2, blocks of 1024 bytes, 2 sectors
-- and 8 inodes.
abbrev volume_data : Memory
volume_data a =
    if a == priv + 40
    then 8
    else if a == priv + 1024
    then 2
    else if a == priv + 1033
    then 4
    else if a == priv + 1036
    then 2
    else if a == priv + 1040
    then 8
    else 0

abbrev volume : Machine
volume = record (machine free_map 0x58 (first_drive ∷ [])) {
  answer = obedient volume_disk;
  mem = volume_data;
}

abbrev data_of_volume : PrivData
data_of_volume = priv_data_at priv volume_data

volume-Linked : Linked 0x1f0 volume_disk hard first_drive volume
unfolding is_absent
volume-Linked = record {
  backed = record {
    room = omega arith;
    ready = record {
      registers = (_, refl, refl);
      room = omega arith;
      prompt = volume_disk-Within;
      reports = λ history. status_of-Reports (drive_after 0x1f0 volume_disk history);
    };
    supplies = λ history moving free. refl;
  };
  found = refl;
  present = refl;
  error_code = refl;
}

volume-Mounted : Mounted data_of_volume
unfolding priv_data_at superblock_at load32 load16
volume-Mounted = record { fits = inl refl; per = refl; sectors = refl }

volume-InodeOnDrive :
    InodeOnDrive data_of_volume first_drive (disk_memory 0x1f0 volume_disk first_drive volume) 2 3
unfolding priv_data_at superblock_at load32 load16 block_group_at inode_group inode_index
    inode_block drive_after
volume-InodeOnDrive = record {
  counted = (omega arith, omega arith);
  groups = (omega arith, omega arith);
  descriptors = (omega arith, omega arith);
  descriptor = omega arith;
  table = (omega arith, omega arith);
}

volume-InUse : (p n : ℕ) → 0xc0170000 ≤ p → InUse volume p n
volume-InUse p n high i low free = inr (omega arith)

ext2_read_inode-InodeRead_example :
    (n : Machine) × (ext2_read_inode 5 0 hard priv 3 0xc0190000 volume ≡ ok tt n)
    × ((i : ℕ)
        → i < inode_size
        → n.mem (0xc0190000 + i)
          ≡ disk_memory 0x1f0 volume_disk first_drive volume (
              table_on_disk
                  (disk_memory 0x1f0 volume_disk first_drive volume)
                  data_of_volume
                  data_of_volume.first_bgd
                  (inode_group data_of_volume 3)
                * data_of_volume.blocksize
              + inode_index data_of_volume 3 * inode_size
              + i))
    × (disks 0x1f0 volume_disk n ≡ disks 0x1f0 volume_disk volume)
    × Linked 0x1f0 volume_disk hard first_drive n
unfolding free_count priv_data_at load32 load16
ext2_read_inode-InodeRead_example =
    ext2_read_inode-InodeRead 0x1f0 volume_disk 1 0 hard first_drive priv 3 0xc0190000
      data_of_volume volume volume-Linked served-Plain (omega arith, refl, omega arith) refl
      volume-Mounted volume-InodeOnDrive
      (volume-InUse priv 1044 (omega arith), volume-InUse 0xc0190000 128 (omega arith))

some_free_volume : 0 < free_blocks volume
unfolding free_count
some_free_volume = omega arith

-- The call that the example above shows to return.
ext2_read_inode-LosesBlock_example :
    Always (LosesBlock volume) (ext2_read_inode 5 0 hard priv 3 0xc0190000 volume)
ext2_read_inode-LosesBlock_example =
    ext2_read_inode-LosesBlock 5 0 hard priv 3 0xc0190000 volume some_free_volume refl (omega arith)
