-- ===== src/Drivers/Storage/Losses.antt =====
-- The reads of the storage layer and of inodes free no block that they did not take, and what
-- `ext2_read_inode` takes stays taken.
use bedrock_os.Base.{
  ℕ, zero, suc, ◌+◌, ◌*◌, ◌^◌, ◌≤◌, ◌≡◌, refl, arith, false, Bool-cases, inl, inr, length, leb, u32,
  ◌!=◌,
}
use bedrock_os.Machine.{Machine, Outcome, M, Event, ok, exit, waiting, fault, emit, ◌>>=◌}
use bedrock_os.Machine.Devices.{DeviceInfo}
use bedrock_os.Machine.Memory.{Memory}
use bedrock_os.Machine.Ports.{change}
use bedrock_os.Machine.Frame.{Always}
use bedrock_os.Machine.Stays.{Stays, Stays-bind, Stays-if}
use bedrock_os.Kernel.Kmalloc.{block_size, k_memory_map_entries}
use bedrock_os.Kernel.Kmalloc.Region.{free_blocks, kmalloc_lem}
use bedrock_os.Kernel.Kmalloc.Grows.{Pooled, Pooled-trans, Pooled-same}
use bedrock_os.Drivers.Storage.{read_sector, read_sectors_from, read_sectors}
use bedrock_os.Drivers.Storage.Reads.{AfterAccess, read_sector-AfterAccess}

abbrev pub Keeps : {A : Type 0} → M A → Type 0
Keeps c = Stays Pooled c

pub Keeps-bind :
    {A B : Type 0} {c : M A} {k : A → M B} → Keeps c → ((a : A) → Keeps (k a)) → Keeps (c >>= k)
Keeps-bind {A} {B} {c} {k} f g = Stays-bind Pooled Pooled-trans {c = c} {k = k} f g

pub Keeps-pure : {A : Type 0} (a : A) → Keeps (ok a)
Keeps-pure a = record { at = λ m. Pooled-same m m refl refl }

pub Keeps-fault : {A : Type 0} → Keeps {A = A} (λ m. fault)
Keeps-fault = record { at = λ m. tt }

pub Keeps-emit : (e : Event) → Keeps (emit e)
Keeps-emit e = record { at = λ m. Pooled-same m _ refl refl }

pub Keeps-change : (f : Memory → Memory) → Keeps (change f)
unfolding change
Keeps-change f = record { at = λ m. Pooled-same m _ refl refl }

-- A read that ends in one of the ways of `AfterAccess` frees nothing else.
Pooled-AfterAccess :
    (m : Machine) (buffer : ℕ) (r : Outcome ℕ)
    → (length m.blocks ≡ k_memory_map_entries
        → m.heap_base + k_memory_map_entries * block_size ≤ 2 ^ 32
        → AfterAccess m buffer r)
    → Always (Pooled m) r
Pooled-AfterAccess m buffer (ok a n) h = record { grows = λ len space. (h len space).1.grows }
Pooled-AfterAccess m buffer (exit code n) h = record { grows = λ len space. (h len space).grows }
Pooled-AfterAccess m buffer (waiting n) h = record { grows = λ len space. (h len space).grows }
Pooled-AfterAccess m buffer fault h = tt

read_sector-exhausted :
    (fuel stray : ℕ) (device : DeviceInfo) (sector buffer : ℕ) (m : Machine)
    → leb 1 (free_blocks m) ≡ false
    → read_sector fuel stray device sector buffer m ≡ exit 2 m
unfolding read_sector
read_sector-exhausted fuel stray device sector buffer m none_left =
    rw (kmalloc_lem 1 m (omega arith), none_left) refl

pub read_sector-Keeps :
    (fuel stray : ℕ) (device : DeviceInfo) (sector buffer : ℕ)
    → Keeps (read_sector fuel stray device sector buffer)
read_sector-Keeps fuel stray device sector buffer = record {
  at = λ m. elim (Bool-cases (leb 1 (free_blocks m))) [
    | inl enough ↦
        Pooled-AfterAccess m buffer (read_sector fuel stray device sector buffer m) λ len space.
          read_sector-AfterAccess fuel stray device sector buffer m (ground arith) len space
    | inr none_left ↦
        rw (read_sector-exhausted fuel stray device sector buffer m none_left)
          (Pooled-same m m refl refl)
  ];
}

read_sectors_from-Keeps :
    (fuel stray : ℕ) (device : DeviceInfo) (sector buffer c left : ℕ)
    → Keeps (read_sectors_from fuel stray device sector buffer c left)
unfolding read_sectors_from
read_sectors_from-Keeps fuel stray device sector buffer c zero = Keeps-pure 0
read_sectors_from-Keeps fuel stray device sector buffer c (suc left) =
    Keeps-bind (read_sector-Keeps fuel stray device (u32 (sector + c)) (buffer + c * 512)) λ err.
      Stays-if Pooled Pooled-trans (err != 0) (Keeps-pure 1)
        (read_sectors_from-Keeps fuel stray device sector buffer (c + 1) left)

pub read_sectors-Keeps :
    (fuel stray : ℕ) (device : DeviceInfo) (sector count buffer : ℕ)
    → Keeps (read_sectors fuel stray device sector count buffer)
unfolding read_sectors
read_sectors-Keeps fuel stray device sector count buffer =
    read_sectors_from-Keeps fuel stray device sector buffer 0 count
