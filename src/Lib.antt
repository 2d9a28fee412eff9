-- ===== src/Lib.antt =====
-- bedrock-os: a model of the kernel's C code, with theorems about it.
--
-- The kernel (bedrock-os_grub/) runs on one 32-bit processor without an operating system below
-- it. `kernel_main` sets up segments, page tables and interrupts, finds the disks, and mounts a
-- file system. The parts modelled here share one record, `Machine` (Machine.antt): byte memory,
-- the history of port accesses and messages, the block map of the allocator, and the globals of
-- the disk driver. A C function is a command `M A`, a function from a machine to an `Outcome`: a
-- return with the machine left behind, the endless loop of `kernel_exit` with its code, a busy
-- wait that is not over, or an access outside an array. The hardware is the field `answer`, any
-- function from the history and a port to a number, so a theorem without a hypothesis on it holds
-- for every device.
--
-- Base           shared names; C arrays as lists (Lists), 8-, 16- and 32-bit words and their bits
--                (Bits), Boolean tests (Tests), order (Order), the `int` of C (Int).
-- Machine        the state; Memory is bedrock-os_grub/libc/mem.c and the little-endian accesses,
--                Ports is bedrock-os_grub/cpu/ports.c, Devices the structs of
--                bedrock-os_grub/drivers/ATA.h, ATA.c and storage.h. Frame, Stays, Settled and
--                Gives are the logics of what a command leaves alone and what it returns.
-- Kernel.Kmalloc bedrock-os_grub/kernel/kmalloc.c. `scan` is the search loop, `mark` the two
--                loops that write the map, `lock` what follows a hit. Scan, Mark, Region, Free,
--                Disjoint, Overlap, Grows and Second prove. Holders is the allocator as a state
--                machine, against a count of each block's holders.
-- Kernel.Vm      bedrock-os_grub/kernel/vm.c. `map_page` is `table_for`, which finds or makes the
--                table, and then `fill_slot`. Walk is the processor's translation, the
--                specification; Entries, Map, NewTable, Mapping and Setup prove.
-- Kernel.Ring3   bedrock-os_grub/kernel/ring3.c: the assembly of `jump_usermode` on a stack in memory.
--                UserMode proves.
-- Kernel.Main    bedrock-os_grub/kernel/kernel.c: the start of the kernel as the sequence of its
--                parts, and its end.
-- Drivers.Ata    bedrock-os_grub/drivers/ATA.c. Reg and Status are its constants, Registers the
--                access to registers and the polling, Address the choice of CHS, LBA28 or LBA48,
--                Access the transfers, Sectors the error report and the two entry points,
--                Initialize the detection of the drives. Frames, Transfers, Guards, Reports,
--                Ready, Requests, Sound and Detection prove. Drive is the
--                specification of a drive at the other end of a channel, its registers and its
--                disks as a function of the history; Calm, Commands, Words, Delivers, Stores,
--                Underway, Contents and Exchange prove what moves between it and memory.
-- Drivers.Storage bedrock-os_grub/drivers/storage.c: sectors of 512 bytes over the disk driver,
--                through a block of the allocator. Split, Reads, Writes, Losses and Registry
--                prove, and Online, Fetched, Delivers, Saves, Ranges and WriteRanges for a drive that keeps to
--                the protocol of Drivers.Ata.Drive.
-- Drivers.Ext2   bedrock-os_grub/drivers/ext2.h (Layout) and bedrock-os_grub/drivers/ext2.c:
--                Volume has the geometry, blocks and inodes, Directory the search of a directory,
--                Lookup the path and the start. Listing is a directory as it lies in memory;
--                Search, Finds, Leak and Geometry prove, and Agree, Blocks, InodeSteps, Inodes and
--                ReadInode for
--                what comes from the disk.
-- Drivers.Screen bedrock-os_grub/drivers/screen.c and screen.h; Numbers has the printers of
--                numbers. Printing, Safety and Cells prove.
-- Drivers.Keyboard bedrock-os_grub/drivers/keyboard.c; Typing proves.
-- Cpu            Idt is bedrock-os_grub/cpu/idt.c, bedrock-os_grub/cpu/isr.c and
--                bedrock-os_grub/cpu/type.h; Gdt is bedrock-os_grub/cpu/gdt.c and
--                bedrock-os_grub/cpu/gdt.h; Timer is bedrock-os_grub/cpu/timer.c. These keep a
--                small state of their own, `Cpu`, save for Gdt, where Entries is the table in memory. Exceptions is `isr_handler`.
-- Libc.Strings   bedrock-os_grub/libc/string.c, on lists of characters, where `none` is an access
--                outside the list. Buffers, Split, Reverse and Decimal prove.
-- Examples       the theorems at concrete machines.
--
-- Loops over a counter are structural recursion on the rounds left. A wait for the hardware takes
-- `fuel` rounds and ends in `waiting` when they are spent; the theorems on any hardware hold for every
-- fuel.
-- `sleep` takes as fuel the timer interrupts that come, and ends if they are as many as the ticks
-- it waits for. Addresses of globals, which the linker chooses, are arguments or fields. The
-- integer arithmetic of the code and its moves between kernel and physical addresses wrap at 2^32, and
-- so does the buffer of a disk transfer. Any other step over an array that leaves the address space
-- is undefined in C and does not wrap here.
--
-- Messages are events of the history and not cells of the screen, save in Drivers.Screen and for
-- the backspace of the keyboard: the printers write only the screen's memory, so the other parts
-- do not depend on what they do there. A string in memory is read up to `limit` bytes, and one
-- without an end there is an access outside an array. `sleep` in the detection of the drives is an
-- event.
--
-- A drive that keeps to the protocol (Drivers.Ata.Contents, `Backed`) is a hypothesis on `answer`.
-- After a command and after each sector the drive is busy for a number of reads of its status that
-- it chooses, up to its `patience`; meanwhile the status shows so, and the drive takes neither
-- registers nor words. While it is not busy and a read by sector number is under way, the status
-- shows data and no error, and the data port gives the words of the disk that the history of the
-- accesses has made. Nothing is assumed of the status of an idle drive but that it is not busy. The
-- fuel of these theorems, `enough`, is any number above the drive's patience. The loads of the
-- segment tables and of the page directory register are events; how a compiler passes arguments
-- on the stack is an assumption of Kernel.Ring3.
--
-- Not modelled: the assembly files (bedrock-os_grub/boot/, bedrock-os_grub/cpu/interrupt.asm), the
-- endless loop `userland_entry`, `user_input`, which is empty, and the array `sc_name`, which nothing
-- reads. Interrupts
-- come only in the rounds of `ide_wait_irq` and between the steps that the timer's theorems name.
pub mod Base
pub mod Machine
pub mod Kernel
pub mod Drivers
pub mod Cpu
pub mod Libc
mod Examples
