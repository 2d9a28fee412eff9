-- ===== src/Kernel.antt =====
-- kernel/: the block allocator, the page tables and the start of the kernel.
pub mod Kmalloc
pub mod Vm
pub mod Main
pub mod Ring3
