-- ===== src/Kernel.antt =====
-- lab1/kernel: the kernel, a module for each source file.
pub mod Str
pub mod Kalloc
pub mod Blocks
pub mod Log
pub mod Pipe
pub mod Spinlock
pub mod Bio
pub mod Proc
pub mod Console
pub mod Vm
pub mod Usercopy
pub mod Fs
pub mod Inode
pub mod Content
pub mod Dir
pub mod Sys
pub mod Fileio
pub mod Sysfile
pub mod Syspath
pub mod Sysopen
pub mod Locks
pub mod Release
pub mod Uvm
pub mod Sleeplock
pub mod Path
pub mod File
pub mod Uart
