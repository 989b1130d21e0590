-- ===== src/Lib.antt =====
-- Verification of the xv6 kernel in lab1/kernel and of programs in lab1/user.
--
-- The program is a small Unix kernel. Processes (proc.c) share memory through the page allocator
-- (kalloc.c), talk through pipes (pipe.c), and change the disk through the redo log (log.c), which writes
-- blocks through the buffer cache (bio.c). Files and directories (fs.c) lie in those blocks, and page
-- tables (vm.c) map the memory of processes, through which every copy to and from a user goes. The
-- system calls on files (sysfile.c) put these together. Spin locks (spinlock.c) make the bodies of the
-- operations atomic, and string.c moves the bytes. The shell (sh.c) is one of the user programs.
--
-- Common          the Boolean tests, lists, integers and maps that all parts share.
-- Kernel.Str      lab1/kernel/string.c. Memory is a function from addresses to bytes; each function of the
--                 file has the same name here, and a loop is a function of the rounds left.
-- Kernel.Kalloc   lab1/kernel/kalloc.c. Memory is read in words, and the free list stands in the free pages.
--                 kinit, freerange, kfree and kalloc are the functions of these names; `none` is a panic.
--                 Kalloc.Ownership runs them together with the owners of pages.
-- Kernel.Blocks   the block layer as its users see it: the promise of lab1/kernel/bio.c, with a count of the
--                 writes that reach the disk before power fails. It is a specification, not a translation, and
--                 without the limit of NBUF buffers in use, past which bget panics.
-- Kernel.Log      lab1/kernel/log.c over Kernel.Blocks. Each function keeps its name; end_op is split at the
--                 call of commit, and begin_op is one round of its loop, `none` where it sleeps. Log.Several
--                 makes several calls of log_write in a row.
-- Kernel.Bio      lab1/kernel/bio.c. The linked list is a list of buffers from most to least recently used.
--                 bget is the function of that name up to acquiresleep, and bread_locked the rest of bread.
-- Kernel.Pipe     lab1/kernel/pipe.c. The counters are 32-bit words. A sleep is an outcome that holds the
--                 state and the index to go on from.
-- Kernel.Spinlock lab1/kernel/spinlock.c. acquire and release are split where another CPU can come between;
--                 Spinlock.Mutex interleaves the steps of any number of CPUs.
-- Kernel.Sleeplock lab1/kernel/sleeplock.c: its four functions as steps of processes.
-- Kernel.Vm       lab1/kernel/vm.c: walk, walkaddr and mappages, over Kernel.Kalloc. A table is the address of
--                 its root page, and an entry is a word of memory. Vm.Owners gives every page-table page its
--                 place in one tree.
-- Kernel.Uvm      lab1/kernel/vm.c: the functions on user and kernel tables, each under its own name.
-- Kernel.Usercopy lab1/kernel/vm.c and proc.c: copyin, copyout, copyinstr and the two either_copy functions,
--                 over a memory of bytes; walkaddr is that of Kernel.Vm.
-- Kernel.Fs       lab1/kernel/fs.c and fs.h: the state of the file system, balloc, bfree and bzero. bread, brelse
--                 and log_write are what fs.c sees of bio.c and log.c: a lock on the buffer, and a mark. That
--                 log_write panics without a transaction, or when the log is full, is in Kernel.Log alone;
--                 Content.RoundTrip puts the two together for writei.
-- Kernel.Inode    lab1/kernel/fs.c: the inode cache, bmap, itrunc and iupdate. An inode pointer is an index;
--                 its sleep lock is a flag.
-- Kernel.Content  lab1/kernel/fs.c: readi and writei, with the copy of Kernel.Usercopy; a buffer lies behind all
--                 of memory while bytes are copied.
-- Kernel.Dir      lab1/kernel/fs.c: dirlookup, dirlink, namex, namei and nameiparent.
-- Kernel.Path     lab1/kernel/fs.c: skipelem, and the names that the loop of namex looks up.
-- Kernel.Proc     lab1/kernel/proc.c: the process table and its states. A process is an index; whether an
--                 allocation or a copy goes through is an argument.
-- Kernel.File     lab1/kernel/file.c: filealloc, filedup and fileclose on the table of open files. What
--                 fileclose goes on to call is a value.
-- Kernel.Sys      lab1/kernel/syscall.c: fetching arguments; and the state of a system call, with the calls of
--                 the layers below: the file system, the file table, pages, and begin_op and end_op as a count.
-- Kernel.Fileio   lab1/kernel/file.c: fileread, filewrite and filestat; pipealloc of lab1/kernel/pipe.c, and
--                 stati of lab1/kernel/fs.c. The device switch is a table of functions.
-- Kernel.Sysfile  lab1/kernel/sysfile.c: argfd, fdalloc, sys_dup, sys_read, sys_write, sys_close, sys_fstat and
--                 sys_pipe. A part of a function behind a branch is a function of its own.
-- Kernel.Syspath  lab1/kernel/sysfile.c: sys_link, isdirempty and sys_unlink.
-- Kernel.Sysopen  lab1/kernel/sysfile.c: create, sys_open, sys_mkdir, sys_mknod and sys_chdir.
-- Kernel.Locks    lab1/kernel/fs.c: which locks of inodes and buffers are held before and after each of its
--                 functions. It has a module for each layer of the file.
-- Kernel.Release  lab1/kernel/sysfile.c: the same for the system calls, with their transactions. Release.Calls
--                 puts all of the calls into one type.
-- Kernel.Console  lab1/kernel/console.c: consoleintr and consoleread. A sleep is an outcome that holds the
--                 state and the number of bytes to go.
-- Kernel.Uart     lab1/kernel/uart.c: the transmit ring, uartputc_sync, which writes past it, and the interrupt
--                 with the bytes that have arrived and the echo of Kernel.Console. The device is a count of
--                 idle answers in a row and the list of the bytes written to it; the spin of uartputc_sync until
--                 the UART is idle is left out.
-- User.Ulib       lab1/user/ulib.c: the string functions; its memmove is memmove_user here.
-- User.Printf     lab1/user/printf.c: printint.
-- User.Grep       lab1/user/grep.c: the pattern matcher. A string is the list of its bytes.
-- User.Sh         lab1/user/sh.c: the tokenizer and the parser. gettoken, peek and parsecmd are the functions of
--                 these names; the loops of parseexec and parseline are parseargs and parsebacks. A text is the
--                 list of its bytes, and what a function leaves in *ps is the text left. Sh.Syntax is a grammar
--                 of lines with a printer, which is the specification.
--
-- Bounds and fuel. An `int` or `uint` that wraps in reach of the code is reduced modulo 2^32: the
-- counters of a pipe and of the console, and the use counts of buffers and files. The loops over
-- the process table run 64 rounds. freerange runs on fuel of one round for each page below its end
-- and one more, and the theorem on kinit shows that it is enough. strlen, strcmp, strcpy, strchr
-- and atoi run on fuel, a round for each byte and one more. Killing a console line takes at most the 128 rounds of the buffer's size, and a number
-- has at most 32 digits. The walk along a path has a round for each of its bytes, and one more. mappages and uvmalloc run on fuel of one page more than there are below MAXVA,
-- where walk panics; the theorem on mappages shows that it is enough. freewalk has the depth of the
-- tables, 3. The copies, readi and writei run on fuel of one more than the bytes, since a round moves at
-- least one, and their theorems show that it is enough. balloc has a round for each block of the
-- bitmap, and two more; dirlookup, dirlink and isdirempty one for each entry. The parser of the shell
-- has eight units of fuel for each byte, and eight more, since four calls lie between two brackets.
-- filewrite has a round for each byte. All other loops count down a length.
--
-- Not modelled: device registers and interrupts (trap.c, virtio_disk.c, plic.c), the switch to a page
-- table and the copy of the first program (kvminithart and uvminit of vm.c), the start of the file
-- system (fs.c), sys_exec (sysfile.c) and exec, the table of system calls and those of sysproc.c, the
-- assembly files, runcmd and the reading of lines of the shell, which are system calls, and the other
-- programs of lab1/user. There is one device, so a comparison of devices is left out. Memory ordering
-- between CPUs is left out: a step of one CPU is atomic. Kernel.Locks and Kernel.Release follow one
-- process: where it would wait for a lock it sleeps, and nothing is said of what wakes it.
pub mod Common
pub mod Kernel
pub mod User
