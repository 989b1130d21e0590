-- ===== src/Kernel/Sysfile/Sample.antt =====
-- A process with two descriptors open, and a file without links.
use learn_mit_s.Common.{true, false, some, none, ◌==◌, if◌then◌else◌}
use learn_mit_s.Kernel.Pipe.{fresh_pipe}
use learn_mit_s.Kernel.File.{File, fd_inode, fd_pipe}
use learn_mit_s.Kernel.Fs.{Inode, Fs}
use learn_mit_s.Kernel.Sys.{Sys}

abbrev inode : Inode
inode = record {
  inum = 1;
  ref = 1;
  owned = false;
  valid = true;
  type = 2;
  major = 0;
  minor = 0;
  nlink = 0;
  size = 0;
  addrs = λ _. 0;
}

abbrev disk : Fs
disk = record {
  sb = record { size = 8; ninodes = 16; inodestart = 2; bmapstart = 3 };
  blocks = λ b i. 0;
  held = λ _. false;
  logged = λ _. false;
  inodes = λ i. inode;
}

abbrev file : File
file = record {
  kind = fd_inode;
  ref = 1;
  readable = true;
  writable = false;
  pipe = 0;
  ip = 5;
  off = 0;
  major = 0;
}

-- Descriptors 0 and 1 are open.
abbrev pub process : Sys
process = record {
  fs = disk;
  files = λ _. file;
  pipes = λ _. fresh_pipe (λ _. 0);
  space = record { pt = 0; tables = record { freelist = 0; mem = λ _. 0 } };
  endk = 0;
  mem = λ _. 0;
  args = λ _. 0;
  sz = 0;
  killed = false;
  ofile = λ fd. if fd == 0 then some 3 else if fd == 1 then some 4 else none;
  cwd = 5;
  ops = 0;
}

-- The same process with the two files of a pipe, 7 and 8, for which it has no descriptors yet.
abbrev pipe_file : File
pipe_file = record file { kind = fd_pipe; pipe = 4096 }

abbrev pub with_pipe : Sys
with_pipe = record process {
  files = λ f. if f == 8 then record pipe_file { writable = true } else pipe_file;
}
