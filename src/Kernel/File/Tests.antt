-- ===== src/Kernel/File/Tests.antt =====
-- A run of the file table, and the theorems on it.
use learn_mit_s.Common.{◌≡◌, refl, false, some, [], ◌∷◌, arith, update}
use learn_mit_s.Kernel.File.{
  fd_none, File, Files, find_free, filealloc, filedup, Closing, fileclose,
}
use learn_mit_s.Kernel.File.Descriptors.{count, Open, open_file, dup, Reach, boot, step}
use learn_mit_s.Kernel.File.Sharing.{Closes, filealloc_fresh, fileclose-Closes}

abbrev unused_file : File
unused_file = record {
  kind = fd_none;
  ref = 0;
  readable = false;
  writable = false;
  pipe = 0;
  ip = 0;
  off = 0;
  major = 0;
}

abbrev files : Files
files _ = unused_file

-- File 0 opened and duplicated.
abbrev shared_file : Open
shared_file = record {
  table =
      update (update files 0 (record unused_file { ref = 1 })) 0 (record unused_file { ref = 2 });
  held = 0 ∷ 0 ∷ [];
}

run : Reach files shared_file
unfolding filealloc find_free filedup
run = step (step boot (omega arith) (open_file 0 _ refl)) (omega arith) (dup 0 [] [] refl refl)

next :
    filealloc shared_file.table
    ≡ (some 1, update shared_file.table 1 (record unused_file { ref = 1 }))
unfolding filealloc find_free
next = refl

filealloc_fresh_example : count 1 shared_file.held ≡ 0
filealloc_fresh_example = filealloc_fresh (λ i. refl) run 1 _ next

fileclose-Closes_example :
    (c : Closing) × (u : Files) × (fileclose 0 shared_file.table ≡ some (c, u))
    × Closes shared_file.table 0 1 c u
fileclose-Closes_example = fileclose-Closes (λ i. refl) run (omega arith) 0 [] (0 ∷ []) refl
