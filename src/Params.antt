-- ===== src/Params.antt =====
-- fs_param.h and the sizes of fs_server.h.
use os_from_scratch.Common.{ℕ}

-- Size of a disk block in bytes.
abbrev pub fs_blocksize : ℕ
fs_blocksize = 512

-- The most data blocks of a file or directory.
abbrev pub fs_maxfileblocks : ℕ
fs_maxfileblocks = 124

-- The longest file name, path name and user name, without the terminator.
abbrev pub fs_maxfilename : ℕ
fs_maxfilename = 59

abbrev pub fs_maxpathname : ℕ
fs_maxpathname = 128

abbrev pub fs_maxusername : ℕ
fs_maxusername = 10

-- Size of the disk in blocks.
abbrev pub fs_disksize : ℕ
fs_disksize = 4096

-- FS_BLOCKSIZE / sizeof(fs_direntry), and a direntry is 60 + 4 bytes.
abbrev pub fs_direntries : ℕ
fs_direntries = 8
