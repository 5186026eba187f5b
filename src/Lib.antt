-- ===== src/Lib.antt =====
-- A multi-user network file server, a thread library and an external pager: a model of their code, and
-- what holds of it.
--
-- The server's parts, in the order in which a request passes through them:
-- - networking.cpp: handle_connection reads a header up to its null byte, has it parsed, receives
--   the data block of a write, has the request run, and sends the reply (Networking).
-- - parsing.cpp: split and parse_request turn the header into a request (Parsing, with Split and
--   Number below it); request.h prints one again (Request, Request/Decimal).
-- - filesystem.cpp: execute_request and the four requests, FS_READBLOCK and FS_WRITEBLOCK
--   (FileSystem/Blocks), FS_CREATE (FileSystem/Create) and FS_DELETE (FileSystem/Delete). Each first
--   walks the path with traverse_fs (FileSystem/Traverse). fs_init finds the blocks that are in use
--   at the start (FileSystem/Init).
-- - fs_server.h and fs_param.h: the structs on the disk, the disk's interface and the constants
--   (Disk, Params).
--
-- Beside it stands the thread library of thread_library/ (Threads): mutex.cpp and cv.cpp
-- (Threads/Locks), thread.cpp and the timer's handler (Threads/Life), the queues and CPUs of cpu.cpp
-- (Threads). Threads/Calls composes them: a run is a sequence of calls in any order.
--
-- The third program is the pager of pager_library/ (Pager), which keeps the virtual memory of processes
-- in a few pages of memory, a swap file and mapped files. Pager has vm_pager.h, Page.h and the global
-- variables; Pager/Ptes is updatePTEs of Page.cpp. The rest is vm_pager.cpp: the clock with
-- give_new_ppn, evict_and_replace and return_ppn_remove_from_clock (Pager/Clock), vm_fault with its
-- copy-on-write (Pager/Fault), translate_from_other_addr_space (Pager/Name), vm_map (Pager/Space), and
-- vm_init, vm_create, vm_switch and vm_destroy (Pager/Process). Pager/Calls composes the calls: a run is
-- vm_init and then any calls, with writes of the processes to memory and changes of the files between
-- them.
--
-- How the code is rendered:
-- - The state is a Store: the disk, and the list free_disk_blocks. An operation takes the store and
--   returns the new one with its outcome; a C++ optional is an Option.
-- - The disk and the bytes of a struct in a block belong to the environment. They are the fields of
--   the record Device, whose laws are what fs_server.h documents: a block is read as it was last
--   written, and a struct that was written is read back. Tests/Memory has such a device.
-- - Integers are natural numbers. Block numbers and sizes stay within the disk and the arrays, so
--   that no operation on them wraps; the parser's cut to 32 bits is written out. std::stoul is given
--   by its documented behaviour on 64-bit numbers.
-- - A char array is the list of its bytes, and a C string in it ends at the first 0. The storage of a
--   new inode is not initialised by the code: what it holds is the argument `junk`.
-- - Loops are structural recursion where they can be. The walk of fs_init has as fuel the number of
--   the disk's blocks and one more: the inodes on the way down are different blocks of the disk, so a
--   deeper walk meets a block twice or one beyond the disk, and either is a failed assert. Failed
--   asserts and the end of the fuel are different results (Checked), and FileSystem/Started/Path shows
--   that the fuel is enough.
-- - In the thread library, what stands between guard_lock and guard_unlock is one step; a thread is
--   its context's number with what it does when a CPU goes on with it, and a CPU that switches runs
--   the part of the next context that is still under the guard. Objects are named by numbers.
-- - In the pager a VirtualPage is an object with a number, and pointers to it are that number; a pointer
--   to a page table entry is a process and an index. Memory, the files and their reads and writes belong
--   to the infrastructure: they are the fields of the record Machine, with what vm_pager.h documents as
--   laws. Tests/MachineInMemory has such a machine. An assert that fails, or a null pointer that is
--   followed, sets the flag `aborted`. Where the code takes front() of an empty vector, the model has 0.
--   The pages of a process are a list, in the order in which they were mapped; the code walks them in
--   the order of its unordered_map. Two names may be one file's: file_of is what a name resolves to. A
--   write to a file succeeds, as vm_pager.h has it for a block that was read before.
-- - The clock's loop has fuel for one round and one step more; each turn clears a bit. The loop over a
--   file's name has the number of addresses below the arena's end as fuel; each turn goes one up.
-- - An exception that leaves parse_request is the result `thrown`.
--
-- FileSystem/Invariant says what holds between two requests, by a role for each block: the root, an
-- inode named by one entry, the content of an inode at one position, or unused. A store is sound when
-- its blocks can be given such roles. The invariant's children treat each kind of change to inodes and
-- entries as tables, apart from the disk; the modules under FileSystem/Sound are about the operations,
-- FileSystem/Isolation about the blocks that an operation may write, FileSystem/ReadBack about reading
-- what was written, FileSystem/Started about fs_init, and Networking/Safety about what a client sends.
-- Threads/Exclusion is about the holder of a mutex, with an observer that counts the calls of each
-- thread in Exclusion/Observed, Threads/Waking about the CPUs that are woken. Pager/Frames says who
-- has which physical page, with the clock's hand in Frames/Turn and Frames/Sweep, eviction in
-- Frames/Replace and Frames/Give, and the page table entries of a page that is evicted in
-- Frames/Disabled; Pager/Sound follows that through each call, Pager/Content is about the data of the
-- pages, in memory or on their blocks, and Pager/Grants about the page table entries.
--
-- The model leaves out: the locks, so that a request is one step; the sockets, of which only the
-- bytes that arrive are modelled, and what is handed to send, whose result the code ignores; the log
-- output; the boot of a CPU, and the memory, of the thread library; and of the pager assert_structure_consistency, which only checks, a
-- call of new that fails, and the end of a page that nothing points to. The code destroys such a page,
-- and the clock is then left with an expired pointer; the model keeps it, with its frame if it has one.
pub mod Common
pub mod Params
pub mod Disk
pub mod Request
pub mod Parsing
pub mod FileSystem
pub mod Tests
pub mod Networking
pub mod Threads
pub mod Pager
