-- ===== src/Tests/FileSystemRuns.antt =====
-- Requests on the disk in memory.
use os_from_scratch.Common.{
  ℕ, ◌≡◌, refl, List, [], ◌∷◌, none, some, codes, same_name, c_str, bytes_eq, strcpy,
}
use os_from_scratch.Disk.{Store, names_file, owned_by}
use os_from_scratch.Request.{Request, FilePath, fs_readblock, fs_writeblock, fs_create, fs_delete}
use os_from_scratch.FileSystem.{execute_request}
use os_from_scratch.FileSystem.Blocks.{Outcome, read_block, write_block}
use os_from_scratch.FileSystem.Traverse.{traverse_fs, walk, find_name, find_entry}
use os_from_scratch.FileSystem.Create.{
  create, scan_blocks, scan_entries, fill_entry, new_direntries, new_inode, back, pop_back,
}
use os_from_scratch.FileSystem.Delete.{
  delete, find_found, find_slot, only_target, clear_entry, drop_block, data_blocks,
}
use os_from_scratch.Tests.Memory.{
  junk, MemoryBlock, data_block, memory, empty_disk, to_inode, to_direntries, write,
}

-- The outcomes of a sequence of requests.
run : Store (ℕ → MemoryBlock) → List (Request MemoryBlock) → List (Outcome memory) × List ℕ
unfolding execute_request read_block write_block create delete traverse_fs walk find_name find_entry
    names_file owned_by same_name c_str bytes_eq strcpy scan_blocks scan_entries fill_entry
    new_direntries new_inode back pop_back find_found find_slot only_target clear_entry drop_block
    data_blocks to_inode to_direntries write
run s [] = ([], s.free)
run s (r ∷ rs) =
    let (s', o) = execute_request memory s junk r in let (os, free) = run s' rs in (o ∷ os, free)

abbrev start : Store (ℕ → MemoryBlock)
start = record { disk = empty_disk; free = 1 ∷ 2 ∷ 3 ∷ 4 ∷ 5 ∷ [] }

abbrev hello : FilePath
hello = codes "a" ∷ codes "f" ∷ []

abbrev done : Outcome memory
done = some none

-- A directory and a file in it are made, written to, read and deleted.
session : List (Request MemoryBlock)
session =
    fs_create (codes "u") (codes "a" ∷ []) b'd'
    ∷ fs_create (codes "u") hello b'f'
    ∷ fs_create (codes "u") hello b'f'
    ∷ fs_writeblock (codes "u") hello 0 (data_block (codes "x"))
    ∷ fs_readblock (codes "u") hello 0
    ∷ fs_readblock (codes "v") hello 0
    ∷ fs_delete (codes "u") (codes "a" ∷ [])
    ∷ fs_delete (codes "u") hello
    ∷ fs_delete (codes "u") (codes "a" ∷ [])
    ∷ []

session_outcomes : run start session ≡ (
  done ∷ done ∷ none ∷ done ∷ some (some (data_block (codes "x"))) ∷ none ∷ none ∷ done ∷ done ∷ [],
  4 ∷ 5 ∷ 3 ∷ 2 ∷ 1 ∷ [],
)
unfolding run session
session_outcomes = refl
