-- ===== src/Tests/Witnesses.antt =====
-- The properties applied at inputs that meet their hypotheses.
use os_from_scratch.Common.{
  ap, if◌then◌else◌, not, ◌&&◌, true, ◌≤◌, ◌+◌, ◌⊎◌, length, All, ℕ, ◌≡◌, refl, inl, false, List,
  [], ◌∷◌, ◌++◌, none, some, get_elem?, codes, Bytes, same_name, bytes_eq, c_str, strcpy, arith,
  map, subst,
}
use os_from_scratch.Disk.{Store, used, names_file, owned_by}
use os_from_scratch.Request.{
  Request, FilePath, fs_create, fs_delete, request_string, path_to_string,
}
use os_from_scratch.Parsing.{accepted, thrown, parse_request}
use os_from_scratch.Parsing.Bounds.{Within, parse_request-Within}
use os_from_scratch.Parsing.RoundTrip.{IsPrintable, parse_request-request_string}
use os_from_scratch.Parsing.Split.{split}
use os_from_scratch.Parsing.Throws.{parse_request_empty_path}
use os_from_scratch.FileSystem.{execute_request}
use os_from_scratch.FileSystem.Traverse.{
  read_inode, read_direntries, traverse_fs, walk, find_name, find_entry,
}
use os_from_scratch.FileSystem.Blocks.{read_block, write_block}
use os_from_scratch.FileSystem.Create.{
  create, scan_blocks, scan_entries, fill_entry, new_direntries, new_inode, back, pop_back,
}
use os_from_scratch.FileSystem.Delete.{delete, find_found}
use os_from_scratch.FileSystem.Errors.{execute_request_error}
use os_from_scratch.FileSystem.Invariant.{Role, Inv, tables, IsSound, inode_at, target_at}
use os_from_scratch.FileSystem.Isolation.{execute_request_foreign}
use os_from_scratch.FileSystem.Isolation.Own.{IsForeign}
use os_from_scratch.FileSystem.ReadBack.{write_block-read_block}
use os_from_scratch.FileSystem.Started.{Starts, fs_init_lem}
use os_from_scratch.FileSystem.Sound.{Fits, execute_request-IsSound}
use os_from_scratch.FileSystem.Init.{
  done, visit_inode, visit_entry, free_after, initial_traverse_helper, fs_init, mark, mark_all,
  visit_blocks, visit_entries, unused_from, contains,
}
use os_from_scratch.Networking.{Recv, byte, read_header, receive_data, handle_connection}
use os_from_scratch.Networking.Safety.{handle_connection-IsSound, handle_connection_silent}
use os_from_scratch.Threads.{
  suspend_round, add_to_ready_queue, resumed, resume_as, switch, goes_on, Context, Kernel, Cpu,
  check_ready_and_wake,
}
use os_from_scratch.Threads.Life.{yield, yield_to, woken, construct_thread}
use os_from_scratch.Threads.Locks.{release_lock, lock}
use os_from_scratch.Threads.Calls.{
  perform, Call, constructs, is_woken, locks, yields, unlocks, performs, IsCaller,
}
use os_from_scratch.Threads.Exclusion.{heirs, Exclusive}
use os_from_scratch.Threads.Exclusion.Observed.{
  Asked, lets_go, observe, observes, queued, given, Accounted,
}
use os_from_scratch.Threads.Exclusion.Always.{performs-Exclusive}
use os_from_scratch.Threads.Waking.{times, is_idle, sleepers, check_ready_and_wake_lem}
use os_from_scratch.Tests.Memory.{
  MemoryBlock, data_block, memory, junk, junk-IsInode, to_inode, to_direntries, write, fit_inode,
  fit,
}
use os_from_scratch.Tests.Formatted.{formatted, formatted-IsSound}

abbrev user : Bytes
user = codes "u"

abbrev a_file : FilePath
a_file = codes "a" ∷ []

abbrev make_text_a : Request (Unit {0})
make_text_a = fs_create user a_file b'f'

abbrev make_a : Request MemoryBlock
make_a = fs_create user a_file b'f'

make_a-Fits : Fits make_a
unfolding back
make_a-Fits = (omega arith, omega arith, inl refl)

-- The store with the user's file.
unfoldable with_a : Store (ℕ → MemoryBlock)
with_a = (execute_request memory formatted junk make_a).0

with_a-IsSound : IsSound memory with_a
unfolding with_a
with_a-IsSound =
    execute_request-IsSound memory formatted junk make_a junk-IsInode make_a-Fits formatted-IsSound

unfoldable roles : ℕ → Role
roles = with_a-IsSound.0

root_block : get_elem? (used (read_inode memory with_a.disk 0)) 0 ≡ some 2
unfolding with_a execute_request create traverse_fs walk scan_blocks scan_entries fill_entry
    new_direntries new_inode back pop_back to_inode to_direntries write fit_inode fit strcpy
    formatted unused_from contains
root_block = refl

root_entry : target_at (read_direntries memory with_a.disk 2) 0 ≡ 1
unfolding with_a execute_request create traverse_fs walk scan_blocks scan_entries fill_entry
    new_direntries new_inode back pop_back to_inode to_direntries write fit_inode fit strcpy
    formatted unused_from contains
root_entry = refl

with_a-Inv : Inv (tables memory with_a) roles
unfolding roles
with_a-Inv = with_a-IsSound.1

file_role : roles 1 ≡ inode_at 2 0
file_role =
    subst (λ b. roles b ≡ inode_at 2 0) root_entry
      (with_a-Inv.entry_from 0 0 2 0
        (with_a-Inv.content_from 0 0 2 (ground (arith, with_a-Inv.root_role)) root_block)
        with_a-Inv.root_type (λ e. ground (arith, root_entry)))

file_owner : owned_by (codes "v") (read_inode memory with_a.disk 1) ≡ false
unfolding with_a owned_by same_name c_str bytes_eq execute_request create traverse_fs walk
    scan_blocks scan_entries fill_entry new_direntries new_inode back pop_back to_inode
    to_direntries write fit_inode fit strcpy formatted unused_from contains
file_owner = refl

file-IsForeign : IsForeign memory with_a roles (codes "v") 1 1
file-IsForeign = record {
  holds = ground (arith, file_role);
  not_root = λ e. ground arith;
  other = file_owner;
  part = inl refl;
}

written : (write_block memory with_a user a_file 0 (data_block user)).1 ≡ some none
unfolding write_block with_a owned_by names_file same_name c_str bytes_eq find_name find_entry
    execute_request create traverse_fs walk scan_blocks scan_entries fill_entry new_direntries
    new_inode back pop_back to_inode to_direntries write fit_inode fit strcpy formatted unused_from
    contains
written = refl

refused : (execute_request memory formatted junk (fs_delete user a_file)).1 ≡ none
unfolding delete same_name c_str bytes_eq find_name find_entry find_found execute_request create
    traverse_fs walk scan_blocks scan_entries fill_entry new_direntries new_inode back pop_back
    to_inode to_direntries write fit_inode fit strcpy formatted unused_from contains
refused = refl

unfoldable header : List Recv
header = map byte (codes "FS_DELETE u /a" ++ 0 ∷ [])

no_reply : (handle_connection memory formatted junk header none).sent ≡ []
unfolding header handle_connection read_header parse_request split receive_data delete same_name
    c_str bytes_eq find_name find_entry find_found execute_request create traverse_fs walk
    scan_blocks scan_entries fill_entry new_direntries new_inode back pop_back to_inode
    to_direntries write fit_inode fit strcpy formatted unused_from contains
no_reply = refl

-- The walk meets the root's block of entries and the file.
abbrev met : List ℕ
met = 1 ∷ 2 ∷ []

abbrev restarted : Store (ℕ → MemoryBlock)
restarted = record { disk = with_a.disk; free = unused_from 4095 1 met }

walked : initial_traverse_helper memory 4097 with_a.disk [] 0 ≡ done met
unfolding initial_traverse_helper mark mark_all visit_inode visit_blocks visit_entries visit_entry
    with_a execute_request create traverse_fs walk scan_blocks scan_entries fill_entry
    new_direntries new_inode back pop_back to_inode to_direntries write fit_inode fit strcpy
    formatted unused_from contains
walked = refl

restart : fs_init memory with_a.disk ≡ done restarted
unfolding fs_init free_after
restart = ap (free_after memory with_a.disk) walked

execute_request-IsSound_example : IsSound memory (execute_request memory formatted junk make_a).0
execute_request-IsSound_example =
    execute_request-IsSound memory formatted junk make_a junk-IsInode make_a-Fits formatted-IsSound

execute_request_foreign_example :
    (execute_request memory with_a junk (fs_delete (codes "v") a_file)).0.disk 1 ≡ with_a.disk 1
execute_request_foreign_example =
    execute_request_foreign memory with_a roles junk (fs_delete (codes "v") a_file) 1 1 with_a-Inv
      file-IsForeign

write_block-read_block_example :
    read_block memory (write_block memory with_a user a_file 0 (data_block user)).0 user a_file 0
    ≡ some (some (data_block user))
write_block-read_block_example =
    write_block-read_block memory with_a roles with_a-Inv user a_file 0 (data_block user) written

execute_request_error_example :
    (execute_request memory formatted junk (fs_delete user a_file)).0 ≡ formatted
execute_request_error_example =
    execute_request_error memory formatted junk (fs_delete user a_file) refused

handle_connection-IsSound_example :
    IsSound memory (handle_connection memory formatted junk header none).store
handle_connection-IsSound_example =
    handle_connection-IsSound memory formatted junk junk-IsInode formatted-IsSound header none

handle_connection_silent_example :
    (handle_connection memory formatted junk header none).store ≡ formatted
handle_connection_silent_example =
    handle_connection_silent memory formatted junk header none no_reply

make_text : parse_request (codes "FS_CREATE u /a f") ≡ accepted make_text_a
unfolding parse_request split bytes_eq
make_text = refl

parse_request-Within_example : Within make_text_a
parse_request-Within_example = parse_request-Within (codes "FS_CREATE u /a f") make_text

make_text_a-IsPrintable : IsPrintable make_text_a
unfolding path_to_string
make_text_a-IsPrintable = (
  omega arith,
  omega arith,
  record {
    names = (((omega arith, omega arith), omega arith), tt);
    last = omega arith;
    short = omega arith;
  },
  inl refl,
)

parse_request-request_string_example :
    parse_request (request_string make_text_a) ≡ accepted make_text_a
parse_request-request_string_example =
    parse_request-request_string make_text_a make_text_a-IsPrintable

parse_request_empty_path_example :
    parse_request (codes "X" ++ b' ' ∷ (codes "u" ++ b' ' ∷ (b' ' ∷ []))) ≡ thrown
parse_request_empty_path_example =
    parse_request_empty_path (codes "X") (codes "u") [] (omega arith) (omega arith) (omega arith)

-- Two CPUs that sleep, and no thread yet.
abbrev booted : Kernel
booted = record {
  ready_queue = [];
  idle = true ∷ true ∷ [];
  interrupts = [];
  mutexes = λ _. record { waiting_queue = []; owner = 0; free = true };
  cvs = λ _. [];
  infos = λ _. record { join_waiting_queue = []; alive = false };
  max_id = 1;
}

booted-Exclusive : Exclusive booted
unfolding heirs
booted-Exclusive = record {
  when_free = λ m f. (refl, refl, refl);
  when_held = λ m f. absurd (ground arith);
  waiting = λ m. tt;
  in_cv = λ c. tt;
  joining = λ i. tt;
  threads = tt;
  next_id = omega arith;
}

abbrev first_cpu : Cpu
first_cpu = record { cpu_num = 0; last_context = none; to_kill = none }

abbrev thread : ℕ → Context
thread id = record { id = id; resume = goes_on }

-- Two threads start; one locks the mutex, the other waits for it, and it is handed over.
abbrev contended : List Call
contended =
    constructs 0
    ∷ constructs 1
    ∷ is_woken first_cpu
    ∷ locks first_cpu (thread 1) 0
    ∷ yields first_cpu (thread 1)
    ∷ locks first_cpu (thread 2) 0
    ∷ unlocks (thread 1) 0
    ∷ yields first_cpu (thread 1)
    ∷ []

callers : All IsCaller contended
callers =
    (tt, (tt, (tt, (omega arith, (omega arith, (omega arith, (omega arith, (omega arith, tt))))))))

abbrev nobody_asked : Asked
nobody_asked m i = 0

booted-Accounted : Accounted booted nobody_asked
unfolding queued given
booted-Accounted m i n = ground (arith, n)

performs-Exclusive_example :
    ((observes booted nobody_asked contended 0 1
        ≡ queued 1 ((performs booted contended).mutexes 0).waiting_queue)
      ⊎ (observes booted nobody_asked contended 0 2
          ≡ queued 2 ((performs booted contended).mutexes 0).waiting_queue))
    × Exclusive (performs booted contended)
    × Accounted (performs booted contended) (observes booted nobody_asked contended)
performs-Exclusive_example =
    performs-Exclusive booted nobody_asked contended 0 1 2 booted-Exclusive booted-Accounted callers
      (omega arith) (omega arith) (omega arith)

-- The second thread was handed the mutex and is inside; the first is not.
observed :
    (observes booted nobody_asked contended 0 1 ≡ 0)
    × (observes booted nobody_asked contended 0 2 ≡ 1)
unfolding observes observe lets_go performs perform release_lock lock yield yield_to woken
    suspend_round construct_thread add_to_ready_queue check_ready_and_wake resumed resume_as switch
observed = (refl, refl)

abbrev two_ready : Kernel
two_ready = record booted { ready_queue = thread 1 ∷ thread 2 ∷ [] }

check_ready_and_wake_lem_example :
    ((i : ℕ)
      → (times i (check_ready_and_wake two_ready).interrupts
          ≡ times i two_ready.interrupts
            + (if is_idle 0 two_ready.idle i
                  && not (is_idle 0 (check_ready_and_wake two_ready).idle i)
                then 1
                else 0))
        × (is_idle 0 (check_ready_and_wake two_ready).idle i ≡ true
            → is_idle 0 two_ready.idle i ≡ true))
    × (sleepers (check_ready_and_wake two_ready).idle
          + length (check_ready_and_wake two_ready).interrupts
        ≡ sleepers two_ready.idle + length two_ready.interrupts)
    × (length (check_ready_and_wake two_ready).interrupts
        ≤ length two_ready.interrupts + length two_ready.ready_queue)
    × ((sleepers (check_ready_and_wake two_ready).idle ≡ 0)
        ⊎ (length (check_ready_and_wake two_ready).interrupts
            ≡ length two_ready.interrupts + length two_ready.ready_queue))
    × (check_ready_and_wake two_ready ≡ record two_ready {
      idle = (check_ready_and_wake two_ready).idle;
      interrupts = (check_ready_and_wake two_ready).interrupts;
    })
check_ready_and_wake_lem_example = check_ready_and_wake_lem two_ready

fs_init_lem_example : Starts memory with_a.disk (fs_init memory with_a.disk)
fs_init_lem_example = fs_init_lem memory with_a.disk
