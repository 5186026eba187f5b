-- ===== src/FileSystem/Sound/New.antt =====
-- The inode that FS_CREATE makes.
use os_from_scratch.Common.{
  ℕ, ◌≤◌, ◌≡◌, ◌⊎◌, refl, none, get_elem?, length, Bytes, arith, length-strcpy,
}
use os_from_scratch.Params.{fs_maxusername}
use os_from_scratch.Disk.{Inode, IsInode, used}
use os_from_scratch.FileSystem.Create.{new_inode}

-- An inode as FS_CREATE makes it.
pub record IsNew (i : Inode) : Type 0 where
  pub shape : IsInode i
  pub size_is : i.size ≡ 0
  pub type_is : (i.type ≡ b'f') ⊎ (i.type ≡ b'd')

pub new_inode-IsNew :
    (junk : Inode) (type : ℕ) (username : Bytes)
    → IsInode junk
    → length username ≤ fs_maxusername
    → (type ≡ b'f') ⊎ (type ≡ b'd')
    → IsNew (new_inode junk type username)
unfolding new_inode
new_inode-IsNew junk type username j h t = record {
  shape = record {
    owner_length =
        omega (
          arith,
          j.owner_length,
          length-strcpy junk.owner username (omega (arith, j.owner_length)),
        );
    blocks_length = j.blocks_length;
  };
  size_is = refl;
  type_is = t;
}

pub used_empty : (i : Inode) (k : ℕ) → i.size ≡ 0 → get_elem? (used i) k ≡ none
used_empty i k h = rw h
