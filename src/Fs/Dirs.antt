-- ===== src/Fs/Dirs.antt =====
-- Directories: workshop/fs/dir.c over the blocks of the drive.
--
-- A directory entry takes 24 bytes: 16 for the name, the inode's number and the type, words with the
-- lowest byte first. Entries are kept as their bytes. sys_malloc clears the buffers that it gives;
-- where the code tests for a NULL pointer, whether there is memory is an argument. The messages are
-- left out.
use restore_the_operating_sy.Base.Word.{◌>>◌, assert, ◌>>=◌, ok, Outcome}
pub mod Names
pub mod Search
pub mod Insert
pub mod Delete
pub mod Listing
pub mod Entered
pub mod RoundTrip
pub mod Order
mod Tests
use restore_the_operating_sy.Base.{
  ◌/◌, true, false, some, none, ◌%◌, suc, ◌&&◌, ◌-◌, ◌+◌, leb, not, Option, ◌^◌, ◌==◌, ltb, ◌*◌,
  if◌then◌else◌, Bool, ℕ, zero,
}
use restore_the_operating_sy.Disk.{Drive, Buffer, ide_read}
use restore_the_operating_sy.String.{Memory, strcmp, strlen}
use restore_the_operating_sy.Fs.{Inode, FileSystem, update}
use restore_the_operating_sy.Fs.Inodes.{load_word, byte_of_word, inode_open, inode_close}

abbrev pub max_file_name_len : ℕ
max_file_name_len = 16

abbrev pub sizeof_dir_entry : ℕ
sizeof_dir_entry = 24

-- `struct dir`, with the address of its inode.
pub record Dir : Type 0 where
  pub inode : ℕ
  pub dir_pos : ℕ
  pub dir_buf : Buffer

-- The bytes of `p_de + idx`, with p_de at the front of the buffer, and the fields of an entry.
abbrev pub entry_at : Buffer → ℕ → Buffer
entry_at buf idx i = buf (idx * sizeof_dir_entry + i)

abbrev pub entry_no : Buffer → ℕ
entry_no de = load_word de 16

abbrev pub entry_type : Buffer → ℕ
entry_type de = load_word de 20

unfoldable pub dir_open : FileSystem → ℕ → ℕ → Outcome (FileSystem × Dir)
dir_open fs inode_no addr =
    inode_open fs inode_no addr
    >>= (λ (fs1, a). ok (fs1, record { inode = a; dir_pos = 0; dir_buf = λ _. 0 }))

-- What open_root_dir makes of root_dir.
unfoldable pub open_root_dir : FileSystem → ℕ → Outcome (FileSystem × Dir)
open_root_dir fs addr = dir_open fs fs.cur_part.sb.root_inode_no addr

-- The root directory is never closed.
unfoldable pub dir_close : FileSystem → Bool → Dir → FileSystem
dir_close fs is_root dir = if is_root then fs else inode_close fs dir.inode

-- The direct blocks of an inode, the others being 0.
abbrev pub direct_blocks : Inode → ℕ → ℕ
direct_blocks n i = if ltb i 12 then n.i_sectors i else 0

-- all_blocks: the direct blocks and, if the inode has one, the table of the indirect blocks.
unfoldable pub dir_blocks : Drive → Inode → Outcome (ℕ → ℕ)
dir_blocks hd n =
    if n.i_sectors 12 == 0
    then ok (direct_blocks n)
    else ide_read hd (n.i_sectors 12) (λ _. 0) 1
      >>= (λ table. ok (λ i. if ltb i 12 then n.i_sectors i else load_word table ((i - 12) * 4)))

-- Two objects in memory, one at 1 and one at 2 ^ 20.
abbrev pub side_by_side : Buffer → Buffer → Memory
side_by_side low high a = if ltb a (2 ^ 20) then low (a - 1) else high (a - 2 ^ 20)

-- `!strcmp(de->filename, name)`, with the fuel of strcmp.
unfoldable pub same_name : ℕ → Buffer → Buffer → Outcome Bool
same_name fuel de name = strcmp fuel (side_by_side name de) (2 ^ 20) 1 >>= (λ r. ok (r == 0))

-- The loop of search_dir_entry over the entries of a sector, with `left` to go from idx on.
unfoldable pub find_name : ℕ → Buffer → Buffer → ℕ → ℕ → Outcome (Option ℕ)
find_name fuel name buf zero idx = ok none
find_name fuel name buf (suc left) idx = same_name fuel (entry_at buf idx) name >>= (λ found.
    elim found [ true ↦ ok (some idx) | false ↦ find_name fuel name buf left (idx + 1) ])

-- memcpy of the entry that was found to dir_e.
abbrev pub entry_or :
    ℕ → Buffer → Buffer → Option ℕ → Outcome (Bool × Buffer) → Outcome (Bool × Buffer)
entry_or size dir_e sector none rest = rest
entry_or size dir_e sector (some idx) rest =
    ok (true, λ i. if ltb i size then entry_at sector idx i else dir_e i)

-- The loop over the blocks, with the buffer as the round before left it, and what it stores in dir_e.
unfoldable pub search_blocks :
    ℕ → Drive → (ℕ → ℕ) → ℕ → Buffer → Buffer → ℕ → ℕ → Buffer → Outcome (Bool × Buffer)
search_blocks fuel hd all_blocks size name dir_e zero block_idx buf = ok (false, dir_e)
search_blocks fuel hd all_blocks size name dir_e (suc left) block_idx buf =
    let next =
      λ (b : Buffer). search_blocks fuel hd all_blocks size name dir_e left (block_idx + 1) b in
    let look = (do
      sector ← ide_read hd (all_blocks block_idx) buf 1
      found ← find_name fuel name sector (512 / size) 0
      entry_or size dir_e sector found (next (λ i. if ltb i 512 then 0 else sector i))) in
    if all_blocks block_idx == 0 then next buf else look

-- `got` says whether sys_malloc gave the memory for all_blocks.
unfoldable pub search_dir_entry :
    ℕ → FileSystem → Dir → Bool → Buffer → Buffer → Outcome (Bool × Buffer)
search_dir_entry fuel fs pdir got name dir_e =
    let n = fs.inode pdir.inode in
    if not got
    then ok (false, dir_e)
    else dir_blocks fs.my_disk n >>= (λ all_blocks.
      search_blocks fuel fs.my_disk all_blocks fs.cur_part.sb.dir_entry_size name dir_e 140 0
        (λ _. 0))

-- The bytes of a word at `at` of a buffer.
abbrev pub store_word : ℕ → ℕ → Buffer → Buffer
store_word w at buf i = if leb at i && ltb i (at + 4) then byte_of_word w (i - at) else buf i

-- create_dir_entry: no more of the name is stored than its characters.
unfoldable pub create_dir_entry : ℕ → Buffer → ℕ → ℕ → Buffer → Outcome Buffer
create_dir_entry fuel filename inode_no file_type p_de =
    strlen fuel (side_by_side filename p_de) 1 >>= (λ n.
      assert (leb n max_file_name_len)
      >> ok (
          store_word (file_type % 256) 20
            (store_word inode_no 16 (λ i. if ltb i n then filename i else p_de i))))

unfoldable pub dir_is_empty : FileSystem → Dir → Bool
dir_is_empty fs dir = (fs.inode dir.inode).i_size == fs.cur_part.sb.dir_entry_size * 2
