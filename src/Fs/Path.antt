-- ===== src/Fs/Path.antt =====
-- path_parse and path_depth_cnt of workshop/fs/fs.c over a memory of bytes.
--
-- `pathname[0] = '/'` is an assignment, and its value is not 0; `(++ pathname) == '/'` compares an
-- address with 47.
pub mod Parse
pub mod Depth
mod Tests
use restore_the_operating_sy.Base.{ℕ, zero, suc, ◌+◌, ◌&&◌, ◌||◌, not, if◌then◌else◌, ◌==◌}
use restore_the_operating_sy.Base.Word.{null, u32, Outcome, ok, hang, ◌>>=◌, ◌>>◌, assert}
use restore_the_operating_sy.String.{Memory, write, memset}

abbrev pub slash : ℕ
slash = 47

-- The loop that copies a name; it gives the memory and the address where it stops.
unfoldable pub copy_name : ℕ → Memory → ℕ → ℕ → Outcome (Memory × ℕ)
copy_name zero m pathname name_store = hang
copy_name (suc fuel) m pathname name_store =
    let rest = copy_name fuel (write m name_store (m pathname)) (pathname + 1) (name_store + 1) in
    if (m pathname == slash) || (m pathname == 0) then ok (m, pathname) else rest

-- The loop in front of it, from behind the first character.
abbrev pub skip_slashes : ℕ → ℕ
skip_slashes pathname = if pathname == slash then pathname + 1 else pathname

unfoldable pub path_parse : ℕ → Memory → ℕ → ℕ → Outcome (Memory × ℕ)
path_parse fuel m pathname name_store = do
  (m', p) ← copy_name fuel (write m pathname slash) (skip_slashes (pathname + 1)) name_store
  ok (m', if m' p == 0 then null else p)

-- The loop of path_depth_cnt, with fuel for its rounds and for the copying in each.
unfoldable pub count_names : ℕ → ℕ → Memory → ℕ → ℕ → ℕ → Outcome ℕ
count_names zero fuel m p name depth = hang
count_names (suc rounds) fuel m p name depth =
    let round = (do
      m1 ← memset m name 0 16
      (m2, p2) ← if p == null then ok (m1, p) else path_parse fuel m1 p name
      count_names rounds fuel m2 p2 name (u32 (depth + 1))) in
    if m name == 0 then ok depth else round

-- `name` is the address of the local array of 16 bytes, whose first contents are those of the memory.
unfoldable pub path_depth_cnt : ℕ → ℕ → Memory → ℕ → ℕ → Outcome ℕ
path_depth_cnt rounds fuel m pathname name = do
  assert (not (pathname == null))
  (m1, p) ← path_parse fuel m pathname name
  count_names rounds fuel m1 p name 0
