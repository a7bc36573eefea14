-- ===== src/String.antt =====
-- workshop/lib/string.c over a byte-addressed memory.
--
-- A loop that stops at a zero byte takes fuel, the number of bytes that it may look at. `char` is
-- signed, as gcc for i386 has it. An int result is its 32-bit pattern.
pub mod Spec
pub mod Bytes
pub mod Length
pub mod Find
pub mod Copy
pub mod Compare
mod Tests
use restore_the_operating_sy.Base.{
  ℕ, zero, suc, ◌+◌, ◌-◌, ◌%◌, Bool, true, false, not, ◌&&◌, ◌||◌, if◌then◌else◌, ◌==◌, ltb,
}
use restore_the_operating_sy.Base.Word.{
  null, u32, minus_one, Outcome, ok, panic, hang, ◌>>=◌, ◌>>◌, assert,
}

-- The byte at each address.
abbrev pub Memory : Type 0
Memory = ℕ → ℕ

abbrev pub write : Memory → ℕ → ℕ → Memory
write m a v i = if i == a then v else m i

-- a < b for the signed chars with the bytes a and b.
abbrev pub char_lt : ℕ → ℕ → Bool
char_lt a b = ltb ((a + 128) % 256) ((b + 128) % 256)

-- `c == ch` for a signed char with the byte c and a uint8_t ch: a char from 0x80 on is negative.
abbrev pub char_is : ℕ → ℕ → Bool
char_is c ch = (c == ch) && ltb c 128

unfoldable pub fill : Memory → ℕ → ℕ → ℕ → Memory
fill m dst value zero = m
fill m dst value (suc size) = fill (write m dst value) (dst + 1) value size

unfoldable pub memset : Memory → ℕ → ℕ → ℕ → Outcome Memory
memset m dst value size = do assert (not (dst == null)); ok (fill m dst (value % 256) size)

unfoldable pub copy : Memory → ℕ → ℕ → ℕ → Memory
copy m dst src zero = m
copy m dst src (suc size) = copy (write m dst (m src)) (dst + 1) (src + 1) size

unfoldable pub memcpy : Memory → ℕ → ℕ → ℕ → Outcome Memory
memcpy m dst src size = do assert (not (dst == null) && not (src == null)); ok (copy m dst src size)

unfoldable pub compare_bytes : Memory → ℕ → ℕ → ℕ → ℕ
compare_bytes m a b zero = 0
compare_bytes m a b (suc size) =
    let rest = compare_bytes m (a + 1) (b + 1) size in
    if m a == m b then rest else if char_lt (m b) (m a) then 1 else minus_one

unfoldable pub memcmp : Memory → ℕ → ℕ → ℕ → Outcome ℕ
memcmp m a b size = do assert (not (a == null) && not (b == null)); ok (compare_bytes m a b size)

-- The loop of strcpy, and the second of strcat: the terminating zero is copied too.
unfoldable pub copy_string : ℕ → Memory → ℕ → ℕ → Outcome Memory
copy_string zero m dst src = hang
copy_string (suc fuel) m dst src =
    let m' = write m dst (m src) in
    let rest = copy_string fuel m' (dst + 1) (src + 1) in if m src == 0 then ok m' else rest

-- The address returned is dst.
unfoldable pub strcpy : ℕ → Memory → ℕ → ℕ → Outcome (Memory × ℕ)
strcpy fuel m dst src = do
  assert (not (dst == null) && not (src == null))
  m' ← copy_string fuel m dst src
  ok (m', dst)

-- `while (*p ++);`: the address behind the zero.
unfoldable pub past_zero : ℕ → Memory → ℕ → Outcome ℕ
past_zero zero m p = hang
past_zero (suc fuel) m p =
    let rest = past_zero fuel m (p + 1) in if m p == 0 then ok (p + 1) else rest

unfoldable pub strlen : ℕ → Memory → ℕ → Outcome ℕ
strlen fuel m str = do assert (not (str == null)); p ← past_zero fuel m str; ok (p - str - 1)

unfoldable pub compare_strings : ℕ → Memory → ℕ → ℕ → Outcome ℕ
compare_strings zero m a b = hang
compare_strings (suc fuel) m a b =
    let rest = compare_strings fuel m (a + 1) (b + 1) in
    if not (m a == 0) && (m a == m b)
    then rest
    else ok (if char_lt (m a) (m b) then minus_one else if char_lt (m b) (m a) then 1 else 0)

unfoldable pub strcmp : ℕ → Memory → ℕ → ℕ → Outcome ℕ
strcmp fuel m a b = do assert (not (a == null) && not (b == null)); compare_strings fuel m a b

unfoldable pub find_char : ℕ → Memory → ℕ → ℕ → Outcome ℕ
find_char zero m str ch = hang
find_char (suc fuel) m str ch =
    let rest = find_char fuel m (str + 1) ch in
    if m str == 0 then ok null else if char_is (m str) ch then ok str else rest

unfoldable pub strchr : ℕ → Memory → ℕ → ℕ → Outcome ℕ
strchr fuel m str ch = do assert (not (str == null)); find_char fuel m str (ch % 256)

unfoldable pub find_last_char : ℕ → Memory → ℕ → ℕ → ℕ → Outcome ℕ
find_last_char zero m str ch last_char = hang
find_last_char (suc fuel) m str ch last_char =
    let rest = find_last_char fuel m (str + 1) ch (if char_is (m str) ch then str else last_char) in
    if m str == 0 then ok last_char else rest

unfoldable pub strrchr : ℕ → Memory → ℕ → ℕ → Outcome ℕ
strrchr fuel m str ch = do assert (not (str == null)); find_last_char fuel m str (ch % 256) null

-- The address returned is dst.
unfoldable pub strcat : ℕ → Memory → ℕ → ℕ → Outcome (Memory × ℕ)
strcat fuel m dst src = do
  assert (not (dst == null) && not (src == null))
  past ← past_zero fuel m dst
  m' ← copy_string fuel m (past - 1) src
  ok (m', dst)

unfoldable pub count_char : ℕ → Memory → ℕ → ℕ → ℕ → Outcome ℕ
count_char zero m p ch ch_cnt = hang
count_char (suc fuel) m p ch ch_cnt =
    let rest =
      count_char fuel m (p + 1) ch (if char_is (m p) ch then u32 (ch_cnt + 1) else ch_cnt) in
    if m p == 0 then ok ch_cnt else rest

unfoldable pub strchrs : ℕ → Memory → ℕ → ℕ → Outcome ℕ
strchrs fuel m str ch = do assert (not (str == null)); count_char fuel m str (ch % 256) 0
