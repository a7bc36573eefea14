-- ===== src/Memory/Range.antt =====
-- Runs of virtual pages: the loops that mark them, and vaddr_get and vaddr_remove.
use restore_the_operating_sy.Base.{
  subst, ℕ, zero, suc, ◌+◌, ◌*◌, ◌/◌, ◌^◌, ◌<◌, ◌≡◌, ◌≢◌, refl, sym, ap, ◌∙◌, false, if◌then◌else◌,
  ◌==◌, arith, ne→==, leb, ltb, ◌&&◌,
}
use restore_the_operating_sy.Base.Word.{
  u32, sub_u32, minus_one, Outcome, ok, panic, hang, ◌>>=◌, Returns, Returns-bind, Returns-mono,
}
use restore_the_operating_sy.Bitmap.{Bitmap, bitmap_scan, bitmap_set}
use restore_the_operating_sy.Bitmap.Set.{is_used, IsBytes, bitmap_set-IsUpdate}
use restore_the_operating_sy.Memory.{pg_size, VirtualAddr, set_range, vaddr_take, vaddr_drop}

-- `c` is `b` with `cnt` bits from `start` on set or cleared.
pub record IsRange (b : Bitmap) (start cnt v : ℕ) (c : Bitmap) : Type 0 where
  pub bytes : IsBytes c
  pub len : c.btmp_bytes_len ≡ b.btmp_bytes_len
  pub bit :
      (j : ℕ) → is_used c j ≡ (if leb start j && ltb j (start + cnt) then v == 1 else is_used b j)

-- The marking loop changes the bits of the range and no other.
pub set_range-IsRange :
    (b : Bitmap) (start cnt v : ℕ)
    → IsBytes b
    → v < 2
    → start + cnt < 2 ^ 32
    → Returns (IsRange b start cnt v) (set_range b start cnt v)
unfolding set_range
set_range-IsRange b start zero v h two small = record {
  bytes = h;
  len = refl;
  bit = λ j. ground arith;
}
set_range-IsRange b start (suc cnt) v h two small =
    let up : u32 (start + 1) ≡ start + 1 = omega arith in
    rw up (
      Returns-bind (IsRange b start (suc cnt) v) (bitmap_set b start v)
        (λ (c : Bitmap). set_range c (start + 1) cnt v) (bitmap_set-IsUpdate b start v h two)
        λ c u.
          Returns-mono (IsRange b start (suc cnt) v) (set_range c (start + 1) cnt v)
            (set_range-IsRange c (start + 1) cnt v u.bytes two (omega arith))
            λ d r. record {
              bytes = r.bytes;
              len = r.len ∙ u.len;
              bit = λ j. ground (arith, r.bit j, u.bit j);
            })

-- The result of marking `cnt` pages from page r on.
record IsTakenRun (v : VirtualAddr) (r cnt : ℕ) (w : VirtualAddr) (a : ℕ) : Type 0 where
  range : IsRange v.vaddr_bitmap r cnt 1 w.vaddr_bitmap
  address : a ≡ u32 (v.vaddr_start + r * pg_size)
  start : w.vaddr_start ≡ v.vaddr_start

abbrev finish : VirtualAddr → ℕ → Bitmap → Outcome (VirtualAddr × ℕ)
finish v r b = ok (record v { vaddr_bitmap = b }, u32 (v.vaddr_start + r * pg_size))

taken :
    (v : VirtualAddr) (r cnt : ℕ) (w : VirtualAddr) (a : ℕ) (o : Outcome Bitmap)
    → Returns (IsRange v.vaddr_bitmap r cnt 1) o
    → (o >>= finish v r) ≡ ok (w, a)
    → IsTakenRun v r cnt w a
taken v r cnt w a (ok b) h e =
    let same : record v { vaddr_bitmap = b } ≡ w = cc in
    record {
      range = subst (λ (x : VirtualAddr). IsRange v.vaddr_bitmap r cnt 1 x.vaddr_bitmap) same h;
      address = cc;
      start = ap (λ (x : VirtualAddr). x.vaddr_start) (sym same);
    }
taken v r cnt w a panic h e = absurd h
taken v r cnt w a hang h e = absurd h

take-IsTakenRun :
    (v : VirtualAddr) (r cnt : ℕ) (w : VirtualAddr) (a : ℕ)
    → IsBytes v.vaddr_bitmap
    → bitmap_scan v.vaddr_bitmap cnt ≡ ok r
    → r ≢ minus_one
    → r + cnt < 2 ^ 32
    → vaddr_take v cnt ≡ ok (w, a)
    → IsTakenRun v r cnt w a
unfolding vaddr_take
take-IsTakenRun v r cnt w a h e ne fits t =
    taken v r cnt w a (set_range v.vaddr_bitmap r cnt 1)
      (set_range-IsRange v.vaddr_bitmap r cnt 1 h (omega arith) fits)
      (rw (e, ne→== r minus_one ne) at t)

-- vaddr_drop, the branches of vaddr_remove, of the run that vaddr_take, the branches of vaddr_get,
-- handed out clears the bits of that run and no other, whatever was marked of it before, where the
-- run lies in the address space.
pub vaddr_drop-vaddr_take :
    (v : VirtualAddr) (r cnt : ℕ) (w : VirtualAddr) (a : ℕ)
    → IsBytes v.vaddr_bitmap
    → bitmap_scan v.vaddr_bitmap cnt ≡ ok r
    → r ≢ minus_one
    → v.vaddr_start + (r + cnt) * 4096 < 2 ^ 32
    → vaddr_take v cnt ≡ ok (w, a)
    → (a ≡ v.vaddr_start + r * 4096)
      × Returns
          (λ x.
            (j : ℕ)
            → is_used x.vaddr_bitmap j
              ≡ (if leb r j && ltb j (r + cnt) then false else is_used v.vaddr_bitmap j))
          (vaddr_drop w a cnt)
unfolding vaddr_drop
vaddr_drop-vaddr_take v r cnt w a h e ne fits t =
    let run = take-IsTakenRun v r cnt w a h e ne (omega arith) t in
    let at : a ≡ v.vaddr_start + r * 4096 = omega (arith, run.address) in
    let index : sub_u32 a w.vaddr_start / pg_size ≡ r = omega (arith, run.start) in
    (
      at,
      rw index (
          Returns-bind
            (λ (x : VirtualAddr).
              (j : ℕ)
              → is_used x.vaddr_bitmap j
                ≡ (if leb r j && ltb j (r + cnt) then false else is_used v.vaddr_bitmap j))
            (set_range w.vaddr_bitmap r cnt 0) (λ (b : Bitmap). ok (record w { vaddr_bitmap = b }))
            (set_range-IsRange w.vaddr_bitmap r cnt 0 run.range.bytes (omega arith) (omega arith))
            λ b u j. ground (arith, u.bit j, run.range.bit j)),
    )
