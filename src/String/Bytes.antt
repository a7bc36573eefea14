-- ===== src/String/Bytes.antt =====
-- memset, memcpy and memcmp.
use restore_the_operating_sy.Base.{
  ap, ◌↔◌, [], ◌∷◌, List, mod-eq_of_lt, ℕ, zero, suc, ◌+◌, ◌-◌, ◌≡◌, ◌<◌, ◌≤◌, ◌≢◌, ◌⊎◌, inl, inr,
  refl, ◌&&◌, if◌then◌else◌, ◌==◌, leb, ltb, arith, Bool-cases, ne→==,
}
use restore_the_operating_sy.Base.Word.{null, ok, minus_one, Returns}
use restore_the_operating_sy.String.{
  memcmp, Memory, write, fill, memset, copy, memcpy, compare_bytes,
}

fill_lem :
    (m : Memory) (dst v size a : ℕ)
    → fill m dst v size a ≡ (if leb dst a && ltb a (dst + size) then v else m a)
unfolding fill
fill_lem m dst v zero a = ground arith
fill_lem m dst v (suc size) a = ground (arith, fill_lem (write m dst v) (dst + 1) v size a)

-- memset writes the byte at the `size` addresses from dst on, and nowhere else.
pub memset_lem :
    (m : Memory) (dst v size : ℕ)
    → dst ≢ null
    → v < 256
    → Returns
        (λ n. (a : ℕ) → n a ≡ (if leb dst a && ltb a (dst + size) then v else m a))
        (memset m dst v size)
unfolding memset
memset_lem m dst v size ne small =
    rw (ne→== dst null ne, mod-eq_of_lt small) (fill_lem m dst v size)

-- Forward copying is right where the regions do not overlap, or the target lies below the source.
copy_lem :
    (m : Memory) (dst src size a : ℕ)
    → (dst ≤ src) ⊎ (src + size ≤ dst)
    → copy m dst src size a ≡ (if leb dst a && ltb a (dst + size) then m (src + (a - dst)) else m a)
unfolding copy
copy_lem m dst src zero a h = ground arith
copy_lem m dst src (suc size) a h = elim (Bool-cases (leb (dst + 1) a && ltb a (dst + suc size))) [
  | inl e ↦
      let at : src + 1 + (a - (dst + 1)) ≡ src + (a - dst) = ground arith in
      let apart : src + (a - dst) ≢ dst = ground arith in
      ground (arith, at, apart, copy_lem (write m dst (m src)) (dst + 1) (src + 1) size a ahead)
  | inr e ↦
      let first : dst ≡ a → src + (a - dst) ≡ src = λ p. omega arith in
      ground (arith, first, copy_lem (write m dst (m src)) (dst + 1) (src + 1) size a ahead)
]
  where
    ahead : (dst + 1 ≤ src + 1) ⊎ (src + 1 + size ≤ dst + 1)
    ahead = omega arith

-- memcpy writes the bytes at src to dst and changes no other, unless dst lies within the source
-- behind its first byte.
pub memcpy_lem :
    (m : Memory) (dst src size : ℕ)
    → dst ≢ null
    → src ≢ null
    → (dst ≤ src) ⊎ (src + size ≤ dst)
    → Returns
        (λ n.
          (a : ℕ) → n a ≡ (if leb dst a && ltb a (dst + size) then m (src + (a - dst)) else m a))
        (memcpy m dst src size)
unfolding memcpy
memcpy_lem m dst src size nd ns h =
    rw (ne→== dst null nd, ne→== src null ns) (λ a. copy_lem m dst src size a h)

-- The bytes at `size` addresses.
abbrev pub block : Memory → ℕ → ℕ → List ℕ
block m a zero = []
block m a (suc size) = m a ∷ block m (a + 1) size

compare_bytes-eq-zero :
    (m : Memory) (a b size : ℕ) → compare_bytes m a b size ≡ 0 → block m a size ≡ block m b size
unfolding compare_bytes
compare_bytes-eq-zero m a b zero e = refl
compare_bytes-eq-zero m a b (suc size) e = elim (Bool-cases (m a == m b)) [
  | inl same ↦ ground (arith, compare_bytes-eq-zero m (a + 1) (b + 1) size (ground arith))
  | inr differ ↦ absurd (ground arith)
]

compare_bytes_self :
    (m : Memory) (a b size : ℕ) → block m a size ≡ block m b size → compare_bytes m a b size ≡ 0
unfolding compare_bytes
compare_bytes_self m a b zero e = refl
compare_bytes_self m a b (suc size) e =
    ground (arith, compare_bytes_self m (a + 1) (b + 1) size (cc))

compare_bytes_swap :
    (m : Memory) (a b size : ℕ)
    → ((i : ℕ) → m i < 256)
    → (compare_bytes m a b size ≡ 1) ↔ (compare_bytes m b a size ≡ minus_one)
unfolding compare_bytes
compare_bytes_swap m a b zero h = ground arith
compare_bytes_swap m a b (suc size) h =
    ground (arith, h a, h b, compare_bytes_swap m (a + 1) (b + 1) size h)

-- memcmp returns 0 exactly for equal blocks, and swapping the blocks exchanges 1 and -1.
pub memcmp_lem :
    (m : Memory) (a b size : ℕ)
    → a ≢ null
    → b ≢ null
    → ((i : ℕ) → m i < 256)
    → ((memcmp m a b size ≡ ok 0) ↔ (block m a size ≡ block m b size))
      × ((memcmp m a b size ≡ ok 1) ↔ (memcmp m b a size ≡ ok minus_one))
unfolding memcmp
memcmp_lem m a b size na nb h =
    let (to, back) = compare_bytes_swap m a b size h in
    rw (ne→== a null na, ne→== b null nb)
      (
        (λ e. compare_bytes-eq-zero m a b size (cc), λ e. ap ok (compare_bytes_self m a b size e)),
        (λ e. ap ok (to (cc)), λ e. ap ok (back (cc))),
      )
