-- ===== src/Format/Print.antt =====
-- vsprintf's loop prints the pieces of its format one behind the other.
use restore_the_operating_sy.Base.Word.{Returns-mono, Returns-bind, Returns}
use restore_the_operating_sy.Base.{
  sym, subst, false, length, ◌==◌, ltb, Bool-cases, [], ◌∷◌, List, ne→==, refl, eq→==, inr, ◌-◌,
  inl, ◌⊎◌, ◌∙◌, ◌^◌, arith, ◌%◌, ◌<◌, ◌+◌, ◌≤◌, ◌≡◌, ℕ, zero, suc,
}
use restore_the_operating_sy.Format.{
  itoa, Cursor, percent, minus, max_digits, print_signed, format_step, format_loop,
}
use restore_the_operating_sy.Format.Digits.{itoa-Printed}
use restore_the_operating_sy.String.{Memory, write}
use restore_the_operating_sy.Format.Pieces.{
  Piece, plain, byte, hex, dec, width, uses, total, PieceAt, FormatAt, Shown, AllShown, Shown-Agree,
  FormatAt-Agree,
}

eq_write : (m : Memory) (a x : ℕ) → write m a x a ≡ x
eq_write m a x = rw (eq→== a a refl) refl

print_signed-Shown :
    (m : Memory) (pos v : ℕ)
    → v < 2 ^ 32
    → Returns
        (λ r.
          Shown r.0 pos v r.1 dec × (pos ≤ r.1) × ((a : ℕ) → (a < pos) ⊎ (r.1 ≤ a) → r.0 a ≡ m a))
        (print_signed m pos v)
unfolding print_signed
print_signed-Shown m pos v small = elim (Bool-cases (ltb v (2 ^ 31))) [
  | inl e ↦ rw e (
      Returns-mono _ (itoa max_digits m v pos 10)
        (itoa-Printed max_digits m v pos 10 (omega arith) (omega arith) (omega arith) (omega arith))
        λ r (n, end, some_digit, few, number, leading, same).
          (inl (ground arith, n, some_digit, end, number), omega (arith, end), same))
  | inr e ↦
      let m1 = write m pos minus in
      rw e (
        Returns-mono _ (itoa max_digits m1 (2 ^ 32 - v) (pos + 1) 10)
          (itoa-Printed max_digits m1 (2 ^ 32 - v) (pos + 1) 10 (omega arith) (omega arith)
            (omega arith) (omega arith))
          λ r (n, end, some_digit, few, number, leading, same). (
            inr (
              ground arith,
              same pos (inl (omega arith)) ∙ eq_write m pos minus,
              n,
              some_digit,
              end,
              number,
            ),
            omega (arith, end),
            λ a out. same a (omega (arith, out)) ∙ ground (arith, out, end),
          ))
]

-- What one round leaves for the piece at its place in the format.
record Advanced (s : Cursor) (v : ℕ) (x : Piece) (t : Cursor) : Type 0 where
  shown : Shown t.mem s.buf_ptr v t.buf_ptr x
  ahead : s.buf_ptr ≤ t.buf_ptr
  kept : (a : ℕ) → (a < s.buf_ptr) ⊎ (t.buf_ptr ≤ a) → t.mem a ≡ s.mem a
  index : t.index_ptr ≡ s.index_ptr + width x
  taken : t.ap ≡ s.ap + uses x

format_step-Advanced :
    (fuel : ℕ) (s : Cursor) (args : ℕ → ℕ) (x : Piece)
    → args s.ap < 2 ^ 32
    → PieceAt s.mem s.index_ptr x
    → Returns (Advanced s (args s.ap) x) (format_step fuel s args)
unfolding format_step
format_step-Advanced fuel s args (plain c) small (at, nz, np) =
    rw (at, ne→== c percent np)
      (record {
        shown = (eq_write s.mem s.buf_ptr c, refl);
        ahead = omega arith;
        kept = λ a out. ground (arith, out);
        index = refl;
        taken = omega arith;
      })
format_step-Advanced fuel s args byte small (at, conv) =
    rw (at, conv)
      (record {
        shown = (eq_write s.mem s.buf_ptr (args s.ap % 256), refl);
        ahead = omega arith;
        kept = λ a out. ground (arith, out);
        index = refl;
        taken = refl;
      })
format_step-Advanced fuel s args hex small (at, conv) =
    rw (at, conv)
      (Returns-bind _ (itoa max_digits s.mem (args s.ap) s.buf_ptr 16) _
        (itoa-Printed max_digits s.mem (args s.ap) s.buf_ptr 16 (omega arith) (omega arith)
          (omega arith) (omega arith))
        λ r (n, e, some_digit, few, number, leading, same). record {
          shown = (n, some_digit, e, number);
          ahead = omega (arith, e);
          kept = same;
          index = refl;
          taken = refl;
        })
format_step-Advanced fuel s args dec small (at, conv) =
    rw (at, conv)
      (Returns-bind _ (print_signed s.mem s.buf_ptr (args s.ap)) _
        (print_signed-Shown s.mem s.buf_ptr (args s.ap) small)
        λ r (shown, ahead, same). record {
          shown = shown;
          ahead = ahead;
          kept = same;
          index = refl;
          taken = refl;
        })

-- What the loop of vsprintf leaves: the pieces, shown one behind the other, and the rest of the
-- memory as it was.
abbrev pub AllAdvanced : Cursor → (ℕ → ℕ) → List Piece → Cursor → Type 0
AllAdvanced s args l t =
    AllShown t.mem s.buf_ptr args s.ap t.buf_ptr l
    × (s.buf_ptr ≤ t.buf_ptr)
    × ((a : ℕ) → (a < s.buf_ptr) ⊎ (t.buf_ptr ≤ a) → t.mem a ≡ s.mem a)

piece_not_zero : (x : Piece) (m : Memory) (p : ℕ) → PieceAt m p x → (m p == 0) ≡ false
piece_not_zero (plain c) m p (at, nz, np) = rw at (ne→== c 0 nz)
piece_not_zero byte m p (at, conv) = rw at refl
piece_not_zero hex m p (at, conv) = rw at refl
piece_not_zero dec m p (at, conv) = rw at refl

-- The loop of vsprintf, on a format of plain characters, %c, %x and %d that ends below the buffer,
-- with arguments of 32 bits and more fuel than the format has pieces, returns. It prints the pieces
-- one behind the other, each with its argument, and writes nothing else, so no terminating 0.
pub format_loop-AllAdvanced :
    (fuel : ℕ) (s : Cursor) (args : ℕ → ℕ) (l : List Piece)
    → ((i : ℕ) → args i < 2 ^ 32)
    → FormatAt s.mem s.index_ptr l
    → length l < fuel
    → s.index_ptr + total l < s.buf_ptr
    → Returns (AllAdvanced s args l) (format_loop fuel s args)
unfolding format_loop
format_loop-AllAdvanced zero s args l small f more below = absurd (omega arith)
format_loop-AllAdvanced (suc fuel) s args [] small f more below =
    rw f (refl, omega arith, λ a out. refl)
format_loop-AllAdvanced (suc fuel) s args (x ∷ l) small (at, f) more below =
    rw (piece_not_zero x s.mem s.index_ptr at) (
      Returns-bind _ (format_step fuel s args) _
        (format_step-Advanced fuel s args x (small s.ap) at)
        λ t h.
          Returns-mono _ (format_loop fuel t args)
            (format_loop-AllAdvanced fuel t args l small
              (subst (λ i. FormatAt t.mem i l) (sym h.index)
                (FormatAt-Agree l s.mem t.mem (s.index_ptr + width x)
                  (λ a le. h.kept a (inl (omega arith))) f))
              (omega arith) (omega (arith, h.index, h.ahead)))
            λ u (shown, ahead, same). (
              (
                t.buf_ptr,
                Shown-Agree x t.mem u.mem s.buf_ptr (args s.ap) t.buf_ptr
                    (λ a lo hi. same a (inl hi)) h.shown,
                subst (λ i. AllShown u.mem t.buf_ptr args i u.buf_ptr l) h.taken shown,
              ),
              omega (arith, h.ahead, ahead),
              λ a out. same a (omega (arith, out, h.ahead)) ∙ h.kept a (omega (arith, out, ahead)),
            ))
