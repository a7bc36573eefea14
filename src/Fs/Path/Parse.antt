-- ===== src/Fs/Path/Parse.antt =====
-- path_parse: the first name of a path.
use restore_the_operating_sy.Base.{
  false, eq→==, inr, inl, ◌==◌, if◌then◌else◌, refl, ◌∙◌, ne→==, length-append, ℕ, zero, suc, ◌+◌,
  ◌≤◌, ◌<◌, ◌≡◌, ◌≢◌, ◌⊎◌, List, [], ◌∷◌, ◌++◌, length, arith,
}
use restore_the_operating_sy.Base.Word.{null, ok, Returns, Returns-bind, Returns-mono}
use restore_the_operating_sy.String.{Memory, write}
use restore_the_operating_sy.String.Spec.{Holds, Holds-Agree}
use restore_the_operating_sy.Fs.Path.{slash, copy_name, path_parse}

-- The name ends at a slash or at the end of the path.
abbrev pub Ends : List ℕ → Type 0
Ends [] = Unit
Ends (c ∷ s) = c ≡ slash

abbrev pub NoSlash : List ℕ → Type 0
NoSlash [] = Unit
NoSlash (c ∷ s) = (c ≢ slash) × NoSlash s

-- The bytes from p on are s.
abbrev pub Bytes : Memory → ℕ → List ℕ → Type 0
Bytes m p [] = Unit
Bytes m p (c ∷ s) = (m p ≡ c) × Bytes m (p + 1) s

-- A name of n bytes at `name` lies apart from the addresses from lo up to hi.
abbrev pub Apart : ℕ → ℕ → ℕ → ℕ → Type 0
Apart name n lo hi = (name + n ≤ lo) ⊎ (hi ≤ name)

-- What the copying of a name s, which ends the path or stands before a slash, leaves.
pub record Copied (m : Memory) (p name : ℕ) (s rest : List ℕ) (r : Memory × ℕ) : Type 0 where
  pub stop : r.1 ≡ p + length s
  pub there : Bytes r.0 name s
  pub below : (a : ℕ) → a < name → r.0 a ≡ m a
  pub above : (a : ℕ) → name + length s ≤ a → r.0 a ≡ m a

pub copy_name_lem :
    (fuel : ℕ) (m : Memory) (p name : ℕ) (s rest : List ℕ)
    → Holds m p (s ++ rest)
    → NoSlash s
    → Ends rest
    → length s < fuel
    → Apart name (length s) p (p + length (s ++ rest) + 1)
    → Returns (Copied m p name s rest) (copy_name fuel m p name)
unfolding copy_name
copy_name_lem zero m p name s rest h ns e lt apart = absurd (omega arith)
copy_name_lem (suc fuel) m p name [] [] h ns e lt apart =
    rw h (record { stop = omega arith; there = tt; below = λ a q. refl; above = λ a q. refl })
copy_name_lem (suc fuel) m p name [] (c ∷ rest) h ns e lt apart =
    rw (h.0, e)
      (record { stop = omega arith; there = tt; below = λ a q. refl; above = λ a q. refl })
copy_name_lem (suc fuel) m p name (c ∷ s) rest h ns e lt apart =
    let total = length-append {0} s rest in
    rw (h.0, ne→== c slash ns.0, ne→== c 0 h.1)
      (Returns-mono (Copied m p name (c ∷ s) rest) _
        (copy_name_lem fuel (write m name c) (p + 1) (name + 1) s rest
          (Holds-Agree m (write m name c) (p + 1) (s ++ rest) h.2 (λ a lo hi. ground arith)) ns.1 e
          (omega arith) (omega arith))
        λ r w. record {
          stop = omega (arith, w.stop);
          there = (w.below name (omega arith) ∙ ground arith, w.there);
          below = λ a q. w.below a (omega arith) ∙ ground arith;
          above = λ a q. w.above a (omega arith) ∙ ground arith;
        })

-- What stands behind the name.
pub Holds-drop :
    (m : Memory) (p : ℕ) (s rest : List ℕ) → Holds m p (s ++ rest) → Holds m (p + length s) rest
Holds-drop m p [] rest h = let e : p + 0 ≡ p = omega arith in rw e h
Holds-drop m p (c ∷ s) rest h =
    let e : p + suc (length s) ≡ p + 1 + length s = omega arith in
    rw e (Holds-drop m (p + 1) s rest h.2)

-- Where the rest of the path stands, if there is one.
abbrev pub after : ℕ → List ℕ → ℕ
after q [] = null
after q (c ∷ rest) = q

-- What path_parse leaves: the name, without a zero behind it, at name_store, a slash at the path's
-- first byte, and everything else as it was; it gives the rest of the path or NULL.
pub record Parsed (m : Memory) (p name : ℕ) (s rest : List ℕ) (r : Memory × ℕ) : Type 0 where
  pub next : r.1 ≡ after (p + 1 + length s) rest
  pub there : Bytes r.0 name s
  pub first : r.0 p ≡ slash
  pub others : (a : ℕ) → a ≢ p → (a < name) ⊎ (name + length s ≤ a) → r.0 a ≡ m a

stop_byte :
    (m : Memory) (q : ℕ) (rest : List ℕ)
    → Holds m q rest
    → (if m q == 0 then null else q) ≡ after q rest
stop_byte m q [] h = rw h
stop_byte m q (c ∷ rest) h = rw (h.0, ne→== c 0 h.1)

-- path_parse of a path whose second byte is not at the address 47, and that the place of the name does
-- not overlap, takes the name behind the first byte, up to the next slash or the end, whatever the
-- first byte is.
pub path_parse-Parsed :
    (fuel : ℕ) (m : Memory) (p name : ℕ) (s rest : List ℕ)
    → Holds m (p + 1) (s ++ rest)
    → NoSlash s
    → Ends rest
    → length s < fuel
    → Apart name (length s) p (p + 2 + length (s ++ rest))
    → p + 1 ≢ slash
    → Returns (Parsed m p name s rest) (path_parse fuel m p name)
unfolding path_parse
path_parse-Parsed fuel m p name s rest h ns e lt apart ne =
    let m1 = write m p slash in
    let total = length-append {0} s rest in
    let kept : Holds m1 (p + 1) (s ++ rest) =
      Holds-Agree m m1 (p + 1) (s ++ rest) h (λ a lo hi. ground arith) in
    rw (ne→== (p + 1) slash ne) (
      Returns-bind (Parsed m p name s rest) (copy_name fuel m1 (p + 1) name) _
        (copy_name_lem fuel m1 (p + 1) name s rest kept ns e lt (omega arith))
        λ r w.
          let path : (a : ℕ) → p ≤ a → a < p + 2 + length (s ++ rest) → r.0 a ≡ m1 a = λ a lo hi.
            elim apart [ inl q ↦ w.above a (omega arith) | inr q ↦ w.below a (omega arith) ] in
          let here : Holds r.0 (p + 1 + length s) rest = Holds-drop r.0 (p + 1) s rest (
            Holds-Agree m1 r.0 (p + 1) (s ++ rest) kept
              (λ a lo hi. path a (omega arith) (omega arith))) in
          record {
            next = rw w.stop (stop_byte r.0 (p + 1 + length s) rest here);
            there = w.there;
            first = path p (omega arith) (omega arith) ∙ rw (eq→== p p refl);
            others = λ a np out.
                let same : m1 a ≡ m a = rw (ne→== a p np) in
                elim out [ inl q ↦ w.below a q ∙ same | inr q ↦ w.above a q ∙ same ];
          })

-- Where a path begins with two slashes, path_parse gives no name: it leaves the name's place alone
-- and gives the address of the second slash.
pub path_parse-double_slash :
    (fuel : ℕ) (m : Memory) (p name : ℕ)
    → m (p + 1) ≡ slash
    → p + 1 ≢ slash
    → path_parse (suc fuel) m p name ≡ ok (write m p slash, p + 1)
unfolding path_parse copy_name
path_parse-double_slash fuel m p name second ne =
    let away : ((p + 1) == p) ≡ false = ne→== (p + 1) p (omega arith) in
    rw (ne→== (p + 1) slash ne, away, second) (rw (away, second))
