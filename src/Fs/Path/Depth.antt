-- ===== src/Fs/Path/Depth.antt =====
-- path_depth_cnt counts the names of a path.
use restore_the_operating_sy.Base.{
  eq→==, ne→==, All, length-append, ◌∙◌, sym, refl, ℕ, zero, suc, ◌+◌, ◌≤◌, ◌<◌, ◌^◌, ◌≡◌, ◌≢◌,
  List, [], ◌∷◌, ◌++◌, length, arith,
}
use restore_the_operating_sy.Base.Word.{null, u32, Returns, Returns-bind, Returns-mono}
use restore_the_operating_sy.String.{Memory, memset}
use restore_the_operating_sy.String.Bytes.{memset_lem}
use restore_the_operating_sy.String.Spec.{Holds, Holds-Agree}
use restore_the_operating_sy.Fs.Path.{slash, path_parse, count_names, path_depth_cnt}
use restore_the_operating_sy.Fs.Path.Parse.{
  Ends, NoSlash, Bytes, Apart, Parsed, path_parse-Parsed, Holds-drop,
}

-- The path with the names, each behind a slash.
abbrev pub join : List (List ℕ) → List ℕ
join [] = []
join (s ∷ names) = slash ∷ (s ++ join names)

-- A name that fits into the array, without slashes.
abbrev pub IsName : List ℕ → Type 0
IsName s = (0 < length s) × (length s ≤ 16) × NoSlash s

join-Ends : (names : List (List ℕ)) → Ends (join names)
join-Ends [] = tt
join-Ends (s ∷ names) = refl

-- A name that was copied does not begin with a zero.
first_byte :
    (m n : Memory) (q name : ℕ) (s rest : List ℕ)
    → 0 < length s
    → Holds m q (s ++ rest)
    → Bytes n name s
    → n name ≢ 0
first_byte m n q name [] rest pos h b = absurd (omega arith)
first_byte m n q name (c ∷ s) rest pos h b = λ z. h.1 (sym b.0 ∙ z)

-- NULL once no name is left, and never an address at which `(++ pathname) == '/'` may hold.
abbrev pub Left : ℕ → List (List ℕ) → Type 0
Left p [] = p ≡ null
Left p (s ∷ names) = slash ≤ p

-- Where the loop stands: the array holds a name, and `p` the path of the names that are left, or NULL
-- if there are none.
pub record Counting (m : Memory) (p name : ℕ) (names : List (List ℕ)) : Type 0 where
  pub started : m name ≢ 0
  pub left : Left p names
  pub path : p ≢ null → Holds m p (join names)
  pub apart : p ≢ null → Apart name 16 p (p + length (join names) + 1)

-- What Parsed says of the place of the names that are left.
next_names :
    (m : Memory) (p name : ℕ) (s : List ℕ) (names : List (List ℕ)) (r : Memory × ℕ)
    → Holds m p (join (s ∷ names))
    → Apart name 16 p (p + length (join (s ∷ names)) + 1)
    → slash ≤ p
    → IsName s
    → Parsed m p name s (join names) r
    → Counting r.0 r.1 name names
next_names m p name s [] r h apart high (pos, short, ns) w = record {
  started = first_byte m r.0 (p + 1) name s [] pos h.2 w.there;
  left = w.next;
  path = λ ne. absurd (ne w.next);
  apart = λ ne. absurd (ne w.next);
}
next_names m p name s (t ∷ names) r h apart high (pos, short, ns) w =
    let rest = join (t ∷ names) in
    let q = p + 1 + length s in
    let total = length-append {0} s rest in
    let there : Holds r.0 q rest =
      Holds-Agree m r.0 q rest (Holds-drop m (p + 1) s rest h.2)
        (λ a lo hi. w.others a (omega arith) (omega arith)) in
    record {
      started = first_byte m r.0 (p + 1) name s rest pos h.2 w.there;
      left = omega (arith, w.next);
      path = λ ne. rw w.next there;
      apart = λ ne. omega (arith, w.next);
    }

-- One call of path_parse on the names that are left.
parse_next :
    (fuel : ℕ) (m : Memory) (p name : ℕ) (s : List ℕ) (names : List (List ℕ))
    → Holds m p (join (s ∷ names))
    → Apart name 16 p (p + length (join (s ∷ names)) + 1)
    → slash ≤ p
    → IsName s
    → 16 < fuel
    → Returns (λ r. Counting r.0 r.1 name names) (path_parse fuel m p name)
parse_next fuel m p name s names h apart high (pos, short, ns) f =
    Returns-mono _ (path_parse fuel m p name)
      (path_parse-Parsed fuel m p name s (join names) h.2 ns (join-Ends names) (omega arith)
        (omega arith) (omega arith))
      λ r w. next_names m p name s names r h apart high (pos, short, ns) w

-- From each state of the loop on, one more for the name in the array and one for each name left.
count_names_lem :
    (rounds fuel : ℕ) (m : Memory) (p name depth : ℕ) (names : List (List ℕ))
    → Counting m p name names
    → All IsName names
    → length names + 1 < rounds
    → 16 < fuel
    → name ≢ null
    → depth + 1 + length names < 2 ^ 32
    → Returns (λ d. d ≡ depth + 1 + length names) (count_names rounds fuel m p name depth)
unfolding count_names
count_names_lem zero fuel m p name depth names c good lt f ne small = absurd (omega arith)
count_names_lem (suc zero) fuel m p name depth names c good lt f ne small = absurd (omega arith)
count_names_lem (suc (suc rounds)) fuel m p name depth [] c good lt f ne small =
    rw (ne→== _ 0 c.started) (
      Returns-bind _ (memset m name 0 16) _ (memset_lem m name 0 16 ne (omega arith)) λ m1 w.
        let zero_byte : m1 name ≡ 0 = ground (arith, w name) in
        rw (eq→== p null c.left, zero_byte) (omega arith))
count_names_lem (suc (suc rounds)) fuel m p name depth (s ∷ names) c good lt f ne small =
    let left = c.left in
    let here : p ≢ null = omega arith in
    let apart = c.apart here in
    rw (ne→== _ 0 c.started) (
      Returns-bind _ (memset m name 0 16) _ (memset_lem m name 0 16 ne (omega arith)) λ m1 w.
        let path : Holds m1 p (join (s ∷ names)) =
          Holds-Agree m m1 p (join (s ∷ names)) (c.path here) (λ a lo hi. ground (arith, w a)) in
        rw (ne→== p null here) (
          Returns-bind _ (path_parse fuel m1 p name) _
            (parse_next fuel m1 p name s names path apart left good.0 f)
            λ r k.
              Returns-mono _ (count_names (suc rounds) fuel r.0 r.1 name (u32 (depth + 1)))
                (count_names_lem (suc rounds) fuel r.0 r.1 name (u32 (depth + 1)) names k good.1
                  (omega arith) f ne (omega arith))
                λ d e. omega arith))

-- path_depth_cnt of a path of at least one name, each of 1 to 16 bytes behind one slash, gives the
-- number of the names, if the array lies apart from the path and the path at address 47 or above.
pub path_depth_cnt-length :
    (rounds fuel : ℕ) (m : Memory) (p name : ℕ) (s : List ℕ) (names : List (List ℕ))
    → Holds m p (join (s ∷ names))
    → Apart name 16 p (p + length (join (s ∷ names)) + 1)
    → slash ≤ p
    → All IsName (s ∷ names)
    → length names + 1 < rounds
    → 16 < fuel
    → name ≢ null
    → length (s ∷ names) < 2 ^ 32
    → Returns (λ d. d ≡ length (s ∷ names)) (path_depth_cnt rounds fuel m p name)
unfolding path_depth_cnt
path_depth_cnt-length rounds fuel m p name s names h apart high good lt f ne small =
    rw (ne→== p null (omega arith)) (
      Returns-bind _ (path_parse fuel m p name) _
        (parse_next fuel m p name s names h apart high good.0 f)
        λ r k.
          Returns-mono _ (count_names rounds fuel r.0 r.1 name 0)
            (count_names_lem rounds fuel r.0 r.1 name 0 names k good.1 lt f ne (omega arith))
            λ d e. omega arith)
