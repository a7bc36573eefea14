-- ===== src/String/Tests.antt =====
-- Runs of string.c, and its theorems at a small memory.
use restore_the_operating_sy.Base.{
  ℕ, ◌+◌, ◌-◌, ◌≡◌, ◌<◌, ◌↔◌, refl, List, [], ◌∷◌, ◌++◌, if◌then◌else◌, ◌==◌, ltb, leb, ◌&&◌, arith,
  inl, inr,
}
use restore_the_operating_sy.Base.Word.{null, minus_one, ok, panic, hang, Returns}
use restore_the_operating_sy.String.{
  Memory, memset, memcpy, memcmp, strcpy, strlen, strcmp, strchr, strrchr, strcat, strchrs,
  past_zero, find_char, find_last_char, compare_strings, count_char, compare_bytes,
}
use restore_the_operating_sy.String.Spec.{Holds}
use restore_the_operating_sy.String.Bytes.{memset_lem, memcpy_lem, memcmp_lem, block}
use restore_the_operating_sy.String.Length.{strlen-length, strchrs-count, count}
use restore_the_operating_sy.String.Find.{
  strchr-IsFirst, strrchr-IsLast, strchr_high, IsFirst, IsLast,
}
use restore_the_operating_sy.String.Copy.{strcpy-Wrote, strcat-append, Wrote}
use restore_the_operating_sy.String.Compare.{strcmp_lem}

-- "aba" at 10, "b" at 20, zeros elsewhere.
abbrev memory : Memory
memory a =
    if a == 10
    then 97
    else if a == 11
    then 98
    else if a == 12
    then 97
    else if a == 20
    then 98
    else 0

abbrev aba : List ℕ
aba = 97 ∷ 98 ∷ 97 ∷ []

abbrev b : List ℕ
b = 98 ∷ []

memory_bytes : (i : ℕ) → memory i < 256
memory_bytes i = ground arith

aba_there : Holds memory 10 aba
aba_there = omega arith

b_there : Holds memory 20 b
b_there = omega arith

string_runs :
    (strlen 9 memory 10 ≡ ok 3)
    × (strcmp 9 memory 10 20 ≡ ok minus_one)
    × (strchr 9 memory 10 98 ≡ ok 11)
    × (strrchr 9 memory 10 97 ≡ ok 12)
    × (strchrs 9 memory 10 97 ≡ ok 2)
    × (strlen 3 memory 10 ≡ hang)
    × (strlen 9 memory null ≡ panic)
    × (memcmp memory 12 10 2 ≡ ok minus_one)
unfolding strlen strcmp strchr strrchr strchrs past_zero find_char find_last_char compare_strings
    count_char memcmp compare_bytes
string_runs = (refl, refl, refl, refl, refl, refl, refl, refl)

memset_lem_example :
    Returns
      (λ n. (a : ℕ) → n a ≡ (if leb 10 a && ltb a 12 then 7 else memory a))
      (memset memory 10 7 2)
memset_lem_example = memset_lem memory 10 7 2 (omega arith) (omega arith)

memcpy_lem_example :
    Returns
      (λ n. (a : ℕ) → n a ≡ (if leb 30 a && ltb a 33 then memory (10 + (a - 30)) else memory a))
      (memcpy memory 30 10 3)
memcpy_lem_example = memcpy_lem memory 30 10 3 (omega arith) (omega arith) (inr (omega arith))

memcmp_lem_example :
    ((memcmp memory 10 20 2 ≡ ok 0) ↔ (block memory 10 2 ≡ block memory 20 2))
    × ((memcmp memory 10 20 2 ≡ ok 1) ↔ (memcmp memory 20 10 2 ≡ ok minus_one))
memcmp_lem_example = memcmp_lem memory 10 20 2 (omega arith) (omega arith) memory_bytes

strlen-length_example : strlen 4 memory 10 ≡ ok 3
strlen-length_example = strlen-length 4 memory 10 aba aba_there (omega arith) (omega arith)

strchrs-count_example : strchrs 4 memory 10 97 ≡ ok (count 97 aba)
strchrs-count_example =
    strchrs-count 4 memory 10 97 aba aba_there (omega arith) (omega arith) (omega arith)
      (omega arith)

strchr-IsFirst_example : Returns (IsFirst 10 98 aba) (strchr 4 memory 10 98)
strchr-IsFirst_example =
    strchr-IsFirst 4 memory 10 98 aba aba_there (omega arith) (omega arith) (omega arith)

strrchr-IsLast_example : Returns (IsLast 10 97 aba) (strrchr 4 memory 10 97)
strrchr-IsLast_example =
    strrchr-IsLast 4 memory 10 97 aba aba_there (omega arith) (omega arith) (omega arith)

strchr_high_example : strchr 4 memory 10 200 ≡ ok null
strchr_high_example =
    strchr_high 4 memory 10 200 aba aba_there (omega arith) (omega arith) (omega arith)
      (omega arith)

strcpy-Wrote_example : Returns (λ r. Wrote memory 40 aba r.0 × (r.1 ≡ 40)) (strcpy 4 memory 40 10)
strcpy-Wrote_example =
    strcpy-Wrote 4 memory 40 10 aba aba_there (omega arith) (omega arith) (omega arith)
      (inr (omega arith))

strcat-append_example :
    Returns (λ r. Wrote memory 10 (aba ++ b) r.0 × (r.1 ≡ 10)) (strcat 4 memory 10 20)
strcat-append_example =
    strcat-append 4 memory 10 20 aba b aba_there b_there (omega arith) (omega arith) (omega arith)
      (omega arith) (inl (omega arith))

strcmp_lem_example :
    ((strcmp 4 memory 10 20 ≡ ok 0) ↔ (aba ≡ b))
    × ((strcmp 4 memory 10 20 ≡ ok 1) ↔ (strcmp 4 memory 20 10 ≡ ok minus_one))
strcmp_lem_example =
    strcmp_lem 4 memory 10 20 aba b aba_there b_there (omega arith) (omega arith) (omega arith)
      (omega arith) (omega arith) (omega arith)
