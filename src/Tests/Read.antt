-- ===== src/Tests/Read.antt =====
-- A file of three bytes that is read in chunks of at most two.
use mgds.Prelude.{
  List, [], ap, arith, drop, err, false, ok, refl, some, suc, take, true, zero, ℕ, ◌++◌, ◌<◌, ◌∷◌,
  ◌≡◌,
}
use mgds.Evidence.Read.{Stat, read_bounded_evidence_file, limit_exceeded}
use mgds.Evidence.Read.Whole.{Delivers, read_bounded_evidence_file-expected}

abbrev file : List ℕ
file = 7 ∷ 8 ∷ 9 ∷ []

-- two bytes, or one if one is asked
abbrev two : ℕ → ℕ
two zero = 0
two (suc zero) = 1
two (suc (suc n)) = 2

abbrev read : ℕ → ℕ → List ℕ
read position n = take (two n) (drop position file)

abbrev stat : Stat
stat = record { is_file = true; is_symbolic_link = false; size = 3; ino = 5; dev = 1 }

parts_of_file : (n : ℕ) (xs : List ℕ) → xs ≡ take n xs ++ drop n xs
parts_of_file zero xs = refl
parts_of_file (suc n) [] = refl
parts_of_file (suc n) (x ∷ xs) = ap (λ t. x ∷ t) (parts_of_file n xs)

nothing : (n : ℕ) (xs : List ℕ) → 0 < n → take (two n) xs ≡ [] → xs ≡ []
nothing zero xs p e = absurd (omega arith)
nothing (suc n) [] p e = refl
nothing (suc zero) (x ∷ xs) p e = cc
nothing (suc (suc n)) (x ∷ xs) p e = cc

file-Delivers : Delivers file read
file-Delivers = record {
  in_place =
      λ position n. (drop (two n) (drop position file), parts_of_file (two n) (drop position file));
  until_end = λ position n. nothing n (drop position file);
}

-- the file has grown since its state was asked for
abbrev earlier : Stat
earlier = record stat { size = 2 }

read_exceeding : read_bounded_evidence_file 2 read earlier earlier ≡ some (err limit_exceeded)
unfolding read_bounded_evidence_file
read_exceeding = refl

read_bounded_evidence_file-expected_example :
    read_bounded_evidence_file 3 read stat stat ≡ some (ok (7 ∷ 8 ∷ 9 ∷ []))
read_bounded_evidence_file-expected_example =
    read_bounded_evidence_file-expected 3 file read file-Delivers stat stat (ground arith) refl refl
