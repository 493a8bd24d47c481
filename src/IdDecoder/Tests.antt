-- ===== src/IdDecoder/Tests.antt =====
-- Runs of the id decoder on concrete names.
use c_playground.Common.{ℕ, ◌≡◌, refl, arith, List, [], ◌∷◌, some, All, codes}
use c_playground.Common.Int.{pos, ◌+ℤ◌}
use c_playground.IdDecoder.Table.{cell}
use c_playground.IdDecoder.Value.{value, IsDigit}
use c_playground.IdDecoder.{id_decode, valid, check, invalid_name, ids, undefined, report, main}
use c_playground.IdDecoder.Names.{name, main-name}

abbrev node : List ℕ
node = 1 ∷ 2 ∷ 3 ∷ 30 ∷ []

abbrev process : List ℕ
process = 0 ∷ 0 ∷ 9 ∷ 10 ∷ 11 ∷ 7 ∷ []

node_digits : All IsDigit node
node_digits = (omega arith, (omega arith, (omega arith, (omega arith, tt))))

process_digits : All IsDigit process
process_digits =
    (omega arith, (omega arith, (omega arith, (omega arith, (omega arith, (omega arith, tt))))))

main_run : main (some (codes "$Z012300000B")) ≡ ids (pos 1091) (pos 10)
unfolding main report check id_decode cell ◌+ℤ◌
main_run = refl

main_vowel : main (some (codes "$Z01A300000B")) ≡ invalid_name
unfolding main report check id_decode cell
main_vowel = refl

main_z : main (some (codes "$Z01Z300000B")) ≡ undefined
unfolding main report check id_decode cell
main_z = refl

main-name_example :
    main (some (name node process)) ≡ ids (pos (value node 4)) (pos (value process 6))
main-name_example = main-name node process refl refl node_digits process_digits

check_run : check (codes "$Z0123000009") ≡ valid (codes "$Z0123000009")
unfolding check cell
check_run = refl

cell_five : cell b'5' ≡ some (pos 5)
unfolding cell
cell_five = refl
