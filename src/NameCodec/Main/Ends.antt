-- ===== src/NameCodec/Main/Ends.antt =====
-- How `main` ends, for every argument.
use c_playground.Common.{ℕ, suc, ◌+◌, ◌-◌, ◌≤◌, ◌<◌, ◌^◌, ◌≡◌, ◌≢◌, ap, ◌∙◌, arith}
use c_playground.Common.{List, [], ◌∷◌, ◌++◌, none, some}
use c_playground.Common.{length, length-append, All, take-length}
use c_playground.NameCodec.Utf8.{utf8_decode}
use c_playground.NameCodec.Stream.{stream_init}
use c_playground.NameCodec.Tables.{Pair}
use c_playground.NameCodec.Search.{find_pair}
use c_playground.NameCodec.Main.{
  printed, invalid, overrun, finish, name_loop, main, magnet_prefix, buffer_size,
}
use c_playground.NameCodec.Main.Run.{
  text, chars, IsName, length-chars, length-text, loop_end, loop_unknown, loop_names, loop-ne-none,
  loop-ne-overrun, loop_overrun,
}

main_loop :
    (program names : List ℕ) (more : List (List ℕ))
    → main (program ∷ names ∷ more) ≡ name_loop (suc (length names)) (record { bytes = names }) []
unfolding main stream_init
main_loop program names more =
    ap (λ bs. name_loop (suc (length names)) (record { bytes = bs }) []) (take-length names)

-- After the names, the loop goes on at the rest with one round at least.
main_names :
    (program rest : List ℕ) (more : List (List ℕ)) (ps : List Pair)
    → All IsName ps
    → length ps ≤ buffer_size
    → (k : ℕ) × (main (program ∷ (text ps ++ rest) ∷ more)
        ≡ name_loop (suc k) (record { bytes = rest }) (chars ps))
main_names program rest more ps h l =
    let k : ℕ = length (text ps ++ rest) - length ps in
    let e : suc (length (text ps ++ rest)) ≡ length ps + suc k =
      omega (arith, length-append (text ps) rest, length-text ps) in
    (
      k,
      main_loop program (text ps ++ rest) more
          ∙ rw e (loop_names ps (suc k) rest [] h (omega arith)),
    )

-- Every run of `main` on byte strings ends.
pub main_total :
    (program names : List ℕ) (more : List (List ℕ))
    → All (λ b. b < 256) names
    → main (program ∷ names ∷ more) ≢ none
main_total program names more h =
    rw main_loop (loop-ne-none (suc (length names)) names [] h (omega arith))

-- Up to 511 names, followed by the end of the argument or by bytes that are not UTF-8: the characters
-- of the names are printed behind the prefix, whatever else follows.
pub main_prints :
    (program rest : List ℕ) (more : List (List ℕ)) (ps : List Pair)
    → All IsName ps
    → length ps < buffer_size
    → utf8_decode rest ≡ none
    → main (program ∷ (text ps ++ rest) ∷ more) ≡ some (printed (magnet_prefix ++ chars ps))
main_prints program rest more ps h l e =
    let (k, run) = main_names program rest more ps h (omega arith) in
    run ∙ loop_end k rest (chars ps) e ∙ ap some (unfold finish in ground (arith, length-chars ps))

-- Up to 512 names, followed by a code point that is no name: the input is reported invalid.
pub main_invalid :
    (program rest : List ℕ) (more : List (List ℕ)) (ps : List Pair) (c u : ℕ)
    → All IsName ps
    → length ps ≤ buffer_size
    → utf8_decode rest ≡ some (c, u)
    → u < 2 ^ 21
    → find_pair u ≡ none
    → main (program ∷ (text ps ++ rest) ∷ more) ≡ some invalid
main_invalid program rest more ps c u h l e small k =
    let (n, run) = main_names program rest more ps h l in
    run ∙ loop_unknown n rest (chars ps) c u e small k

-- An argument of fewer than 1536 bytes never makes `main` store past its buffer of 512 characters.
pub main-ne-overrun :
    (program names : List ℕ) (more : List (List ℕ))
    → All (λ b. b < 256) names
    → length names < 1536
    → main (program ∷ names ∷ more) ≢ some overrun
main-ne-overrun program names more h l =
    rw main_loop (loop-ne-overrun (suc (length names)) names [] h (omega arith))

-- Any 512 names or more make `main` store past its buffer.
pub main_overrun :
    (program : List ℕ) (more : List (List ℕ)) (ps : List Pair)
    → All IsName ps
    → 512 ≤ length ps
    → main (program ∷ text ps ∷ more) ≡ some overrun
main_overrun program more ps h l =
    main_loop program (text ps) more
    ∙ loop_overrun ps (suc (length (text ps))) [] h (omega (arith, length-text ps)) (omega arith)
        (omega arith)
