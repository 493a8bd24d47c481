-- ===== src/NameCodec/Tests.antt =====
-- Runs of trivial/name_codec.c, and its theorems at concrete inputs.
use c_playground.Common.{ℕ, zero, suc, ◌≡◌, ◌≢◌, refl, arith}
use c_playground.Common.{List, [], ◌∷◌, ◌++◌, none, some, replicate, All, codes}
use c_playground.NameCodec.Utf8.{utf8_encode, utf8_decode}
use c_playground.NameCodec.Utf8.RoundTrip.{utf8_decode-utf8_encode}
use c_playground.NameCodec.Stream.{stream_init, stream_next}
use c_playground.NameCodec.Tables.{Pair}
use c_playground.NameCodec.Search.{find_pair, pair_cmp, bsearch}
use c_playground.NameCodec.Search.Lookup.{bsearch-scan}
use c_playground.NameCodec.Main.{printed, usage, main, magnet_prefix}
use c_playground.NameCodec.Main.Run.{text, IsName}
use c_playground.NameCodec.Main.Ends.{main_total, main_prints}

abbrev zhao : Pair
zhao = record { x = 0x8d75; c = b'0' }

abbrev qian : Pair
qian = record { x = 0x94b1; c = b'1' }

abbrev two_names : List Pair
two_names = qian ∷ zhao ∷ []

abbrev program : List ℕ
program = codes "name_codec"

zhao-IsName : IsName zhao
unfolding find_pair
zhao-IsName = (omega arith, refl)

two_names-IsName : All IsName two_names
unfolding find_pair
two_names-IsName = ((omega arith, refl), ((omega arith, refl), tt))

main_runs :
    main (program ∷ (0xe9 ∷ 0x92 ∷ 0xb1 ∷ []) ∷ []) ≡ some (printed (codes "magnet:?xt=urn:btih:1"))
unfolding main stream_init stream_next utf8_decode find_pair
main_runs = refl

main_usage : main (program ∷ []) ≡ some usage
unfolding main
main_usage = refl

-- An overlong form is accepted.
decode_overlong : utf8_decode (0xe0 ∷ 0x81 ∷ 0x81 ∷ []) ≡ some (3, 0x41)
unfolding utf8_decode
decode_overlong = refl

utf8_decode-utf8_encode_example :
    let (size, bytes) = utf8_encode 4 0x8d75 in utf8_decode (bytes ++ 7 ∷ []) ≡ some (size, 0x8d75)
utf8_decode-utf8_encode_example =
    utf8_decode-utf8_encode 4 0x8d75 (7 ∷ []) (omega arith) (omega arith) (omega arith)

bsearch-scan_example :
    bsearch pair_cmp (record { x = 0x94b1; c = 0 }) (zhao ∷ qian ∷ []) 2 0 2 ≡ some qian
bsearch-scan_example =
    bsearch-scan 0x94b1 (zhao ∷ qian ∷ []) (omega arith) (omega arith) (omega arith)

main_total_example : main (program ∷ (0xe9 ∷ []) ∷ []) ≢ none
main_total_example = main_total program (0xe9 ∷ []) [] (omega arith)

-- The stray byte at the end is passed over in silence.
main_prints_example :
    main (program ∷ (text two_names ++ 0xff ∷ []) ∷ [])
    ≡ some (printed (magnet_prefix ++ codes "10"))
main_prints_example =
    main_prints program (0xff ∷ []) [] two_names two_names-IsName (omega arith)
      (unfold utf8_decode in refl)

many-IsName : (n : ℕ) → All IsName (replicate n zhao)
many-IsName zero = tt
many-IsName (suc n) = (zhao-IsName, many-IsName n)
