-- ===== src/NameCodec/Main.antt =====
-- trivial/name_codec.c: `main` with the static mapping.
pub mod Run
pub mod Ends
use c_playground.Common.{
  ℕ, zero, suc, ◌+◌, ◌<◌, List, [], ◌∷◌, ◌++◌, Option, none, some, length, true, false,
}
use c_playground.Common.{codes, ltb, ◌==◌, if◌then◌else◌}
use c_playground.NameCodec.Stream.{Stream, stream_init, stream_next, minus_one}
use c_playground.NameCodec.Search.{find_pair}

-- How a run ends. `overrun` is a store past the 512 bytes of `char a[512]`.
pub data Outcome : Type 0 where
  usage : Outcome
  printed : List ℕ → Outcome
  invalid : Outcome
  overrun : Outcome

abbrev pub buffer_size : ℕ
buffer_size = 512

-- `MAGNETPREFIX`
abbrev pub magnet_prefix : List ℕ
magnet_prefix = codes "magnet:?xt=urn:btih:"

-- After the loop: `*p = 0` and the print.
unfoldable pub finish : List ℕ → Outcome
finish out = if ltb (length out) buffer_size then printed (magnet_prefix ++ out) else overrun

-- The loop `for (;;)`; `out` is what stands in `a` before `p`, and `none` says that the fuel is used up.
unfoldable pub name_loop : ℕ → Stream → List ℕ → Option Outcome
unfolding finish
name_loop zero s out = none
name_loop (suc fuel) s out =
    let (t, _, s') = stream_next s in
    if t == minus_one then some (finish out) else elim (find_pair t) [
      | none ↦ some invalid
      | some y ↦ elim (ltb (length out) buffer_size) [
        | true ↦ name_loop fuel s' (out ++ y.c ∷ [])
        | false ↦ some overrun
      ]
    ]

-- `main(argc, argv)`, with `argv` as byte strings. Each round takes a byte at least.
unfoldable pub main : List (List ℕ) → Option Outcome
unfolding name_loop
main [] = some usage
main (program ∷ []) = some usage
main (program ∷ names ∷ more) = name_loop (suc (length names)) (stream_init names (length names)) []
