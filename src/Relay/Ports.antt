-- ===== src/Relay/Ports.antt =====
-- The list of the group ports on the collector's command line: `split` of collector.cpp.
pub mod Split
use c_playground.Common.{
  ℕ, zero, suc, ◌+◌, ◌%◌, ◌^◌, Bool, true, false, List, [], ◌∷◌, ◌++◌, ◌==◌, if◌then◌else◌, bit_and,
}
use c_playground.Common.Int.{ℤ}
use c_playground.Relay.Text.{low_bits}

-- if(j>i) res.push_back(op(...)), where `field` is the text from `i` to `j`.
unfoldable pub push_field {ℓ} : {T : Type ℓ} → (List ℕ → T) → List ℕ → List T → List T
push_field op [] res = res
push_field op (c ∷ field) res = res ++ (op (c ∷ field) ∷ [])

-- The loop over `s[j]`, with the text from `i` to `j`, and the push behind it.
unfoldable pub split_loop {ℓ} :
    {T : Type ℓ} → (separator : ℕ) → (List ℕ → T) → (s field : List ℕ) → List T → List T
split_loop separator op [] field res = push_field op field res
split_loop separator op (c ∷ s) field res =
    let cut = c == separator in
    split_loop separator op s (if cut then [] else field ++ (c ∷ []))
      (if cut then push_field op field res else res)

unfoldable pub split {ℓ} : {T : Type ℓ} → (separator : ℕ) → (List ℕ → T) → List ℕ → List T
split separator op s = split_loop separator op s [] []

-- The port of the number that `stoi` gave; the `short` holds it.
unfoldable pub port_of : ℤ → ℕ
port_of z = bit_and (low_bits 32 z) 0xff + 10000
