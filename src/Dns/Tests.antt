-- ===== src/Dns/Tests.antt =====
-- Runs of socket/dns-demo.c, and its theorems at concrete inputs.
use c_playground.Common.{◌⊎◌, inl, inr, some}
use c_playground.Common.{
  ℕ, suc, ◌+◌, ◌≡◌, refl, arith, List, [], ◌∷◌, ◌++◌, false, All, All-append, drop, codes,
  replicate,
}
use c_playground.Dns.{name_encode, decoded, name_decode, walked, read_loop, name_of, read_name}
use c_playground.Dns.Encode.{label_bytes, dotted, IsLabelByte}
use c_playground.Dns.Decode.{IsLabel, name_decode-name_encode}
use c_playground.Dns.Older.{older_read_name, older_name}
use c_playground.Dns.Records.{short_at, kept, read_answers}
use c_playground.Dns.Answers.{Address, answers_bytes, IsHost, kept_all, read_answers-answers_bytes}
use c_playground.Dns.Collect.{Stands, IsPlain, read_name_compressed}

abbrev www_text : List ℕ
www_text = codes "www"

abbrev com_text : List ℕ
com_text = codes "com"

encode_run :
    name_encode (codes "www.com") ≡ 3 ∷ b'w' ∷ b'w' ∷ b'w' ∷ 3 ∷ b'c' ∷ b'o' ∷ b'm' ∷ 0 ∷ []
unfolding name_encode
encode_run = refl

decode_run :
    name_decode 3 (3 ∷ b'w' ∷ b'w' ∷ b'w' ∷ 3 ∷ b'c' ∷ b'o' ∷ b'm' ∷ 0 ∷ [])
    ≡ decoded (codes "www.com" ++ 0 ∷ 0 ∷ [])
unfolding name_decode
decode_run = refl

www_bytes : All IsLabelByte www_text
www_bytes =
    (λ e. absurd (omega arith), (λ e. absurd (omega arith), (λ e. absurd (omega arith), tt)))

com_bytes : All IsLabelByte com_text
com_bytes =
    (λ e. absurd (omega arith), (λ e. absurd (omega arith), (λ e. absurd (omega arith), tt)))

www_text-IsLabel : IsLabel www_text
www_text-IsLabel = (omega arith, omega arith, (omega arith, (omega arith, (omega arith, tt))))

com_text-IsLabel : IsLabel com_text
com_text-IsLabel = (omega arith, omega arith, (omega arith, (omega arith, (omega arith, tt))))

name_decode-name_encode_example :
    name_decode 2 (name_encode (www_text ++ dotted (com_text ∷ [])) ++ 9 ∷ [])
    ≡ decoded ((www_text ++ dotted (com_text ∷ [])) ++ 0 ∷ 0 ∷ 9 ∷ [])
name_decode-name_encode_example =
    name_decode-name_encode 2 www_text com_text [] (9 ∷ []) (www_bytes, (com_bytes, tt))
      www_text-IsLabel com_text-IsLabel tt (omega arith)

abbrev packet : List ℕ
packet = 3 ∷ b'c' ∷ b'o' ∷ b'm' ∷ 0 ∷ 3 ∷ b'w' ∷ b'w' ∷ b'w' ∷ 0xc0 ∷ 0 ∷ 0xc0 ∷ 11 ∷ []

abbrev www_part : List ℕ
www_part = 3 ∷ www_text

abbrev com_part : List ℕ
com_part = 3 ∷ com_text

www_part-IsPlain : All IsPlain www_part
www_part-IsPlain = (
  (omega arith, omega arith),
  ((omega arith, omega arith), ((omega arith, omega arith), ((omega arith, omega arith), tt))),
)

com_part-IsPlain : All IsPlain com_part
com_part-IsPlain = (
  (omega arith, omega arith),
  ((omega arith, omega arith), ((omega arith, omega arith), ((omega arith, omega arith), tt))),
)

read_name_compressed_example :
    read_name (4 + suc (4 + suc 2)) packet 5 (replicate 256 7)
    ≡ name_of
        (decoded ((www_text ++ dotted (com_text ∷ [])) ++ 0 ∷ 0 ∷ drop 9 (replicate 256 7)))
        (4 + 2)
read_name_compressed_example =
    read_name_compressed www_part com_part 2 packet 5 0xc0 0 (replicate 256 7) www_text com_text []
      (refl, (refl, (refl, (refl, tt)))) www_part-IsPlain refl refl (omega arith)
      (refl, (refl, (refl, (refl, tt)))) com_part-IsPlain refl refl www_text-IsLabel
      com_text-IsLabel tt (omega arith) (omega arith)

read_run : read_loop 12 packet 5 [] false 1 ≡ walked (label_bytes (www_text ∷ com_text ∷ [])) 6
unfolding read_loop
read_run = refl

root_run : read_loop 2 packet 4 [] false 1 ≡ walked [] 1
unfolding read_loop
root_run = refl

-- `www.com` with the address 10.0.0.9, and its alias.
abbrev response : List ℕ
response =
    3 ∷ b'w' ∷ b'w' ∷ b'w' ∷ 3 ∷ b'c' ∷ b'o' ∷ b'm' ∷ 0 ∷ 0xc0 ∷ 0 ∷ 0 ∷ 1 ∷ 0 ∷ 1 ∷ 0 ∷ 0 ∷ 0 ∷ 9
    ∷ 0 ∷ 4 ∷ 10 ∷ 0 ∷ 0 ∷ 9 ∷ 0xc0 ∷ 0 ∷ 0 ∷ 5 ∷ 0 ∷ 1 ∷ 0 ∷ 0 ∷ 0 ∷ 9 ∷ 0 ∷ 2 ∷ 0xc0 ∷ 4 ∷ []

abbrev response_name : List ℕ
response_name = codes "www.com" ++ 0 ∷ 0 ∷ []

response_name_run :
    (r : ℕ) → (r ≡ 9) ⊎ (r ≡ 25) → read_name 20 response r [] ≡ name_of (decoded response_name) 2
unfolding read_name name_decode
response_name_run r (inl e) = rw e refl
response_name_run r (inr e) = rw e refl

abbrev www_address : ℕ → Address
www_address n = record {
  first = www_text;
  second = com_text;
  others = [];
  hi = 0xc0;
  lo = 0;
  class0 = 0;
  class1 = 1;
  ttl0 = 0;
  ttl1 = 0;
  ttl2 = 0;
  ttl3 = 9;
  ip0 = 10;
  ip1 = 0;
  ip2 = 0;
  ip3 = n;
}

-- `www.com` with two addresses.
abbrev two_addresses : List Address
two_addresses = www_address 8 ∷ www_address 9 ∷ []

abbrev two_answers : List ℕ
two_answers =
    (3 ∷ b'w' ∷ b'w' ∷ b'w' ∷ 3 ∷ b'c' ∷ b'o' ∷ b'm' ∷ 0 ∷ []) ++ answers_bytes two_addresses

www_address-IsHost : (n : ℕ) → IsHost two_answers (www_address n)
www_address-IsHost n = record {
  pointer = omega arith;
  stands = (refl, (refl, (refl, (refl, (refl, (refl, (refl, (refl, tt))))))));
  ends = refl;
  plain = All-append IsPlain (3 ∷ www_text) (3 ∷ com_text) www_part-IsPlain com_part-IsPlain;
  first-IsLabel = www_text-IsLabel;
  second-IsLabel = com_text-IsLabel;
  others-IsLabel = tt;
  short = omega arith;
}

answers_stand : Stands two_answers 9 (answers_bytes two_addresses)
answers_stand = (
  refl,
  (
    refl,
    (
      refl,
      (
        refl,
        (
          refl,
          (
            refl,
            (
              refl,
              (
                refl,
                (
                  refl,
                  (
                    refl,
                    (
                      refl,
                      (
                        refl,
                        (
                          refl,
                          (
                            refl,
                            (
                              refl,
                              (
                                refl,
                                (
                                  refl,
                                  (
                                    refl,
                                    (
                                      refl,
                                      (
                                        refl,
                                        (
                                          refl,
                                          (
                                            refl,
                                            (
                                              refl,
                                              (
                                                refl,
                                                (
                                                  refl,
                                                  (
                                                    refl,
                                                    (
                                                      refl,
                                                      (refl, (refl, (refl, (refl, (refl, tt))))),
                                                    ),
                                                  ),
                                                ),
                                              ),
                                            ),
                                          ),
                                        ),
                                      ),
                                    ),
                                  ),
                                ),
                              ),
                            ),
                          ),
                        ),
                      ),
                    ),
                  ),
                ),
              ),
            ),
          ),
        ),
      ),
    ),
  ),
)

read_answers-answers_bytes_example :
    read_answers 600 two_answers (λ i. []) [] 2 0 9 ≡ kept (kept_all (λ i. []) 0 two_addresses) 41
read_answers-answers_bytes_example =
    read_answers-answers_bytes 600 two_answers (λ i. []) [] two_addresses 0 9 (omega arith)
      (omega arith) answers_stand (www_address-IsHost 8, (www_address-IsHost 9, tt))

-- The two answers as they are kept.
two_kept :
    kept_all (λ i. []) 0 two_addresses
    ≡ record { name = response_name; type = 1; rdata = 10 ∷ 0 ∷ 0 ∷ 8 ∷ [] }
      ∷ record { name = response_name; type = 1; rdata = 10 ∷ 0 ∷ 0 ∷ 9 ∷ [] }
      ∷ []
two_kept = refl

alias_run : older_read_name 20 response 37 ≡ older_name (codes "com") 2
unfolding older_read_name
alias_run = refl

type_run : (short_at response 27 ≡ some 5) × (short_at response 35 ≡ some 2)
unfolding short_at
type_run = (refl, refl)
