-- ===== src/DdlConv/Tests.antt =====
-- Lines of a table's definition.
use c_playground.Common.{◌≡◌, refl, none, some, [], ◌∷◌, ◌++◌, codes, arith}
use c_playground.DdlConv.Lines.{Field, initial, handle_line-column}
use c_playground.DdlConv.Types.{Spelled, unsigned}
use c_playground.DdlConv.{
  next_loop, next_item, key_word, underscore_here, last_underscore, key_change, with_rest,
  key_memory, handle_key, int_type, type_of, handle_type, with_type, line_items, line_behind,
  handle_line,
}

line_unsigned :
    handle_line (codes "class_b int(10) unsigned," ++ (10 ∷ 0 ∷ []))
    ≡ some (codes "ClassB", codes "uint32")
unfolding handle_line handle_key key_word key_memory with_rest key_change last_underscore
    underscore_here next_item next_loop line_behind line_items with_type handle_type type_of
    int_type
line_unsigned = refl

line_plain :
    handle_line (codes "name  varchar(20)," ++ (10 ∷ 0 ∷ [])) ≡ some (codes "Name", codes "string")
unfolding handle_line handle_key key_word key_memory with_rest key_change last_underscore
    underscore_here next_item next_loop line_behind line_items with_type handle_type type_of
    int_type
line_plain = refl

-- A line without a word leaves the memory behind its NUL.
line_blank : handle_line (0 ∷ []) ≡ none
unfolding handle_line handle_key key_word key_memory line_behind
line_blank = refl

-- The copy that moves two letters over an underscore.
line_overlap : handle_line (codes "user_id bigint," ++ (10 ∷ 0 ∷ [])) ≡ none
unfolding handle_line handle_key key_word key_memory with_rest key_change last_underscore
    underscore_here line_behind
line_overlap = refl

class_b : Field (codes "class_b") (codes "ClassB")
class_b =
    initial (codes "class") b'b'
      (
        (omega arith, refl, omega arith),
        (
          (omega arith, refl, omega arith),
          (
            (omega arith, refl, omega arith),
            ((omega arith, refl, omega arith), ((omega arith, refl, omega arith), tt)),
          ),
        ),
      )
      (omega arith, refl, omega arith)

unsigned_int : Spelled (codes "int(10)  unsigned," ++ (10 ∷ 0 ∷ [])) (codes "uint32")
unsigned_int =
    unsigned b'i' (codes "nt(10)") 32 (32 ∷ []) (codes "nsigned," ++ (10 ∷ 0 ∷ [])) refl
      (refl, (refl, (refl, (refl, (refl, (refl, tt)))))) (refl, (refl, tt))

handle_line-column_example :
    handle_line (codes "class_b" ++ (32 ∷ ([] ++ (codes "int(10)  unsigned," ++ (10 ∷ 0 ∷ [])))))
    ≡ some (codes "ClassB", codes "uint32")
handle_line-column_example =
    handle_line-column (codes "class_b") (codes "ClassB") 32 []
      (codes "int(10)  unsigned," ++ (10 ∷ 0 ∷ [])) (codes "uint32") class_b (refl, tt) unsigned_int
