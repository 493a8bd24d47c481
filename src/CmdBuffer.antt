-- ===== src/CmdBuffer.antt =====
-- The ring of commands of trivial/cmd-buffer.c.
mod Order
mod Owners
mod Tests
use c_playground.Common.{
  ℕ, suc, Bool, true, false, List, [], ◌∷◌, ◌==◌, if◌then◌else◌, get_or, set, ◌<◌, ◌≡◌, length,
}

abbrev pub max_len : ℕ
max_len = 2

-- A command is its pointer, and 0 stands for none.
pub record Buffer : Type 0 where
  pub cmds : List ℕ
  pub nr : ℕ
  pub nw : ℕ

unfoldable pub buffer_new : Buffer
buffer_new = record { cmds = 0 ∷ 0 ∷ []; nr = 0; nw = 0 }

unfoldable pub move_forward : ℕ → ℕ
move_forward x = if suc x == max_len then 0 else suc x

-- What `destroy` is called with in an offer, if it is given.
unfoldable pub destroyed_by : (destroys : Bool) → ℕ → List ℕ
destroyed_by false p = []
destroyed_by true p = if p == 0 then [] else p ∷ []

unfoldable pub buffer_offer : Buffer → ℕ → Buffer
buffer_offer b cmd =
    let nw = move_forward b.nw in
    record {
      cmds = set b.cmds b.nw cmd;
      nr = if b.nr == nw then move_forward b.nr else b.nr;
      nw = nw;
    }

unfoldable pub buffer_poll : Buffer → ℕ × Buffer
buffer_poll b =
    let p = get_or b.cmds b.nr 0 in
    if p == 0 then (0, b) else (p, record b { cmds = set b.cmds b.nr 0; nr = move_forward b.nr })

-- The places are inside of the array.
abbrev pub IsBuffer : Buffer → Type 0
IsBuffer b = (length b.cmds ≡ 2) × (b.nr < 2) × (b.nw < 2)
