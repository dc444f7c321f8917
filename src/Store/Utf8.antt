-- ===== src/Store/Utf8.antt =====
-- The strings of a state that JSON keeps: json.Marshal replaces what is not UTF-8 (utf8.Valid).
use rct_hub_backend.Base.{
  ℕ, zero, suc, Bool, true, false, ◌&&◌, Text, List, [], ◌∷◌, Option, none, some, Map, all, leb,
  ◌++◌, ◌==◌, nat_Eq, if◌then◌else◌,
}
use rct_hub_backend.Model.State.{State, PoolSlot, Board}

abbrev within : ℕ → ℕ → ℕ → Bool
within low high c = leb low c && leb c high

-- After a leading byte: how many bytes continue it, and the bounds of the first of them.
pub record Lead : Type 0 where
  pub count : ℕ
  pub low : ℕ
  pub high : ℕ

abbrev lead_of : ℕ → Option Lead
lead_of c =
    if leb c 0x7f
    then some (record { count = 0; low = 0x80; high = 0xbf })
    else if within 0xc2 0xdf c
    then some (record { count = 1; low = 0x80; high = 0xbf })
    else if c == 0xe0
    then some (record { count = 2; low = 0xa0; high = 0xbf })
    else if c == 0xed
    then some (record { count = 2; low = 0x80; high = 0x9f })
    else if within 0xe1 0xef c
    then some (record { count = 2; low = 0x80; high = 0xbf })
    else if c == 0xf0
    then some (record { count = 3; low = 0x90; high = 0xbf })
    else if within 0xf1 0xf3 c
    then some (record { count = 3; low = 0x80; high = 0xbf })
    else if c == 0xf4
    then some (record { count = 3; low = 0x80; high = 0x8f })
    else none

-- The rest of a string, with so many bytes of a character to come, the next within the bounds.
unfoldable pub continues : ℕ → ℕ → ℕ → Text → Bool
continues zero low high [] = true
continues (suc n) low high [] = false
continues zero low high (c ∷ s) = elim (lead_of c) [
  | none ↦ false
  | some lead ↦ continues lead.count lead.low lead.high s
]
continues (suc n) low high (c ∷ s) = within low high c && continues n 0x80 0xbf s

unfoldable pub valid : Text → Bool
valid s = continues 0 0x80 0xbf s

unfoldable pub slot_texts : Map Text PoolSlot → List Text
slot_texts [] = []
slot_texts ((key, slot) ∷ slots) = key ∷ slot.id ∷ slot_texts slots

unfoldable pub board_texts : Board → List Text
board_texts [] = []
board_texts ((cell, piece) ∷ pieces) =
    cell ∷ piece.id ∷ piece.source_pool_slot_id ∷ board_texts pieces

-- The strings of a state but for its enumerations.
unfoldable pub state_texts : State → List Text
state_texts s =
    s.timers.preset_id
      ∷ s.pending_piece_id
      ∷ s.abort_reason
      ∷ elim s.pending_tb_request [ none ↦ [] | some request ↦ request.id ∷ [] ]
    ++ elim s.tb_entry [ none ↦ [] | some entry ↦ entry.request_id ∷ [] ]
    ++ elim s.suspension [ none ↦ [] | some suspension ↦ suspension.reason ∷ [] ]
    ++ slot_texts s.pool_slots
    ++ board_texts s.board

unfoldable pub is_utf8 : State → Bool
is_utf8 s = all valid (state_texts s)
