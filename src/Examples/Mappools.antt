-- ===== src/Examples/Mappools.antt =====
-- The theorems on mappools and turns, each at one input.
use rct_hub_backend.Base.{
  ◌≡◌, ◌≢◌, ◌↔◌, refl, true, some, none, [], ◌∷◌, ℕ, Bool, List, arith, ◌&&◌, ◌==◌,
}
use rct_hub_backend.Base.Int.{pos, negsuc, max_int64}
use rct_hub_backend.Model.Kinds.{Mod, mod_Eq}
use rct_hub_backend.Domain.Entities.{Side}
use rct_hub_backend.Domain.Mappool.{
  MappoolEntry, is_known_piece_mod, validate_entries, has_tb_entry, sorted_entries, sorted_group,
}
use rct_hub_backend.Domain.Entries.{slots_valid, validate_entries-slots_valid}
use rct_hub_backend.Domain.Sorting.{count, count-sorted_entries, ascending, sorted_group-ascending}
use rct_hub_backend.Domain.Turn.{BpOrder, start_ban, new_turn_state, next}
use rct_hub_backend.Domain.Order.{in_order, start_ban-in_order, next-in_order}

abbrev entry : Mod → ℕ → MappoolEntry
entry m i = record {
  beatmap_id = some (pos 5);
  entry_mod = m;
  index = pos i;
  selector_id = none;
  skill = none;
}

abbrev mappool : List MappoolEntry
mappool =
    entry Mod.tb 1 ∷ entry Mod.hd 2 ∷ entry Mod.hd 1 ∷ entry Mod.nm 1 ∷ entry Mod.unknown 1 ∷ []

abbrev is_hd : MappoolEntry → Bool
is_hd x = x.entry_mod == Mod.hd

abbrev order : BpOrder
order = record { first_pick = Side.blue; first_ban = Side.red }

negative_counter : negsuc 2 ≢ pos max_int64
negative_counter = ground arith

validate_entries-slots_valid_example :
    (validate_entries mappool ≡ []) ↔ ((slots_valid [] mappool && has_tb_entry mappool) ≡ true)
validate_entries-slots_valid_example = validate_entries-slots_valid mappool

count-sorted_entries_example :
    count is_hd (sorted_entries mappool)
    ≡ count (λ x. is_known_piece_mod x.entry_mod && is_hd x) mappool
count-sorted_entries_example = count-sorted_entries is_hd mappool

sorted_group-ascending_example : ascending (sorted_group Mod.hd mappool) ≡ true
sorted_group-ascending_example = sorted_group-ascending Mod.hd mappool

next-in_order_example : in_order order (next order 9 (start_ban order 5 new_turn_state)) ≡ true
unfolding start_ban
next-in_order_example =
    next-in_order order 9 (start_ban order 5 new_turn_state) refl refl negative_counter
      (start_ban-in_order order 5 new_turn_state)
