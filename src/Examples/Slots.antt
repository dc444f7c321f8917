-- ===== src/Examples/Slots.antt =====
-- The theorems on the texts of pool slots, each at one input.
use rct_hub_backend.Base.{◌≡◌, refl, true, some, codes, contains, text_Eq, ◌++◌, ◌<◌, arith}
use rct_hub_backend.Base.Int.{pos, max_int64}
use rct_hub_backend.Domain.Pool.{compact_mods, slot_text, itoa, is_known_text, parse_pool_slot}
use rct_hub_backend.Domain.Names.{parse_pool_slot-slot_text, parse_pool_slot-compact}

shiro_known : is_known_text (codes "Shiro") ≡ true
unfolding is_known_text contains rct_hub_backend.Base.text_eq
shiro_known = refl

free_compact : contains (codes "FM") compact_mods ≡ true
unfolding contains rct_hub_backend.Base.text_eq
free_compact = refl

eleven_fits : 11 < max_int64
eleven_fits = omega arith

parse_pool_slot-slot_text_example :
    parse_pool_slot (slot_text (record { slot_mod = codes "Shiro"; index = pos 12 }))
    ≡ some (record { slot_mod = codes "Shiro"; index = pos 12 })
parse_pool_slot-slot_text_example =
    parse_pool_slot-slot_text (codes "Shiro") 11 shiro_known eleven_fits

parse_pool_slot-compact_example :
    parse_pool_slot (codes "FM" ++ itoa (pos 12))
    ≡ some (record { slot_mod = codes "FM"; index = pos 12 })
parse_pool_slot-compact_example = parse_pool_slot-compact (codes "FM") 11 free_compact eleven_fits
