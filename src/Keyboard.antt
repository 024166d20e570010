-- ===== src/Keyboard.antt =====
-- Kernel/drives/Keyboard.c and the interrupt of the keyboard in Kernel/kernel/pic.c: the translation of
-- scan codes and the ring of keys. A scan code that the port gives is an argument; a routine runs with
-- interrupts off.
pub mod Ring
mod Tests
use os.Base.{
  ℕ, ◌+◌, ◌-◌, ◌%◌, Bool, true, false, ◌||◌, ltb, leb, ◌==◌, if◌then◌else◌, List, [], ◌∷◌, get_or,
  set,
}

-- SYSTEM_KeyboardBuffer, kbbuffer_write_index, kbbuffer_read_index, kbbuffer_count, shift_pressed
pub record Keyboard : Type 0 where
  pub buffer : List ℕ
  pub write_index : ℕ
  pub read_index : ℕ
  pub count : ℕ
  pub shift_pressed : Bool

-- KEYBOARD_BUFFER_SIZE
abbrev pub buffer_size : ℕ
buffer_size = 256

-- The tables up to their last entry that is not zero
abbrev pub scan_to_ascii : List ℕ
scan_to_ascii =
    0
    ∷ (0
        ∷ (49
            ∷ (50
                ∷ (51
                    ∷ (52
                        ∷ (53
                            ∷ (54
                                ∷ (55
                                    ∷ (56
                                        ∷ (57
                                            ∷ (48
                                                ∷ (45
                                                    ∷ (61
                                                        ∷ (8
                                                            ∷ (9
                                                            ∷ (113
                                                            ∷ (119
                                                            ∷ (101
                                                            ∷ (114
                                                            ∷ (116
                                                            ∷ (121
                                                            ∷ (117
                                                            ∷ (105
                                                            ∷ (111
                                                            ∷ (112
                                                            ∷ (91
                                                            ∷ (93
                                                            ∷ (10
                                                            ∷ (0
                                                            ∷ (97
                                                            ∷ (115
                                                            ∷ (100
                                                            ∷ (102
                                                            ∷ (103
                                                            ∷ (104
                                                            ∷ (106
                                                            ∷ (107
                                                            ∷ (108
                                                            ∷ (59
                                                            ∷ (39
                                                            ∷ (96
                                                            ∷ (0
                                                            ∷ (92
                                                            ∷ (122
                                                            ∷ (120
                                                            ∷ (99
                                                            ∷ (118
                                                            ∷ (98
                                                            ∷ (110
                                                            ∷ (109
                                                            ∷ (44
                                                            ∷ (46
                                                            ∷ (47 ∷ (0 ∷ (42 ∷ (0 ∷ (32 ∷ []))))))))
                                                            ))))))))))))))))))))))))))))))))))))))))
                                                            )))))))))

abbrev pub scan_to_ascii_1 : List ℕ
scan_to_ascii_1 =
    0
    ∷ (0
        ∷ (33
            ∷ (64
                ∷ (35
                    ∷ (36
                        ∷ (37
                            ∷ (94
                                ∷ (38
                                    ∷ (42
                                        ∷ (40
                                            ∷ (41
                                                ∷ (95
                                                    ∷ (43
                                                        ∷ (8
                                                            ∷ (9
                                                            ∷ (81
                                                            ∷ (87
                                                            ∷ (69
                                                            ∷ (82
                                                            ∷ (84
                                                            ∷ (89
                                                            ∷ (85
                                                            ∷ (73
                                                            ∷ (79
                                                            ∷ (80
                                                            ∷ (123
                                                            ∷ (125
                                                            ∷ (10
                                                            ∷ (0
                                                            ∷ (65
                                                            ∷ (83
                                                            ∷ (68
                                                            ∷ (70
                                                            ∷ (71
                                                            ∷ (72
                                                            ∷ (74
                                                            ∷ (75
                                                            ∷ (76
                                                            ∷ (58
                                                            ∷ (34
                                                            ∷ (126
                                                            ∷ (0
                                                            ∷ (124
                                                            ∷ (90
                                                            ∷ (88
                                                            ∷ (67
                                                            ∷ (86
                                                            ∷ (66
                                                            ∷ (78
                                                            ∷ (77
                                                            ∷ (60
                                                            ∷ (62
                                                            ∷ (63 ∷ (0 ∷ (42 ∷ (0 ∷ (32 ∷ []))))))))
                                                            ))))))))))))))))))))))))))))))))))))))))
                                                            )))))))))

-- _getkey_noblock, for the scan code at the port
unfoldable pub getkey_noblock : Keyboard → ℕ → ℕ × Keyboard
getkey_noblock k scancode =
    if (scancode == 0x2A) || (scancode == 0x36)
    then (0, record k { shift_pressed = true })
    else (if (scancode == 0xAA) || (scancode == 0xB6)
        then (0, record k { shift_pressed = false })
        else (if leb 0x80 scancode then (0, k) else (
          get_or (if k.shift_pressed then scan_to_ascii_1 else scan_to_ascii) scancode 0,
          k,
        )))

-- The part of irq_1 that keeps a key
unfoldable pub push : Keyboard → ℕ → Keyboard
push k key =
    if key == 0
    then k
    else (if ltb k.count buffer_size
        then record k {
          buffer = set k.buffer k.write_index key;
          write_index = (k.write_index + 1) % buffer_size;
          count = k.count + 1;
        }
        else k)

-- irq_1
unfoldable pub irq_1 : Keyboard → ℕ → Keyboard
irq_1 k scancode = let (key, k') = getkey_noblock k scancode in push k' key

-- GetKey_NoBlock; GetKey waits for a key first.
unfoldable pub get_key : Keyboard → ℕ × Keyboard
get_key k = if k.count == 0 then (0, k) else (
  get_or k.buffer k.read_index 0,
  record k {
    buffer = set k.buffer k.read_index 0;
    read_index = (k.read_index + 1) % buffer_size;
    count = k.count - 1;
  },
)
