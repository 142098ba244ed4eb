-- ===== src/Keys.antt =====
-- src/keydef.h: the keys of the remote, and `codeToIndex` of src/lirc_thr.c. The Linux event codes
-- are those that keydef.h defines. A name is the C string, up to its first NUL.
pub mod Lookup
use bdremote_ng.Prelude.{
  ℕ, ◌+◌, String, List, [], ◌∷◌, ℤ, pos, minus_one, ◌==◌, if◌then◌else◌, take,
}
use bdremote_ng.Text.{CString, codes}

-- `struct key_info`
pub record KeyInfo : Type 0 where
  pub name_orig : CString
  pub name_lirc : CString
  pub event_code : ℕ
  pub code : ℕ
  pub mask : ℕ

-- ps3remote_keyup
abbrev pub keyup_code : ℕ
keyup_code = 0xff

-- ps3remote_undef
abbrev pub undef : ℤ
undef = minus_one

-- ps3remote_num_keys
abbrev pub num_keys : ℕ
num_keys = 51

abbrev key : String → String → ℕ → ℕ → ℕ → KeyInfo
key orig lirc event code mask = record {
  name_orig = codes orig;
  name_lirc = codes lirc;
  event_code = event;
  code = code;
  mask = mask;
}

-- ps3remote_keys
unfoldable pub keys : List KeyInfo
keys =
    key "enter" "KEY_ENTER" 28 0x0b 0x080000
    ∷ key "ps" "KEY_POWER" 116 0x43 0x010000
    ∷ key "select" "KEY_SELECT" 0x161 0x50 0x000001
    ∷ key "l3" "BTN_C" 0x132 0x51 0x000002
    ∷ key "r3" "BTN_Z" 0x135 0x52 0x000004
    ∷ key "start" "BTN_START" 0x13b 0x53 0x000008
    ∷ key "up" "KEY_UP" 103 0x54 0x000010
    ∷ key "right" "KEY_RIGHT" 106 0x55 0x000020
    ∷ key "down" "KEY_DOWN" 108 0x56 0x000040
    ∷ key "left" "KEY_LEFT" 105 0x57 0x000080
    ∷ key "l2" "BTN_B" 0x131 0x58 0x000100
    ∷ key "r2" "BTN_Y" 0x134 0x59 0x000200
    ∷ key "l1" "BTN_A" 0x130 0x5a 0x000400
    ∷ key "r1" "BTN_X" 0x133 0x5b 0x000800
    ∷ key "triangle" "KEY_OPTION" 0x165 0x5c 0x001000
    ∷ key "circle" "KEY_BACK" 158 0x5d 0x002000
    ∷ key "cross" "KEY_CLEAR" 0x163 0x5e 0x004000
    ∷ key "square" "KEY_ZOOM" 0x174 0x5f 0x008000
    ∷ key "num1" "KEY_1" 2 0x00 0x000000
    ∷ key "num2" "KEY_2" 3 0x01 0x000000
    ∷ key "num3" "KEY_3" 4 0x02 0x000000
    ∷ key "num4" "KEY_4" 5 0x03 0x000000
    ∷ key "num5" "KEY_5" 6 0x04 0x000000
    ∷ key "num6" "KEY_6" 7 0x05 0x000000
    ∷ key "num7" "KEY_7" 8 0x06 0x000000
    ∷ key "num8" "KEY_8" 9 0x07 0x000000
    ∷ key "num9" "KEY_9" 10 0x08 0x000000
    ∷ key "num0" "KEY_0" 11 0x09 0x000000
    ∷ key "return" "KEY_MEDIA_REPEAT" 0x1b7 0x0e 0x000000
    ∷ key "clear" "KEY_CLEAR" 0x163 0x0f 0x000000
    ∷ key "eject" "KEY_EJECTCD" 161 0x16 0x000000
    ∷ key "topmenu" "KEY_MENU" 139 0x1a 0x000000
    ∷ key "time" "KEY_TIME" 0x167 0x28 0x000000
    ∷ key "prev" "KEY_PREVIOUS" 0x19c 0x30 0x000000
    ∷ key "next" "KEY_NEXT" 0x197 0x31 0x000000
    ∷ key "play" "KEY_PLAY" 207 0x32 0x000000
    ∷ key "scanrev" "KEY_REWIND" 168 0x33 0x000000
    ∷ key "scanfwd" "KEY_FORWARD" 159 0x34 0x000000
    ∷ key "stop" "KEY_STOP" 128 0x38 0x000000
    ∷ key "pause" "KEY_PAUSE" 119 0x39 0x000000
    ∷ key "popup" "KEY_CONTEXT_MENU" 0x1b6 0x40 0x000000
    ∷ key "steprev" "KEY_FRAMEBACK" 0x1b4 0x60 0x000000
    ∷ key "stepfwd" "KEY_FRAMEFORWARD" 0x1b5 0x61 0x000000
    ∷ key "subtitle" "KEY_SUBTITLE" 0x172 0x63 0x000000
    ∷ key "audio" "KEY_AUDIO" 0x188 0x64 0x000000
    ∷ key "angle" "KEY_ANGLE" 0x173 0x65 0x000000
    ∷ key "display" "KEY_INFO" 0x166 0x70 0x000000
    ∷ key "blue" "KEY_BLUE" 0x191 0x80 0x000000
    ∷ key "red" "KEY_RED" 0x18e 0x81 0x000000
    ∷ key "green" "KEY_GREEN" 0x18f 0x82 0x000000
    ∷ key "yellow" "KEY_YELLOW" 0x190 0x83 0x000000
    ∷ []

-- The loop of codeToIndex from index `i` on, over the keys that are left.
code_to_index_from : ℕ → ℕ → List KeyInfo → ℤ
code_to_index_from code i [] = undef
code_to_index_from code i (k ∷ ks) =
    if code == k.code then pos i else code_to_index_from code (i + 1) ks

-- codeToIndex
unfoldable pub code_to_index : ℕ → ℤ
unfolding code_to_index_from
code_to_index code = code_to_index_from code 0 (take num_keys keys)
