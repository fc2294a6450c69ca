-- ===== src/Relay/Revert.antt =====
-- internal/relay/watcher.go, `cleanRevertString`, on the bytes of a text.
use txmill.Base.{after_prefix, [], ◌∷◌, Option, none, some, Bytes, bytes, trim_space}

abbrev first_of_two : Option Bytes → Option Bytes → Option Bytes
first_of_two (some s) later = some s
first_of_two none later = later

-- What follows the first occurrence of `sep`, if it occurs.
unfoldable pub after_first : Bytes → Bytes → Option Bytes
after_first sep [] = after_prefix sep []
after_first sep (b ∷ s) = first_of_two (after_prefix sep (b ∷ s)) (after_first sep s)

abbrev pub revert_prefix : Bytes
revert_prefix = bytes "execution reverted: "

unfoldable pub clean_revert_string : Bytes → Bytes
unfolding after_prefix after_first
clean_revert_string s = elim (after_first revert_prefix s) [
  | some rest ↦ trim_space rest
  | none ↦ trim_space s
]
