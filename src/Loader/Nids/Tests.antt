-- ===== src/Loader/Nids/Tests.antt =====
-- Runs and a witness for the table of known names.
use anotherps4_emulator.Common.{◌≡◌, refl, none}
use anotherps4_emulator.Common.Text.{codes}
use anotherps4_emulator.Loader.Nids.{lookup_known_nid, find_nid, before_hash}

unknown_run : lookup_known_nid (codes "atexit") ≡ none
unfolding lookup_known_nid find_nid before_hash
unknown_run = refl
