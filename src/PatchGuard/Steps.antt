-- ===== src/PatchGuard/Steps.antt =====
-- One round of the loop of `parse_search_replace` (scripts/a9_patch_guard.py).
use a.Prelude.{ℕ, suc, ◌+◌, ◌≡◌, true, false, Option, none, List, ◌∷◌}
use a.Text.{Text, strip}
use a.PatchGuard.Parse.{search_marker, is_marker, note_path, at_marker, parse_from}

pub parse-plain :
    (fuel index : ℕ) (last : Option (ℕ × Text)) (l : Text) (ls : List Text)
    → is_marker search_marker l ≡ false
    → parse_from (suc fuel) index last (l ∷ ls)
      ≡ parse_from fuel (index + 1) (note_path (index + 1) (strip l) last) ls
unfolding parse_from
parse-plain fuel index last l ls h = rw (h, parse_from)

pub parse-marker :
    (fuel index : ℕ) (last : Option (ℕ × Text)) (l : Text) (ls : List Text)
    → is_marker search_marker l ≡ true
    → parse_from (suc fuel) index last (l ∷ ls)
      ≡ at_marker index last ls (λ next rest. parse_from fuel next none rest)
unfolding parse_from
parse-marker fuel index last l ls h = rw (h, parse_from)
