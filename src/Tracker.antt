-- ===== src/Tracker.antt =====
-- The pure parts of the process tracker (src/LayerMount.dll/impl/ProcessTracker.cpp: CsvEscape,
-- WildcardMatch). A text is its characters.
mod Tests
pub mod Operations
pub mod Log
pub mod Access
pub mod Fields
pub mod Wildcards
use layer_mount.Base.{
  ℕ, suc, zero, ◌-◌, Bool, true, false, ◌&&◌, ◌||◌, Option, none, some, List, [], ◌∷◌, ◌++◌, map,
}
use layer_mount.Base.{◌==◌, eq_nat, eq_list, if◌then◌else◌, codes, length, take, drop, ltb}
use layer_mount.Layer.Disk.{WString}
use layer_mount.Layer.Names.{TextService}

abbrev pub quote : ℕ
quote = 34

abbrev pub apostrophe : ℕ
apostrophe = 39

abbrev pub star : ℕ
star = 42

-- `=`, `+`, `-`, `@`, tab and carriage return.
unfoldable pub starts_formula : WString → Bool
starts_formula [] = false
starts_formula (f ∷ rest) = (f == 61 || (f == 43 || f == 45)) || (f == 64 || (f == 9 || f == 13))

-- Whether a comma, a quote or an end of line is in the field.
unfoldable pub has_special : WString → Bool
has_special [] = false
has_special (c ∷ rest) =
    if c == 44 || (c == quote || (c == 10 || c == 13)) then true else has_special rest

unfoldable pub double_quotes : WString → WString
double_quotes [] = []
double_quotes (c ∷ rest) =
    let doubled = double_quotes rest in if c == quote then quote ∷ quote ∷ doubled else c ∷ doubled

unfoldable pub csv_escape : WString → WString
unfolding starts_formula has_special double_quotes
csv_escape field =
    if starts_formula field
    then quote ∷ apostrophe ∷ (double_quotes field ++ quote ∷ [])
    else if has_special field
    then quote ∷ (double_quotes field ++ quote ∷ [])
    else field

-- The position of the first star.
unfoldable pub star_position : WString → Option ℕ
star_position [] = none
star_position (c ∷ rest) =
    if c == star then some 0 else elim (star_position rest) [ none ↦ none | some i ↦ some (suc i) ]

unfoldable pub starts_with : WString → WString → Bool
starts_with prefix t =
    if ltb (length t) (length prefix) then false else take (length prefix) t == prefix

unfoldable pub ends_with : WString → WString → Bool
ends_with suffix t =
    if ltb (length t) (length suffix) then false else drop (length t - length suffix) t == suffix

unfoldable pub contains : WString → WString → Bool
unfolding starts_with
contains middle [] = starts_with middle []
contains middle (c ∷ rest) = starts_with middle (c ∷ rest) || contains middle rest

-- The forms of a lowered pattern that has its first star at a position.
unfoldable pub match_star : WString → WString → ℕ → Bool
unfolding contains starts_with ends_with
match_star pattern t position =
    let at_start = position == 0 in
    let at_end = position == length pattern - 1 in
    if at_start && (at_end && length pattern == 1)
    then true
    else if at_start && at_end
    then contains (take (length pattern - 2) (drop 1 pattern)) t
    else if at_start
    then ends_with (drop 1 pattern) t
    else if at_end
    then starts_with (take position pattern) t
    else false

abbrev pub is_empty : WString → Bool
is_empty [] = true
is_empty (c ∷ rest) = false

module _ (text : TextService) where
  unfoldable pub match_lowered : WString → WString → Option ℕ → Bool
  unfolding match_star
  match_lowered pattern t none = pattern == t
  match_lowered pattern t (some position) = match_star pattern t position

  unfoldable pub wildcard_match : WString → WString → Bool
  unfolding match_lowered star_position
  wildcard_match pattern t =
      if pattern == codes "*"
      then true
      else if is_empty pattern
      then is_empty t
      else match_lowered (map text.lower pattern) (map text.lower t)
          (star_position (map text.lower pattern))
