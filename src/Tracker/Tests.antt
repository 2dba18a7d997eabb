-- ===== src/Tracker/Tests.antt =====
-- A field and a pattern, with the properties of the process tracker applied to them.
use layer_mount.Base.{◌≡◌, ◌↔◌, ◌++◌, refl, false, ◌∷◌, codes, if◌then◌else◌, map}
use layer_mount.Base.{ℕ, ◌-◌, min, arith, ◌&&◌, not, true, [], length, drop}
use layer_mount.Layer.Disk.{WString}
use layer_mount.Layer.Tests.{ascii}
use layer_mount.Tracker.Access.{
  AccessLogEntry, ProcessInfo, ProcessTracker, check_access, resolve_process, evaluate_rules,
  apply_rule,
}
use layer_mount.Tracker.Access.Decisions.{check_access-Decides, event_about, told}
use layer_mount.Tracker.Access.Rules.{Decides}
use layer_mount.Tracker.Log.{get_recent_entries, new_log}
use layer_mount.Tracker.Log.Recent.{add_all, get_recent_entries-add_all}
use layer_mount.Tracker.Log.Window.{IsShown-new_log}
use layer_mount.Tracker.{apostrophe, starts_formula, csv_escape, ends_with, wildcard_match}
use layer_mount.Tracker.Fields.{read_field, read_field-csv_escape}
use layer_mount.Tracker.Operations.{
  class_count, class_count_lem, ends_handle, rename, open_op, is_read_op, is_write_op,
}
use layer_mount.Tracker.Wildcards.{wildcard_match-star}

read_field-csv_escape_example :
    (read_field (csv_escape (codes "=A,B") ++ codes ",C") ≡ (
      (if starts_formula (codes "=A,B") then apostrophe ∷ codes "=A,B" else codes "=A,B"),
      codes ",C",
    ))
    × (starts_formula (read_field (csv_escape (codes "=A,B") ++ codes ",C")).0 ≡ false)
read_field-csv_escape_example = read_field-csv_escape (codes "=A,B") (codes ",C") refl

wildcard_match-star_example : (wildcard_match ascii (codes "*ab*") (codes "xAB*") ≡ true) ↔ (
    (front : WString) × (map ascii.lower (codes "xAB*") ≡ front ++ map ascii.lower (codes "ab*")))
wildcard_match-star_example = wildcard_match-star ascii b'a' (codes "b*") (codes "xAB*") refl

middle_missed : wildcard_match ascii (codes "*ab*") (codes "xABy") ≡ false
unfolding wildcard_match ends_with
middle_missed = refl

class_count_lem_example : class_count rename ≡ (if ends_handle rename then 0 else 1)
class_count_lem_example = class_count_lem rename

-- Five entries through a ring of three.
get_recent_entries-add_all_example :
    get_recent_entries (add_all (new_log 3 0) (codes "abcde")) 0 2
    ≡ drop (length (codes "abcde") - min 2 3) (codes "abcde")
get_recent_entries-add_all_example = get_recent_entries-add_all 3 0 (codes "abcde") 2 (omega arith)

abbrev no_entry : AccessLogEntry
no_entry = record {
  pid = 0;
  process_name = [];
  file_path = [];
  operation = open_op;
  timestamp = 0;
  allowed = true;
  reason = [];
}

abbrev any_process : ℕ → ProcessInfo
any_process pid = record {
  pid = pid;
  name = codes "a.exe";
  exe_path = [];
  command_line = [];
  user = [];
  elevated = false;
}

-- A process that may read below a pattern, not write.
abbrev reader : ProcessTracker
unfolding new_log
reader = record {
  rules =
      record {
        process_name_pattern = codes "a*";
        path_pattern = codes "*";
        allow_read = true;
        allow_write = false;
        allow_execute = true;
        allow_delete = true;
      }
      ∷ [];
  process_info_cache = [];
  log = new_log 2 no_entry;
  has_emitter = true;
  emitted = [];
}

check_access-Decides_example :
    let checked = check_access ascii any_process reader 1 2 7 (codes "f") rename in
    let name = (resolve_process any_process reader 1 7).1.name in
    Decides ascii name (codes "f") rename reader.rules checked.1
    × (map told (get_recent_entries checked.0.log no_entry 1)
        ≡ (7, codes "f", rename, checked.1) ∷ [])
    × (map event_about checked.0.emitted ≡ (
        if not checked.1 && reader.has_emitter
        then (7, codes "f") ∷ map event_about reader.emitted
        else map event_about reader.emitted))
unfolding new_log
check_access-Decides_example =
    check_access-Decides ascii any_process reader [] no_entry 1 2 7 (codes "f") rename (omega arith)
      (IsShown-new_log 2 no_entry (omega arith))

denied : (check_access ascii any_process reader 1 2 7 (codes "f") rename).1 ≡ false
unfolding check_access evaluate_rules resolve_process reader wildcard_match apply_rule is_read_op
    is_write_op
denied = refl
