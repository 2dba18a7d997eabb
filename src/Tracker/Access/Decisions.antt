-- ===== src/Tracker/Access/Decisions.antt =====
-- What a check of an access does (src/LayerMount.dll/impl/ProcessTracker.cpp: CheckAccess): the
-- decision, the entry in the log and the event.
use layer_mount.Base.{
  ℕ, ◌<◌, Bool, true, false, not, ◌&&◌, List, [], ◌∷◌, ◌≡◌, refl, map, length, some, none,
  if◌then◌else◌, Option, arith, drop, ap, ◌∙◌, ◌++◌, length-append,
}
use layer_mount.Layer.Disk.{WString}
use layer_mount.Layer.Names.{TextService}
use layer_mount.Tracker.Operations.{OperationType}
use layer_mount.Tracker.Log.{Log, add_log_entry, get_recent_entries}
use layer_mount.Tracker.Log.Window.{IsShown, IsShown-add_log_entry}
use layer_mount.Tracker.Log.Recent.{recent-drop}
use layer_mount.Tracker.Access.{
  ProcessInfo, AccessLogEntry, ProcessTracker, resolve_process, find_process, fresh_info,
  check_access, record_access, DeniedEvent, resolve_miss,
}
use layer_mount.Tracker.Access.Rules.{Decides, evaluate_rules-Decides}

-- What an entry says of an access.
abbrev pub told : AccessLogEntry → ℕ × WString × OperationType × Bool
told entry = (entry.pid, entry.file_path, entry.operation, entry.allowed)

-- The process and path that an event names.
abbrev pub event_about : DeniedEvent → ℕ × WString
event_about event = (event.pid, event.relative_path)

drop-length {ℓ} : {A : Type ℓ} (xs : List A) (x : A) → drop (length xs) (xs ++ x ∷ []) ≡ x ∷ []
drop-length [] x = refl
drop-length (y ∷ ys) x = drop-length ys x

newest :
    (log : Log AccessLogEntry) (history : List AccessLogEntry)
    (default_entry entry : AccessLogEntry)
    → 0 < log.capacity
    → IsShown log history
    → get_recent_entries (add_log_entry log entry) default_entry 1 ≡ entry ∷ []
unfolding add_log_entry
newest log history default_entry entry positive shown =
    recent-drop (add_log_entry log entry) (history ++ entry ∷ []) default_entry 1 positive
      (IsShown-add_log_entry log history entry positive shown)
    ∙ ap (λ k. drop k (history ++ entry ∷ []))
        (omega (arith, length-append history (entry ∷ []), positive))
    ∙ drop-length history entry

map-if :
    (sends : Bool) (event : DeniedEvent) (events : List DeniedEvent)
    → map event_about (if sends then event ∷ events else events)
      ≡ (if sends then event_about event ∷ map event_about events else map event_about events)
map-if true event events = refl
map-if false event events = refl

-- The tracker after a process was looked up.
abbrev IsKept : ProcessTracker → ProcessTracker → Type 0
IsKept before after =
    (after.rules ≡ before.rules)
    × (after.log ≡ before.log)
    × (after.has_emitter ≡ before.has_emitter)
    × (after.emitted ≡ before.emitted)

module _ (resolve_process_uncached : ℕ → ProcessInfo) where
  missed-IsKept :
      (tracker : ProcessTracker) (now pid : ℕ) (cached : Option ProcessInfo)
      → IsKept tracker (resolve_miss resolve_process_uncached tracker now pid cached).0
  missed-IsKept tracker now pid none = (refl, refl, refl, refl)
  missed-IsKept tracker now pid (some info) = (refl, refl, refl, refl)

  resolve_process-IsKept :
      (tracker : ProcessTracker) (now pid : ℕ)
      → IsKept tracker (resolve_process resolve_process_uncached tracker now pid).0
  unfolding resolve_process
  resolve_process-IsKept tracker now pid =
      missed-IsKept tracker now pid (fresh_info (find_process tracker.process_info_cache pid) now)

module _ (text : TextService) (resolve_process_uncached : ℕ → ProcessInfo) where
  -- In a tracker whose log shows a history, over a positive capacity: a check gives the decision
  -- of the first rule that matches the process and the path, its newest log entry says that
  -- decision of that access, and the host gets one event more, about that access, exactly where
  -- it was denied and there is an emitter.
  pub check_access-Decides :
      (tracker : ProcessTracker) (history : List AccessLogEntry) (default_entry : AccessLogEntry)
      (now timestamp pid : ℕ) (path : WString) (op : OperationType)
      → 0 < tracker.log.capacity
      → IsShown tracker.log history
      → let checked =
          check_access text resolve_process_uncached tracker now timestamp pid path op in
        let name = (resolve_process resolve_process_uncached tracker now pid).1.name in
        Decides text name path op tracker.rules checked.1
        × (map told (get_recent_entries checked.0.log default_entry 1)
            ≡ (pid, path, op, checked.1) ∷ [])
        × (map event_about checked.0.emitted ≡ (
            if not checked.1 && tracker.has_emitter
            then (pid, path) ∷ map event_about tracker.emitted
            else map event_about tracker.emitted))
  unfolding check_access record_access
  check_access-Decides tracker history default_entry now timestamp pid path op positive shown =
      let resolved = resolve_process resolve_process_uncached tracker now pid in
      let kept = resolve_process-IsKept resolve_process_uncached tracker now pid in
      (
        rw kept.0 (evaluate_rules-Decides text resolved.1.name path op tracker.rules),
        rw kept.1 (ap (map told) (newest tracker.log history default_entry _ positive shown)),
        rw (kept.2, kept.3) (map-if _ _ tracker.emitted),
      )
