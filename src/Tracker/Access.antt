-- ===== src/Tracker/Access.antt =====
-- Who may do what (src/LayerMount.dll/impl/ProcessTracker.cpp: ResolveProcess, CheckAccess,
-- LogAccess). The queries about a process are a parameter, and so are the two clocks' readings. The
-- locks are left out: each operation is one step.
pub mod Rules
pub mod Decisions
use layer_mount.Base.{ℕ, ◌+◌, Bool, true, false, ◌&&◌, not, Option, none, some, List, [], ◌∷◌, ◌++◌}
use layer_mount.Base.{◌==◌, eq_nat, if◌then◌else◌, codes, ltb}
use layer_mount.Layer.Disk.{WString}
use layer_mount.Layer.Names.{TextService}
use layer_mount.Tracker.{wildcard_match, is_empty}
use layer_mount.Tracker.Log.{Log, add_log_entry}
use layer_mount.Tracker.Operations.{
  OperationType, is_read_op, is_write_op, is_delete_op, is_execute_op,
}

pub record ProcessInfo : Type 0 where
  pub pid : ℕ
  pub name : WString
  pub exe_path : WString
  pub command_line : WString
  pub user : WString
  pub elevated : Bool

pub record CachedProcessInfo : Type 0 where
  pub info : ProcessInfo
  pub expires_at : ℕ

pub record AccessLogEntry : Type 0 where
  pub pid : ℕ
  pub process_name : WString
  pub file_path : WString
  pub operation : OperationType
  pub timestamp : ℕ
  pub allowed : Bool
  pub reason : WString

pub record AccessRule : Type 0 where
  pub process_name_pattern : WString
  pub path_pattern : WString
  pub allow_read : Bool
  pub allow_write : Bool
  pub allow_execute : Bool
  pub allow_delete : Bool

-- A denied access, as the host's callback gets it.
pub record DeniedEvent : Type 0 where
  pub relative_path : WString
  pub detail : Option WString
  pub pid : ℕ

-- The events that went to the emitter are kept in their order, the newest first.
pub record ProcessTracker : Type 0 where
  pub rules : List AccessRule
  pub process_info_cache : List (ℕ × CachedProcessInfo)
  pub log : Log AccessLogEntry
  pub has_emitter : Bool
  pub emitted : List DeniedEvent

abbrev pub find_process : List (ℕ × CachedProcessInfo) → ℕ → Option CachedProcessInfo
find_process [] pid = none
find_process ((p, cached) ∷ rest) pid = if p == pid then some cached else find_process rest pid

-- In seconds.
abbrev pub process_info_ttl : ℕ
process_info_ttl = 30

abbrev pub fresh_info : Option CachedProcessInfo → ℕ → Option ProcessInfo
fresh_info none now = none
fresh_info (some cached) now = if ltb now cached.expires_at then some cached.info else none

unfoldable pub denial_reason : AccessRule → WString
denial_reason rule =
    codes "Denied by rule: " ++ (rule.process_name_pattern ++ (codes " / " ++ rule.path_pattern))

-- What the first rule that matches says of an operation.
unfoldable pub apply_rule : AccessRule → OperationType → Bool × WString
apply_rule rule op =
    if is_read_op op && not rule.allow_read
    then (false, denial_reason rule)
    else if is_write_op op && not rule.allow_write
    then (false, denial_reason rule)
    else if is_delete_op op && not rule.allow_delete
    then (false, denial_reason rule)
    else if is_execute_op op && not rule.allow_execute
    then (false, denial_reason rule)
    else (true, [])

module _ (text : TextService) where
  unfoldable pub evaluate_rules :
      List AccessRule → WString → WString → OperationType → Bool × WString
  evaluate_rules [] name path op = (true, [])
  evaluate_rules (rule ∷ rules) name path op =
      if not (wildcard_match text rule.process_name_pattern name)
      then evaluate_rules rules name path op
      else if not (wildcard_match text rule.path_pattern path)
      then evaluate_rules rules name path op
      else apply_rule rule op

module _ (resolve_process_uncached : ℕ → ProcessInfo) where
  abbrev pub resolve_miss :
      ProcessTracker → ℕ → ℕ → Option ProcessInfo → ProcessTracker × ProcessInfo
  resolve_miss tracker now pid (some info) = (tracker, info)
  resolve_miss tracker now pid none =
      let info = resolve_process_uncached pid in
      let cached : CachedProcessInfo = record {
        info = info;
        expires_at = now + process_info_ttl;
      } in
      (record tracker { process_info_cache = (pid, cached) ∷ tracker.process_info_cache }, info)

  unfoldable pub resolve_process : ProcessTracker → ℕ → ℕ → ProcessTracker × ProcessInfo
  resolve_process tracker now pid =
      resolve_miss tracker now pid (fresh_info (find_process tracker.process_info_cache pid) now)

-- The detail is left out where there is no reason.
abbrev pub event_detail : WString → Option WString
event_detail reason = if is_empty reason then none else some reason

-- The rest of a check, once the process is known and the rules have decided.
unfoldable pub record_access :
    ProcessTracker → ProcessInfo → ℕ → ℕ → WString → OperationType → Bool × WString → ProcessTracker
record_access tracker info timestamp pid path op (allowed, reason) =
    let entry : AccessLogEntry = record {
      pid = pid;
      process_name = info.name;
      file_path = path;
      operation = op;
      timestamp = timestamp;
      allowed = allowed;
      reason = reason;
    } in
    let event : DeniedEvent = record {
      relative_path = path;
      detail = event_detail reason;
      pid = pid;
    } in
    record tracker {
      log = add_log_entry tracker.log entry;
      emitted =
          if not allowed && tracker.has_emitter then event ∷ tracker.emitted else tracker.emitted;
    }

module _ (text : TextService) (resolve_process_uncached : ℕ → ProcessInfo) where
  unfoldable pub check_access :
      ProcessTracker → ℕ → ℕ → ℕ → WString → OperationType → ProcessTracker × Bool
  check_access tracker now timestamp pid path op =
      let resolved = resolve_process resolve_process_uncached tracker now pid in
      let decision = evaluate_rules text resolved.0.rules resolved.1.name path op in
      (record_access resolved.0 resolved.1 timestamp pid path op decision, decision.0)

  -- Every access is logged as allowed, and no event is sent.
  unfoldable pub log_access : ProcessTracker → ℕ → ℕ → ℕ → WString → OperationType → ProcessTracker
  log_access tracker now timestamp pid path op =
      let resolved = resolve_process resolve_process_uncached tracker now pid in
      record_access resolved.0 resolved.1 timestamp pid path op (true, [])
