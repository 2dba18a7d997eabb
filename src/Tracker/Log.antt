-- ===== src/Tracker/Log.antt =====
-- The ring of log entries (src/LayerMount.dll/impl/ProcessTracker.cpp: AddLogEntry,
-- GetRecentEntries), over any entry. A capacity of zero would divide by zero; the tracker's own is
-- 10000.
pub mod Window
pub mod Recent
use layer_mount.Base.{ℕ, zero, suc, ◌+◌, ◌-◌, ◌%◌, min, List, [], ◌∷◌, Option, none, some}
use layer_mount.Base.{if◌then◌else◌, ltb, get_elem?, set}

pub record Log {ℓ} (A : Type ℓ) : Type ℓ where
  pub buffer : List A
  pub head : ℕ
  pub count : ℕ
  pub capacity : ℕ

module _ {ℓ} {A : Type ℓ} where
  abbrev pub repeated : ℕ → A → List A
  repeated zero entry = []
  repeated (suc n) entry = entry ∷ repeated n entry

  -- `logBuffer_.resize` fills the buffer with default entries.
  unfoldable pub new_log : ℕ → A → Log A
  new_log capacity default_entry = record {
    buffer = repeated capacity default_entry;
    head = 0;
    count = 0;
    capacity = capacity;
  }

  unfoldable pub add_log_entry : Log A → A → Log A
  add_log_entry log entry = record log {
    buffer = set log.buffer log.head entry;
    head = (log.head + 1) % log.capacity;
    count = if ltb log.count log.capacity then log.count + 1 else log.count;
  }

  abbrev pub entry_or : Option A → A → A
  entry_or none default_entry = default_entry
  entry_or (some entry) default_entry = entry

  -- The loop over the indices that are left, from the start plus the index. A read out of range
  -- gives the default entry.
  unfoldable pub collect : Log A → A → ℕ → ℕ → ℕ → List A
  collect log default_entry start i zero = []
  collect log default_entry start i (suc left) =
      entry_or (get_elem? log.buffer ((start + i) % log.capacity)) default_entry
      ∷ collect log default_entry start (i + 1) left

  unfoldable pub get_recent_entries : Log A → A → ℕ → List A
  unfolding collect
  get_recent_entries log default_entry count =
      let actual = min count log.count in
      collect log default_entry ((log.head + log.capacity - actual) % log.capacity) 0 actual
