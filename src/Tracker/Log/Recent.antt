-- ===== src/Tracker/Log/Recent.antt =====
-- What the ring of log entries gives back (src/LayerMount.dll/impl/ProcessTracker.cpp:
-- GetRecentEntries): the newest entries of all that were added.
use layer_mount.Base.{ℕ, suc, zero, ◌+◌, ◌-◌, ◌%◌, ◌≤◌, ◌<◌, min, List, [], ◌∷◌, ◌++◌}
use layer_mount.Base.{
  ◌≡◌, refl, sym, ap, ap₂, ◌∙◌, arith, length, get_elem?, drop, append-nil, append_assoc, subst,
}
use native.Mathlib.Nat.{mod-add-mod, mod-eq-sub-mod}
use layer_mount.Tracker.Log.{Log, new_log, add_log_entry, entry_or, collect, get_recent_entries}
use layer_mount.Tracker.Log.Window.{IsShown, IsShown-new_log, IsShown-add_log_entry}

-- The start of the newest `actual` entries, and a position after it.
pub start-mod :
    (capacity n actual i : ℕ)
    → 0 < capacity
    → actual ≤ n
    → actual ≤ capacity
    → ((n % capacity + capacity - actual) % capacity + i) % capacity ≡ (n - actual + i) % capacity
start-mod capacity n actual i positive within fits =
    mod-add-mod (n % capacity + capacity - actual) capacity i
    ∙ turn (n % capacity + capacity - actual + i) (n % capacity + (capacity - actual + i))
        (omega (arith, fits))
    ∙ mod-add-mod n capacity (capacity - actual + i)
    ∙ mod-eq-sub-mod {n = n + (capacity - actual + i)} {m = capacity} (omega (arith, within, fits))
    ∙ turn (n + (capacity - actual + i) - capacity) (n - actual + i) (omega (arith, within, fits))
  where
    turn : (a b : ℕ) → a ≡ b → a % capacity ≡ b % capacity
    turn a b e = ap (λ k. k % capacity) e

module _ {ℓ} {A : Type ℓ} where
  -- The log after a run of entries.
  unfoldable pub add_all : Log A → List A → Log A
  add_all log [] = log
  add_all log (entry ∷ entries) = add_all (add_log_entry log entry) entries

  drop_step :
      (xs : List A) (k : ℕ) (x : A)
      → k < length xs
      → drop k xs ≡ entry_or (get_elem? xs k) x ∷ drop (suc k) xs
  drop_step [] k x h = absurd (omega (arith, h))
  drop_step (y ∷ ys) zero x h = refl
  drop_step (y ∷ ys) (suc k) x h = drop_step ys k x (omega (arith, h))

  drop_end : (xs : List A) (k : ℕ) → length xs ≤ k → drop k xs ≡ []
  drop_end [] zero h = refl
  drop_end [] (suc k) h = refl
  drop_end (y ∷ ys) zero h = absurd (omega (arith, h))
  drop_end (y ∷ ys) (suc k) h = drop_end ys k (omega (arith, h))

  capacity-add : (log : Log A) (entry : A) → (add_log_entry log entry).capacity ≡ log.capacity
  unfolding add_log_entry
  capacity-add log entry = refl

  IsShown-add_all :
      (log : Log A) (history entries : List A)
      → 0 < log.capacity
      → IsShown log history
      → IsShown (add_all log entries) (history ++ entries)
  unfolding add_all
  IsShown-add_all log history [] positive shown =
      subst (IsShown log) (sym (append-nil history)) shown
  IsShown-add_all log history (entry ∷ entries) positive shown =
      subst (IsShown (add_all (add_log_entry log entry) entries))
        (append_assoc history (entry ∷ []) entries)
        (IsShown-add_all (add_log_entry log entry) (history ++ entry ∷ []) entries
          (rw (capacity-add log entry) positive)
          (IsShown-add_log_entry log history entry positive shown))

  collect-drop :
      (log : Log A) (history : List A) (default_entry : A) (start base i left : ℕ)
      → IsShown log history
      → length history ≤ base + log.capacity
      → base + i + left ≡ length history
      → ((j : ℕ) → (start + j) % log.capacity ≡ (base + j) % log.capacity)
      → collect log default_entry start i left ≡ drop (base + i) history
  unfolding collect
  collect-drop log history default_entry start base i zero shown near ends turned =
      sym (drop_end history (base + i) (omega (arith, ends)))
  collect-drop log history default_entry start base i (suc left) shown near ends turned =
      ap₂ ◌∷◌
        (ap (λ o. entry_or o default_entry)
          (ap (get_elem? log.buffer) (turned i) ∙ shown.3 (base + i) (omega arith) (omega arith)))
        (collect-drop log history default_entry start base (i + 1) left shown near (omega arith)
            turned
          ∙ ap (λ k. drop k history) {y = suc (base + i)} (omega arith))
      ∙ sym (drop_step history (base + i) default_entry (omega (arith, ends)))

  capacity-add_all :
      (log : Log A) (entries : List A) → (add_all log entries).capacity ≡ log.capacity
  unfolding add_all
  capacity-add_all log [] = refl
  capacity-add_all log (entry ∷ entries) =
      capacity-add_all (add_log_entry log entry) entries ∙ capacity-add log entry

  pub recent-drop :
      (log : Log A) (history : List A) (default_entry : A) (count : ℕ)
      → 0 < log.capacity
      → IsShown log history
      → get_recent_entries log default_entry count
        ≡ drop (length history - min count log.capacity) history
  unfolding get_recent_entries
  recent-drop log history default_entry count positive shown =
      let actual = min count log.count in
      let enough : actual ≤ length history = ground (arith, shown.1) in
      let fits : actual ≤ log.capacity = ground (arith, shown.1) in
      let base_is : length history - actual ≡ length history - min count log.capacity =
        ground (arith, shown.1) in
      collect-drop log history default_entry _ (length history - actual) 0 actual shown
        (omega (arith, fits)) (omega (arith, enough))
        (λ j. rw shown.0 (start-mod log.capacity (length history) actual j positive enough fits))
      ∙ ap (λ k. drop k history) {y = length history - min count log.capacity}
          (omega (arith, base_is))

  -- For a ring of a positive capacity that was empty at the start, and any entries added since: a
  -- request for a count gives the last entries that were added, in their order and as they were,
  -- as many as the count, the capacity and the entries allow.
  pub get_recent_entries-add_all :
      (capacity : ℕ) (default_entry : A) (entries : List A) (count : ℕ)
      → 0 < capacity
      → get_recent_entries (add_all (new_log capacity default_entry) entries) default_entry count
        ≡ drop (length entries - min count capacity) entries
  unfolding new_log
  get_recent_entries-add_all capacity default_entry entries count positive =
      let log = add_all (new_log capacity default_entry) entries in
      let kept : log.capacity ≡ capacity =
        capacity-add_all (new_log capacity default_entry) entries in
      recent-drop log entries default_entry count (rw kept positive) (
        IsShown-add_all (new_log capacity default_entry) [] entries positive
          (IsShown-new_log capacity default_entry positive))
      ∙ ap (λ c. drop (length entries - min count c) entries) kept
