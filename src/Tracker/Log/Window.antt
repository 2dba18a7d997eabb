-- ===== src/Tracker/Log/Window.antt =====
-- The invariant of the ring of log entries (src/LayerMount.dll/impl/ProcessTracker.cpp:
-- AddLogEntry): the newest entries of all that were added stand at their positions.
use layer_mount.Base.{ℕ, suc, zero, ◌+◌, ◌-◌, ◌%◌, ◌≤◌, ◌<◌, min, List, [], ◌∷◌, ◌++◌, some}
use layer_mount.Base.{◌≡◌, ◌≢◌, refl, sym, ap, ◌∙◌, arith, ltb, inl, inr}
use layer_mount.Base.{length, get_elem?, set, length-set, get_elem?-set_self, get_elem?-set_ne}
use layer_mount.Base.{length-append, Bool-cases, ltb→lt, subst}
use native.Mathlib.Nat.{mod-add-mod, mod-lt, mod-eq_of_lt, mod-eq-sub-mod}
use layer_mount.Tracker.Log.{Log, repeated, new_log, add_log_entry}

-- A step of less than a whole turn moves.
pub mod-add_ne :
    {capacity : ℕ} (h k : ℕ) → h < capacity → suc k < capacity → (h + suc k) % capacity ≢ h
mod-add_ne {capacity} h k inside small e = elim (Bool-cases (ltb (h + suc k) capacity)) [
  | inl fits ↦ ground (arith, mod-eq_of_lt {n = h + suc k} {m = capacity})
  | inr past ↦ ground (
    arith,
    mod-eq-sub-mod {n = h + suc k} {m = capacity},
    mod-eq_of_lt {n = h + suc k - capacity} {m = capacity},
  )
]

-- Different numbers in a window of the capacity fall on different positions.
pub window_ne : (capacity i n : ℕ) → i < n → n < i + capacity → n % capacity ≢ i % capacity
window_ne capacity i n before near e =
    mod-add_ne (i % capacity) (n - i - 1) (mod-lt i (omega arith)) (omega arith)
      (mod-add-mod i capacity (suc (n - i - 1)) ∙ ap (λ k. k % capacity) (omega arith) ∙ e)

module _ {ℓ} {A : Type ℓ} where
  length-repeated : (n : ℕ) (x : A) → length (repeated n x) ≡ n
  length-repeated zero x = refl
  length-repeated (suc n) x = ap suc (length-repeated n x)

  pub get_elem?-append :
      (xs : List A) (x : A) (i : ℕ) → i < length xs → get_elem? (xs ++ x ∷ []) i ≡ get_elem? xs i
  get_elem?-append [] x i h = absurd (omega (arith, h))
  get_elem?-append (y ∷ ys) x zero h = refl
  get_elem?-append (y ∷ ys) x (suc i) h = get_elem?-append ys x i (omega (arith, h))

  pub get_elem?-length : (xs : List A) (x : A) → get_elem? (xs ++ x ∷ []) (length xs) ≡ some x
  get_elem?-length [] x = refl
  get_elem?-length (y ∷ ys) x = get_elem?-length ys x

  -- The log after a history of entries: its counters, and that each of the newest entries stands
  -- where its number falls.
  abbrev pub IsShown : Log A → List A → Type ℓ
  IsShown log history =
      (log.head ≡ length history % log.capacity)
      × (log.count ≡ min (length history) log.capacity)
      × (length log.buffer ≡ log.capacity)
      × ((i : ℕ)
          → i < length history
          → length history ≤ i + log.capacity
          → get_elem? log.buffer (i % log.capacity) ≡ get_elem? history i)

  pub IsShown-new_log :
      (capacity : ℕ) (default_entry : A)
      → 0 < capacity
      → IsShown (new_log capacity default_entry) []
  unfolding new_log
  IsShown-new_log capacity default_entry positive = (
    sym (mod-eq_of_lt positive),
    omega arith,
    length-repeated capacity default_entry,
    λ i h. absurd (omega (arith, h)),
  )

  -- The entry at a number after one more entry was added.
  shown-add :
      (log : Log A) (history : List A) (entry : A) (i : ℕ)
      → 0 < log.capacity
      → IsShown log history
      → i < suc (length history)
      → suc (length history) ≤ i + log.capacity
      → get_elem? (set log.buffer log.head entry) (i % log.capacity)
        ≡ get_elem? (history ++ entry ∷ []) i
  shown-add log history entry i positive (at, counted, full, shown) below near =
      elim (Bool-cases (ltb i (length history))) [
        | inl older ↦
            get_elem?-set_ne log.buffer log.head (i % log.capacity) entry
              (λ e. window_ne log.capacity i (length history) (ltb→lt i _ older) near (sym at ∙ e))
            ∙ shown i (ltb→lt i _ older) (omega (arith, near))
            ∙ sym (get_elem?-append history entry i (ltb→lt i _ older))
        | inr newest ↦
            subst
              (λ n.
                get_elem? (set log.buffer log.head entry) (n % log.capacity)
                ≡ get_elem? (history ++ entry ∷ []) n)
              (ground (arith, below))
              (rw (sym at) (get_elem?-set_self log.buffer log.head entry inside)
                ∙ sym (get_elem?-length history entry))
      ]
    where
      inside : log.head < length log.buffer
      inside = rw (at, full) (mod-lt (length history) positive)

  pub IsShown-add_log_entry :
      (log : Log A) (history : List A) (entry : A)
      → 0 < log.capacity
      → IsShown log history
      → IsShown (add_log_entry log entry) (history ++ entry ∷ [])
  unfolding add_log_entry
  IsShown-add_log_entry log history entry positive (at, counted, full, shown) = (
    rw (at, mod-add-mod, length-append) refl,
    ground (arith, length-append history (entry ∷ []), counted),
    length-set log.buffer log.head entry ∙ full,
    λ i below near.
        shown-add log history entry i positive (at, counted, full, shown)
          (omega (arith, length-append history (entry ∷ [])))
          (omega (arith, length-append history (entry ∷ []))),
  )
