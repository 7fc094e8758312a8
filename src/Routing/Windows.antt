-- ===== src/Routing/Windows.antt =====
-- routing.py: the windows of recent picks. Times and spans are whole milliseconds of the monotonic clock.
use buddy2api.Prelude.{
  ℕ, zero, suc, ◌+◌, Option, none, some, List, [], ◌∷◌, ◌++◌, ltb, leb, ◌==◌, if◌then◌else◌, length,
}

-- `_rate_windows`: the starts of each account, the oldest first.
abbrev pub Windows : Type 0
Windows = List (ℕ × List ℕ)

abbrev pub max_tracked_accounts : ℕ
max_tracked_accounts = 4096

-- `_prune`
unfoldable pub prune_window : ℕ → ℕ → List ℕ → List ℕ
prune_window now span [] = []
prune_window now span (t ∷ window) =
    if ltb (t + span) now then prune_window now span window else t ∷ window

abbrev pub window_of : ℕ → Windows → Option (List ℕ)
window_of aid [] = none
window_of aid ((id, window) ∷ windows) = if id == aid then some window else window_of aid windows

abbrev pub store : ℕ → List ℕ → Windows → Windows
store aid window [] = (aid, window) ∷ []
store aid window ((id, old) ∷ windows) =
    if id == aid then (aid, window) ∷ windows else (id, old) ∷ store aid window windows

-- The windows that stay when an account without one is picked.
abbrev pub make_room : Windows → Windows
make_room windows = if leb max_tracked_accounts (length windows) then [] else windows

abbrev pub pick_into : ℕ → ℕ → ℕ → Windows → Option (List ℕ) → Windows
pick_into aid now span windows none =
    store aid (prune_window now span (now ∷ [])) (make_room windows)
pick_into aid now span windows (some window) =
    store aid (prune_window now span (window ++ now ∷ [])) windows

-- `note_pick`; `span` is the longer of the minute and the in-flight window.
unfoldable pub note_pick : ℕ → ℕ → ℕ → Windows → Windows
unfolding prune_window
note_pick zero now span windows = windows
note_pick (suc n) now span windows = pick_into (suc n) now span windows (window_of (suc n) windows)

abbrev pub count_in : ℕ → ℕ → ℕ → Windows → Option (List ℕ) → ℕ × Windows
count_in aid now span windows none = (0, windows)
count_in aid now span windows (some []) = (0, windows)
count_in aid now span windows (some (t ∷ window)) =
    let left = prune_window now span (t ∷ window) in (length left, store aid left windows)

-- `recent_starts`, with the windows after it
unfoldable pub recent_starts : ℕ → ℕ → ℕ → Windows → ℕ × Windows
unfolding prune_window
recent_starts zero now span windows = (0, windows)
recent_starts (suc n) now span windows =
    count_in (suc n) now span windows (window_of (suc n) windows)
