-- ===== src/Requests/Tests.antt =====
-- Two readers of one key.
use tripvault.Base.{ℕ, true, false, some, [], ◌∷◌, ◌≡◌, ◌≢◌, refl, arith}
use tripvault.Base.Text.{Text, text}
use tripvault.Requests.{Call, join, leave}
use tripvault.Requests.Sharing.{World, Reach, joins, leaves, here, next, start, count}
use tripvault.Requests.Readers.{waiting_runs, readers_share, unread_cancelled}

abbrev key : Text
key = text "tile"

abbrev one : World
one = record { group = (join key start.group).0; waiting = 0 ∷ [] }

abbrev two : World
two = record { group = (join key one.group).0; waiting = 0 ∷ 0 ∷ [] }

abbrev shared : Call
shared = record { key = key; is_done = false; is_cancelled = false; readers = 2 }

one-Reach : Reach start one
unfolding join
one-Reach = next here (joins key refl)

two-Reach : Reach start two
unfolding join
two-Reach = next one-Reach (joins key refl)

waiting_runs_example : (shared.is_cancelled ≡ false) × (two.group.mapped key ≡ some 0)
unfolding join
waiting_runs_example = waiting_runs two 0 shared two-Reach refl (omega arith) refl

readers_share_example : ◌≡◌ {A = ℕ} 0 0
unfolding join
readers_share_example =
    readers_share two 0 0 shared shared two-Reach refl (omega arith) refl refl (omega arith) refl
      refl

abbrev alone : Call
alone = record { key = key; is_done = false; is_cancelled = false; readers = 1 }

abbrev left : World
left = record { group = leave 0 alone one.group; waiting = [] }

left-Reach : Reach start left
unfolding join
left-Reach = next one-Reach (leaves 0 alone [] [] refl refl refl)

abbrev unread : Call
unread = record { key = key; is_done = false; is_cancelled = true; readers = 0 }

unread_cancelled_example :
    (unread.is_cancelled ≡ true)
    × (left.group.mapped key ≢ some 0)
    × ((k : Text) → (join k left.group).1 ≢ 0)
    × ((t : World) → Reach left t → count 0 t.waiting ≡ 0)
unfolding join leave
unread_cancelled_example = unread_cancelled left 0 unread left-Reach refl refl
