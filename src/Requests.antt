-- ===== src/Requests.antt =====
-- backend/internal/requestwork/group.go: readers that share one operation for each key.
-- A section under the mutex is one function on the state. A call is known by its address; the
-- goroutine that works on a call, and the readers, are the steps of the child `Sharing`.
pub mod Sharing
pub mod Readers
mod Tests
use tripvault.Base.{ℕ, ◌+◌, ◌-◌, Bool, true, false, Option, none, some, if◌then◌else◌, ◌==◌, opt_eq}
use tripvault.Base.Text.{Text, text_eq}

-- `call`: whether `done` is closed and whether its context is cancelled, and its key.
pub record Call : Type 0 where
  pub key : Text
  pub is_done : Bool
  pub is_cancelled : Bool
  pub readers : ℕ

-- `Group`, with the calls by address and the next free address.
pub record Group : Type 0 where
  pub mapped : Text → Option ℕ
  pub calls : ℕ → Option Call
  pub fresh : ℕ

-- `g.calls[key] = c`, or `delete(g.calls, key)` with `none`.
unfoldable pub map_to : Text → Option ℕ → (Text → Option ℕ) → Text → Option ℕ
unfolding text_eq
map_to key c m k = if text_eq k key then c else m k

-- A write to the call at an address.
unfoldable pub store : ℕ → Call → (ℕ → Option Call) → ℕ → Option Call
store c v calls a = if a == c then some v else calls a

-- The section that joins or starts a call, up to the first `Unlock`: the state and the address of
-- the call that the reader stands at.
abbrev pub join_at : Text → Option ℕ → Option Call → Group → Group × ℕ
join_at key (some c) (some v) g =
    (record g { calls = store c (record v { readers = v.readers + 1 }) g.calls }, c)
join_at key (some c) none g = (g, c)
join_at key none _ g = (
  record {
    mapped = map_to key (some g.fresh) g.mapped;
    calls =
        store g.fresh (record { key = key; is_done = false; is_cancelled = false; readers = 1 })
          g.calls;
    fresh = g.fresh + 1;
  },
  g.fresh,
)

abbrev pub read_at : (ℕ → Option Call) → Option ℕ → Option Call
read_at calls none = none
read_at calls (some c) = calls c

unfoldable pub join : Text → Group → Group × ℕ
unfolding store map_to
join key g = join_at key (g.mapped key) (read_at g.calls (g.mapped key)) g

-- `if g.calls[key] == c { delete(g.calls, key) }`
unfoldable pub unmap : ℕ → Text → Group → Group
unfolding map_to
unmap c key g =
    if opt_eq (g.mapped key) (some c) then record g { mapped = map_to key none g.mapped } else g

-- The section of the goroutine when its work has returned.
unfoldable pub finish : ℕ → Call → Group → Group
unfolding unmap store
finish c v g =
    let g' = unmap c v.key g in record g' { calls = store c (record v { is_done = true }) g'.calls }

-- The `cancel` that the goroutine defers, once `done` is closed.
unfoldable pub cancel : ℕ → Call → Group → Group
unfolding store
cancel c v g = record g { calls = store c (record v { is_cancelled = true }) g.calls }

-- The section that a reader defers.
unfoldable pub leave : ℕ → Call → Group → Group
unfolding unmap store cancel
leave c v g =
    let v' = record v { readers = v.readers - 1 } in
    let g' = record g { calls = store c v' g.calls } in
    if v'.readers == 0 then cancel c v' (unmap c v.key g') else g'
