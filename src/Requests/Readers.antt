-- ===== src/Requests/Readers.antt =====
-- What readers of one key may count on.
use tripvault.Base.{
  ℕ, ◌<◌, true, false, some, is_some, ◌∷◌, ◌≡◌, ◌≢◌, ap, arith, inl, inr, Option-cases,
}
use tripvault.Base.Text.{Text}
use tripvault.Requests.{Call, join, finish, cancel, leave, unmap, store}
use tripvault.Requests.Sharing.{
  World, Step, joins, finishes, cancels, leaves, Reach, here, next, start, count, count-append,
  IsShared, Reach-IsShared,
}

-- Whatever readers join and leave, and whenever work returns: while somebody waits for a call whose
-- work has not returned, its context is not cancelled, and the group's map leads to it, so every
-- later reader of the same key joins it.
pub waiting_runs :
    (s : World) (c : ℕ) (v : Call)
    → Reach start s
    → s.group.calls c ≡ some v
    → 0 < count c s.waiting
    → v.is_done ≡ false
    → (v.is_cancelled ≡ false) × (s.group.mapped v.key ≡ some c)
waiting_runs s c v r e w d =
    let h = Reach-IsShared s r in
    let m = h.live_mapped c v e (d, omega (arith, h.counted c v e)) in
    let (v', e', k, l, n) = h.mapped_live v.key c m in (ground (arith, e, e', n), m)

-- Two readers that wait for the same key, at calls whose work has not returned, wait for one call:
-- the work for a key runs once for all of them.
pub readers_share :
    (s : World) (c d : ℕ) (v w : Call)
    → Reach start s
    → s.group.calls c ≡ some v
    → 0 < count c s.waiting
    → v.is_done ≡ false
    → s.group.calls d ≡ some w
    → 0 < count d s.waiting
    → w.is_done ≡ false
    → v.key ≡ w.key
    → c ≡ d
readers_share s c d v w r ev hv dv ew hw dw k =
    let m = (waiting_runs s c v r ev hv dv).1 in
    let n = (waiting_runs s d w r ew hw dw).1 in ground (arith, m, n, ap s.group.mapped k)

Reach-trans : {s t u : World} → Reach s t → Reach t u → Reach s u
Reach-trans r here = r
Reach-trans r (next q st) = next (Reach-trans r q) st

-- Nobody who joins stands at a call that nobody waits for.
join-unread :
    (s : World) (c : ℕ) (v : Call) (key : Text)
    → IsShared s
    → s.group.calls c ≡ some v
    → count c s.waiting ≡ 0
    → (join key s.group).1 ≢ c
unfolding join
join-unread s c v key h e w = elim (Option-cases (s.group.mapped key)) [
  | inl m ↦ rw m (λ same. ground (arith, h.free s.group.fresh, e, same))
  | inr (a, m) ↦
      let (v', e', k, l, n) = h.mapped_live key a m in
      rw (m, e') (λ same. ground (arith, e, e', l, same, h.counted c v e))
]

-- No section frees a call.
Step-calls :
    (s t : World) (c : ℕ)
    → Step s t
    → is_some (s.group.calls c) ≡ true
    → is_some (t.group.calls c) ≡ true
unfolding join finish cancel leave unmap store
Step-calls s t c (joins key e) h = rw e (elim (Option-cases (s.group.mapped key)) [
  | inl m ↦ rw m (ground (arith, h))
  | inr (a, m) ↦ elim (Option-cases (s.group.calls a)) [
    | inl n ↦ rw (m, n) h
    | inr (w, n) ↦ rw (m, n) (ground (arith, h))
  ]
])
Step-calls s t c (finishes a v found e) h = rw e (ground (arith, h))
Step-calls s t c (cancels a v found d e) h = rw e (ground (arith, h))
Step-calls s t c (leaves a v before behind w found e) h = rw e (ground (arith, h))

Step-unread :
    (s t : World) (c : ℕ)
    → IsShared s
    → Step s t
    → is_some (s.group.calls c) ≡ true
    → count c s.waiting ≡ 0
    → count c t.waiting ≡ 0
Step-unread s t c h (joins key e) f w = elim (Option-cases (s.group.calls c)) [
  | inl n ↦ cc
  | inr (v, n) ↦ rw e (ground (arith, w, join-unread s c v key h n w))
]
Step-unread s t c h (finishes a v found e) f w = rw e w
Step-unread s t c h (cancels a v found d e) f w = rw e w
Step-unread s t c h (leaves a v before behind at found e) f w = rw e (
    omega
      (arith, w, ap (count c) at, count-append c before (a ∷ behind), count-append c before behind))

Reach-unread :
    (s : World) (c : ℕ)
    → Reach start s
    → is_some (s.group.calls c) ≡ true
    → count c s.waiting ≡ 0
    → {t : World} → Reach s t
    → (is_some (t.group.calls c) ≡ true) × (count c t.waiting ≡ 0)
Reach-unread s c r f w here = (f, w)
Reach-unread s c r f w (next {t = u} {u = t} q st) =
    let (f', w') = Reach-unread s c r f w q in
    (Step-calls u t c st f', Step-unread u t c (Reach-IsShared u (Reach-trans r q)) st f' w')

-- Once nobody waits for a call, its context is cancelled, whether or not its work has returned, and
-- the map does not lead to it: whatever key the next reader asks for, it stands at another call,
-- and so does every reader after any steps from then on.
pub unread_cancelled :
    (s : World) (c : ℕ) (v : Call)
    → Reach start s
    → s.group.calls c ≡ some v
    → count c s.waiting ≡ 0
    → (v.is_cancelled ≡ true)
      × (s.group.mapped v.key ≢ some c)
      × ((key : Text) → (join key s.group).1 ≢ c)
      × ((t : World) → Reach s t → count c t.waiting ≡ 0)
unread_cancelled s c v r e w =
    let h = Reach-IsShared s r in
    (
      h.abandoned c v e (omega (arith, h.counted c v e)),
      (λ m.
          let (v', e', k, l, n) = h.mapped_live v.key c m in
          ground (arith, e, e', l, h.counted c v e)),
      (λ key. join-unread s c v key h e w),
      (λ t q. (Reach-unread s c r (ground (arith, e)) w q).1),
    )
