-- ===== src/Requests/Sharing.antt =====
-- What holds of every state that readers and goroutines bring about.
use tripvault.Base.{
  ℕ, ◌+◌, ◌-◌, ◌≤◌, ◌<◌, true, false, none, some, List, [], ◌∷◌, ◌++◌, ◌≡◌, refl, ap, arith,
  Bool-cases, Option-cases, inl, inr, if◌then◌else◌, ◌==◌, opt_eq,
}
use tripvault.Base.Text.{Text, text_eq, text_eq_iff}
use tripvault.Requests.{Group, Call, join, finish, cancel, leave, unmap, map_to, store}

abbrev pub count : ℕ → List ℕ → ℕ
count c [] = 0
count c (x ∷ xs) = (if c == x then 1 else 0) + count c xs

pub count-append : (c : ℕ) (xs ys : List ℕ) → count c (xs ++ ys) ≡ count c xs + count c ys
count-append c [] ys = omega arith
count-append c (x ∷ xs) ys = omega (arith, count-append c xs ys)

-- The group, and the address of the call that each waiting reader stands at.
pub record World : Type 0 where
  pub group : Group
  pub waiting : List ℕ

-- One section: a reader joins or leaves (its own context ended, or the call is done), or a
-- goroutine ends its work, or then cancels its context.
pub data Step (s t : World) : Type 0 where
  joins :
      (key : Text)
      → t ≡ record { group = (join key s.group).0; waiting = (join key s.group).1 ∷ s.waiting }
      → Step s t
  finishes :
      (c : ℕ) (v : Call)
      → s.group.calls c ≡ some v
      → t ≡ record s { group = finish c v s.group }
      → Step s t
  cancels :
      (c : ℕ) (v : Call)
      → s.group.calls c ≡ some v
      → v.is_done ≡ true
      → t ≡ record s { group = cancel c v s.group }
      → Step s t
  leaves :
      (c : ℕ) (v : Call) (before behind : List ℕ)
      → s.waiting ≡ before ++ c ∷ behind
      → s.group.calls c ≡ some v
      → t ≡ record { group = leave c v s.group; waiting = before ++ behind }
      → Step s t

pub data Reach (s : World) : World → Type 0 where
  here : Reach s s
  next : {t u : World} → Reach s t → Step t u → Reach s u

-- A call that runs for somebody: its work has not returned, and somebody waits for it.
abbrev pub IsLive : Call → Type 0
IsLive v = (v.is_done ≡ false) × (0 < v.readers)

pub record IsShared (s : World) : Type 0 where
  -- The map holds running calls alone, each under its own key.
  pub mapped_live :
      (key : Text) (c : ℕ)
      → s.group.mapped key ≡ some c
      → (v : Call) × (s.group.calls c ≡ some v)
        × (v.key ≡ key)
        × IsLive v
        × (v.is_cancelled ≡ false)
  -- Every running call stands in the map.
  pub live_mapped :
      (c : ℕ) (v : Call) → s.group.calls c ≡ some v → IsLive v → s.group.mapped v.key ≡ some c
  -- A call's count is that of its readers.
  pub counted : (c : ℕ) (v : Call) → s.group.calls c ≡ some v → v.readers ≡ count c s.waiting
  -- A call that nobody reads any more is cancelled.
  pub abandoned :
      (c : ℕ) (v : Call) → s.group.calls c ≡ some v → v.readers ≡ 0 → v.is_cancelled ≡ true
  -- Addresses from `fresh` on are free.
  pub free : (c : ℕ) → s.group.fresh ≤ c → (s.group.calls c ≡ none) × (count c s.waiting ≡ 0)

module _ (s : World) (h : IsShared s) where
  cancels-IsShared :
      (c : ℕ) (v : Call)
      → s.group.calls c ≡ some v
      → v.is_done ≡ true
      → IsShared (record s { group = cancel c v s.group })
  unfolding cancel store
  cancels-IsShared c v e d = record {
    mapped_live = λ key a m.
        let (v', e', k, l, n) = h.mapped_live key a m in (v', ground (arith, e, e', d), k, l, n);
    live_mapped = λ a v' e' l. ground (arith, h.live_mapped a v', l);
    counted = λ a v' e'. ground (arith, h.counted a v', h.counted c v e);
    abandoned = λ a v' e' z. ground (arith, h.abandoned a v', h.abandoned c v e);
    free = λ a k. (ground (arith, h.free a k, e), (h.free a k).1);
  }

  finishes-IsShared :
      (c : ℕ) (v : Call)
      → s.group.calls c ≡ some v
      → IsShared (record s { group = finish c v s.group })
  unfolding finish store unmap map_to
  finishes-IsShared c v e = elim (Bool-cases (opt_eq (s.group.mapped v.key) (some c))) [
    | inl own ↦ rw own (record {
      mapped_live = λ key a m.
          let (v', e', k, l, n) = h.mapped_live key a (ground (arith, m)) in
          (v', ground (arith, e, e', m, k, own, text_eq_iff key v.key), k, l, n);
      live_mapped =
          λ a v' e' l. ground (arith, h.live_mapped a v', l, own, text_eq_iff v'.key v.key);
      counted = λ a v' e'. ground (arith, h.counted a v', h.counted c v e);
      abandoned = λ a v' e' z. ground (arith, h.abandoned a v', h.abandoned c v e);
      free = λ a k. (ground (arith, h.free a k, e), (h.free a k).1);
    })
    | inr other ↦ rw other (record {
      mapped_live = λ key a m.
          let (v', e', k, l, n) = h.mapped_live key a m in
          (v', ground (arith, e, e', m, k, other), k, l, n);
      live_mapped = λ a v' e' l. ground (arith, h.live_mapped a v', l);
      counted = λ a v' e'. ground (arith, h.counted a v', h.counted c v e);
      abandoned = λ a v' e' z. ground (arith, h.abandoned a v', h.abandoned c v e);
      free = λ a k. (ground (arith, h.free a k, e), (h.free a k).1);
    })
  ]

  leaves-IsShared :
      (c : ℕ) (v : Call) (before behind : List ℕ)
      → s.waiting ≡ before ++ c ∷ behind
      → s.group.calls c ≡ some v
      → IsShared (record { group = leave c v s.group; waiting = before ++ behind })
  unfolding leave store unmap map_to cancel
  leaves-IsShared c v before behind w e =
      let left : (a : ℕ)
          → count a s.waiting ≡ (if a == c then 1 else 0) + count a (before ++ behind) =
        λ a. omega (
          arith,
          ap (count a) w,
          count-append a before (c ∷ behind),
          count-append a before behind,
        ) in
      elim (Bool-cases (v.readers - 1 == 0)) [
        | inl last ↦ elim (Bool-cases (opt_eq (s.group.mapped v.key) (some c))) [
          | inl own ↦
              rw (last, own)
                (record {
                  mapped_live = λ key a m.
                      let (v', e', k, l, n) = h.mapped_live key a (ground (arith, m)) in
                      (v', ground (arith, e, e', m, k, own, text_eq_iff key v.key), k, l, n);
                  live_mapped = λ a v' e' l.
                      ground (arith, h.live_mapped a v', l, own, last, text_eq_iff v'.key v.key);
                  counted = λ a v' e'. ground (arith, h.counted a v', h.counted c v e, left a);
                  abandoned = λ a v' e' z. ground (arith, h.abandoned a v', h.abandoned c v e);
                  free = λ a k. ground (arith, h.free a k, e, left a);
                })
          | inr other ↦
              rw (last, other)
                (record {
                  mapped_live = λ key a m.
                      let (v', e', k, l, n) = h.mapped_live key a m in
                      (v', ground (arith, e, e', m, k, other), k, l, n);
                  live_mapped = λ a v' e' l. ground (arith, h.live_mapped a v', l, last);
                  counted = λ a v' e'. ground (arith, h.counted a v', h.counted c v e, left a);
                  abandoned = λ a v' e' z. ground (arith, h.abandoned a v', h.abandoned c v e);
                  free = λ a k. ground (arith, h.free a k, e, left a);
                })
        ]
        | inr more ↦ rw more (record {
          mapped_live = λ key a m.
              let (v', e', k, l, n) = h.mapped_live key a m in
              elim (Bool-cases (a == c)) [
                | inl same ↦ (
                  record v { readers = v.readers - 1 },
                  ground (arith, same),
                  ground (arith, same, e, e', k),
                  ground (arith, same, e, e', more, l),
                  ground (arith, same, e, e', n),
                )
                | inr other ↦ (v', ground (arith, other, e'), k, l, n)
              ];
          live_mapped = λ a v' e' l. ground (arith, h.live_mapped a v', h.live_mapped c v e, l);
          counted = λ a v' e'. ground (arith, h.counted a v', h.counted c v e, left a);
          abandoned = λ a v' e' z. ground (arith, h.abandoned a v', h.abandoned c v e);
          free = λ a k. ground (arith, h.free a k, e, left a);
        })
      ]

  joins-IsShared :
      (key : Text)
      → IsShared
          (record { group = (join key s.group).0; waiting = (join key s.group).1 ∷ s.waiting })
  unfolding join store map_to
  joins-IsShared key = elim (Option-cases (s.group.mapped key)) [
    | inl e ↦ rw e (record {
      mapped_live = λ k a m. elim (Bool-cases (text_eq k key)) [
        | inl own ↦ (
          record { key = key; is_done = false; is_cancelled = false; readers = 1 },
          ground (arith, m, own),
          ground (arith, text_eq_iff k key, own),
          ground arith,
          refl,
        )
        | inr other ↦
            let (v', e', kv, l, n) = h.mapped_live k a (ground (arith, m, other)) in
            (v', ground (arith, e', h.free s.group.fresh), kv, l, n)
      ];
      live_mapped = λ a v' e' l. ground (arith, h.live_mapped a v', l, e, text_eq_iff v'.key key);
      counted = λ a v' e'. ground (arith, h.counted a v', h.free a);
      abandoned = λ a v' e' z. ground (arith, h.abandoned a v');
      free = λ a k. ground (arith, h.free a);
    })
    | inr (c, e) ↦
        let (v, ev, kv, lv, nv) = h.mapped_live key c e in
        rw (e, ev)
          (record {
            mapped_live = λ k a m.
                let (v', e', kv', l, n) = h.mapped_live k a m in
                elim (Bool-cases (a == c)) [
                  | inl same ↦ (
                    record v { readers = v.readers + 1 },
                    ground (arith, same),
                    ground (arith, same, ev, e', kv'),
                    ground (arith, lv),
                    nv,
                  )
                  | inr other ↦ (v', ground (arith, other, e'), kv', l, n)
                ];
            live_mapped =
                λ a v' e' l. ground (arith, h.live_mapped a v', l, h.live_mapped c v ev lv);
            counted = λ a v' e'. ground (arith, h.counted a v', h.counted c v ev);
            abandoned = λ a v' e' z. ground (arith, h.abandoned a v', h.abandoned c v ev);
            free = λ a k. ground (arith, h.free a k, ev);
          })
  ]

  Step-IsShared : (t : World) → Step s t → IsShared t
  Step-IsShared t (joins key e) = rw e (joins-IsShared key)
  Step-IsShared t (finishes c v found e) = rw e (finishes-IsShared c v found)
  Step-IsShared t (cancels c v found d e) = rw e (cancels-IsShared c v found d)
  Step-IsShared t (leaves c v before behind w found e) =
      rw e (leaves-IsShared c v before behind w found)

-- No call has been asked for yet.
abbrev pub start : World
start = record {
  group = record { mapped = λ key. none; calls = λ c. none; fresh = 0 };
  waiting = [];
}

pub Reach-IsShared : (s : World) → Reach start s → IsShared s
Reach-IsShared s here = record {
  mapped_live = λ key c m. absurd (cc);
  live_mapped = λ c v e l. absurd (cc);
  counted = λ c v e. absurd (cc);
  abandoned = λ c v e z. absurd (cc);
  free = λ c k. (refl, refl);
}
Reach-IsShared s (next {t} r st) = Step-IsShared t (Reach-IsShared t r) s st
