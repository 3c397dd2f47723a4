-- ===== src/Share/Open.antt =====
-- How long a link that `Normalize` accepts opens its trip.
use tripvault.Base.{
  ◌<◌, ◌≡◌, refl, ◌∙◌, true, Option, none, some, ok, Returns, Returns-bind, Returns-refuse,
  Returns-ok, goes_on, arith, ◌↔◌, subst,
}
use tripvault.Domain.Values.{Time}
use tripvault.Domain.Trimmed.{IsTrimmed, trimmed_text-IsTrimmed, trimmed_text_fixed}
use tripvault.Domain.Checks.{trimmed_text}
use tripvault.Share.{
  ShareLink, normalize_share_link, is_active_link, is_ahead, max_share_label_length,
}

-- The instants at which an expiry has not passed.
abbrev pub IsBefore : Option Time → Time → Type 0
IsBefore none t = Unit
IsBefore (some expires_at) t = t < expires_at

is_ahead_iff : (e : Option Time) (t : Time) → (is_ahead e t ≡ true) ↔ IsBefore e t
is_ahead_iff none t = (λ _. tt, λ _. refl)
is_ahead_iff (some expires_at) t = ground arith

-- What a link that is accepted has: the fields of the one that came in, a trimmed label, and an
-- expiry ahead.
record IsAccepted (l : ShareLink) (now : Time) (l' : ShareLink) : Type 0 where
  trimmed : IsTrimmed max_share_label_length l'.label
  ahead : is_ahead l'.expires_at now ≡ true
  same_expiry : l'.expires_at ≡ l.expires_at
  same_revocation : l'.revoked_at ≡ l.revoked_at

normalize_share_link_ok :
    (l : ShareLink) (now : Time) → Returns (IsAccepted l now) (normalize_share_link l now)
unfolding normalize_share_link
normalize_share_link_ok l now =
    Returns-bind (trimmed_text "label" l.label max_share_label_length) _ (λ label e.
      Returns-refuse _ _ _ (λ inside. Returns-ok (record {
        trimmed = (trimmed_text-IsTrimmed "label" l.label max_share_label_length).at label e;
        ahead = ground (arith, inside);
        same_expiry = refl;
        same_revocation = refl;
      })))

normalize_share_link_fixed :
    (l : ShareLink) (now : Time)
    → IsTrimmed max_share_label_length l.label
    → is_ahead l.expires_at now ≡ true
    → normalize_share_link l now ≡ ok l
unfolding normalize_share_link
normalize_share_link_fixed l now trimmed ahead =
    rw (trimmed_text_fixed "label" l.label max_share_label_length trimmed) (simp (goes_on, ahead))

is_active_link-IsBefore :
    (l : ShareLink) (t : Time)
    → l.revoked_at ≡ none
    → (is_active_link l t ≡ true) ↔ IsBefore l.expires_at t
unfolding is_active_link
is_active_link-IsBefore l t live = rw live (is_ahead_iff l.expires_at t)

-- A link that `Normalize` accepts has a trimmed label of at most 200 characters, and normalising it
-- again at the same instant changes nothing. If it is not revoked it is open at that instant, and
-- at any other exactly while the expiry that came in lies ahead; a link with no expiry always is.
pub normalize_share_link-opens :
    (l l' : ShareLink) (now : Time)
    → normalize_share_link l now ≡ ok l'
    → IsTrimmed max_share_label_length l'.label
      × (normalize_share_link l' now ≡ ok l')
      × (l.revoked_at ≡ none
          → (is_active_link l' now ≡ true)
            × ((t : Time) → (is_active_link l' t ≡ true) ↔ IsBefore l.expires_at t))
normalize_share_link-opens l l' now e =
    let a = (normalize_share_link_ok l now).at l' e in
    (
      a.trimmed,
      normalize_share_link_fixed l' now a.trimmed a.ahead,
      λ live.
          let live' = a.same_revocation ∙ live in
          (
            (is_active_link-IsBefore l' now live').1 ((is_ahead_iff l'.expires_at now).0 a.ahead),
            λ t.
                subst (λ x. (is_active_link l' t ≡ true) ↔ IsBefore x t) a.same_expiry
                  (is_active_link-IsBefore l' t live'),
          ),
    )
