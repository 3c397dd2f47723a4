-- ===== src/Share/Unseen.antt =====
-- What a link tells nothing about, and what it shows when places are hidden as well.
use tripvault.Base.{◌≡◌, refl, ap, List, [], ◌∷◌, map, Option}
use tripvault.Base.Text.{Text}
use tripvault.Domain.Kinds.{CostSplit}
use tripvault.Domain.Values.{Uuid}
use tripvault.Domain.Records.{CostShare, Item, Stay, Stop, Track}
use tripvault.Domain.Journeys.{Transfer}
use tripvault.Domain.Content.{DocumentContent}
use tripvault.Share.Shown.{
  shown_stay, shown_transfer, shown_item, shown_stop, shown_track, for_share_link,
}

-- The travellers' own business: what they booked, whom they call, who pays and who shares, for
-- each stay, transfer, place and stop by its id.
pub record Secrets : Type 0 where
  pub booking_ref : Uuid → Text
  pub contacts : Uuid → Text
  pub paid_by : Uuid → Option Uuid
  pub cost_split : Uuid → CostSplit
  pub cost_shares : Uuid → List CostShare

module _ (s : Secrets) where
  unfoldable stay_with : Stay → Stay
  stay_with r = record r { booking_ref = s.booking_ref r.id; contacts = s.contacts r.id }

  unfoldable transfer_with : Transfer → Transfer
  transfer_with t = record t { booking_ref = s.booking_ref t.id }

  unfoldable item_with : Item → Item
  item_with i = record i {
    booking_ref = s.booking_ref i.id;
    paid_by = s.paid_by i.id;
    cost_split = s.cost_split i.id;
    cost_shares = s.cost_shares i.id;
  }

  unfoldable stop_with : Stop → Stop
  stop_with p = record p {
    paid_by = s.paid_by p.id;
    cost_split = s.cost_split p.id;
    cost_shares = s.cost_shares p.id;
  }

  unfoldable track_with : Track → Track
  unfolding stop_with
  track_with r = record r { stops = map stop_with r.stops }

  -- The same document with other business.
  unfoldable pub content_with : DocumentContent → DocumentContent
  unfolding stay_with transfer_with item_with track_with
  content_with c = record c {
    stays = map stay_with c.stays;
    transfers = map transfer_with c.transfers;
    items = map item_with c.items;
    tracks = map track_with c.tracks;
  }

map_absorbs :
    {A : Type 0} (g h : A → A)
    → ((a : A) → g (h a) ≡ g a)
    → (l : List A) → map g (map h l) ≡ map g l
map_absorbs g h e [] = refl
map_absorbs g h e (a ∷ l) = rw (e a) (ap (◌∷◌ (g a)) (map_absorbs g h e l))

module _ (s : Secrets) where
  track_unseen : (r : Track) → shown_track (track_with s r) ≡ shown_track r
  unfolding shown_track track_with shown_stop stop_with
  track_unseen r =
      ap (λ stops. record r { stops = stops })
        (map_absorbs shown_stop (stop_with s) (λ p. refl) r.stops)

  track_seen : (r : Track) → track_with s (shown_track r) ≡ track_with s r
  unfolding shown_track track_with shown_stop stop_with
  track_seen r =
      ap (λ stops. record r { stops = stops })
        (map_absorbs (stop_with s) shown_stop (λ p. refl) r.stops)

  content_unseen : (c : DocumentContent) → for_share_link (content_with s c) ≡ for_share_link c
  unfolding for_share_link content_with shown_stay stay_with shown_transfer transfer_with shown_item
      item_with
  content_unseen c =
      rw
        (
          map_absorbs shown_stay (stay_with s) (λ r. refl) c.stays,
          map_absorbs shown_transfer (transfer_with s) (λ t. refl) c.transfers,
          map_absorbs shown_item (item_with s) (λ i. refl) c.items,
          map_absorbs shown_track (track_with s) track_unseen c.tracks,
        )
        refl

  content_seen : (c : DocumentContent) → content_with s (for_share_link c) ≡ content_with s c
  unfolding for_share_link content_with shown_stay stay_with shown_transfer transfer_with shown_item
      item_with
  content_seen c =
      rw
        (
          map_absorbs (stay_with s) shown_stay (λ r. refl) c.stays,
          map_absorbs (transfer_with s) shown_transfer (λ t. refl) c.transfers,
          map_absorbs (item_with s) shown_item (λ i. refl) c.items,
          map_absorbs (track_with s) shown_track track_seen c.tracks,
        )
        refl

-- Whatever the booking references, the contacts, the payers and the shares of a document are,
-- what ForShareLink returns is the same: it tells nothing about them. And it loses nothing
-- else: filling them in, in what it returns, gives what filling them in gives in the document
-- itself. Stays, transfers, places and the stops of recordings are filled in by their
-- identifiers.
pub for_share_link-content_with :
    (s : Secrets) (c : DocumentContent)
    → (for_share_link (content_with s c) ≡ for_share_link c)
      × (content_with s (for_share_link c) ≡ content_with s c)
for_share_link-content_with s c = (content_unseen s c, content_seen s c)
