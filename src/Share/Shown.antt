-- ===== src/Share/Shown.antt =====
-- backend/internal/domain/document.go, `ForShareLink`: a document as a read-only link shows it.
use tripvault.Base.{[], map, none}
use tripvault.Domain.Kinds.{split_none}
use tripvault.Domain.Records.{Item, Stay, Stop, Track}
use tripvault.Domain.Journeys.{Transfer}
use tripvault.Domain.Content.{DocumentContent}

unfoldable pub shown_stay : Stay → Stay
shown_stay stay = record stay { booking_ref = []; contacts = [] }

unfoldable pub shown_transfer : Transfer → Transfer
shown_transfer t = record t { booking_ref = [] }

unfoldable pub shown_item : Item → Item
shown_item i = record i {
  booking_ref = [];
  paid_by = none;
  cost_split = split_none;
  cost_shares = [];
}

unfoldable pub shown_stop : Stop → Stop
shown_stop stop = record stop { paid_by = none; cost_split = split_none; cost_shares = [] }

unfoldable pub shown_track : Track → Track
unfolding shown_stop
shown_track recorded = record recorded { stops = map shown_stop recorded.stops }

-- `ForShareLink`
unfoldable pub for_share_link : DocumentContent → DocumentContent
unfolding shown_stay shown_transfer shown_item shown_track
for_share_link c = record c {
  stays = map shown_stay c.stays;
  transfers = map shown_transfer c.transfers;
  items = map shown_item c.items;
  tracks = map shown_track c.tracks;
}
