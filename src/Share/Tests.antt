-- ===== src/Share/Tests.antt =====
-- A link for a week, a document that it shows, and the theorems on them.
use tripvault.Base.{
  suc, [], ◌∷◌, ◌++◌, ◌≡◌, refl, true, false, none, some, ok, ◌↔◌, ◌>>=◌, refuse_if,
}
use tripvault.Base.Text.{text, trim_space}
use tripvault.Domain.Values.{Time}
use tripvault.Domain.Trimmed.{IsTrimmed}
use tripvault.Domain.Kinds.{split_individuals}
use tripvault.Domain.Content.{DocumentContent}
use tripvault.Domain.Samples.{content, walk, view}
use tripvault.Share.Shown.{for_share_link}
use tripvault.Share.Unseen.{Secrets, content_with, for_share_link-content_with}
use tripvault.Share.{ShareLink, normalize_share_link, is_active_link, max_share_label_length}
use tripvault.Share.Open.{IsBefore, normalize_share_link-opens}

abbrev link : ShareLink
link = record {
  id = 1;
  trip_id = 2;
  label = text "For my parents";
  include_private_media = false;
  allow_download = false;
  expires_at = some 700;
  revoked_at = none;
  created_by = 3;
  last_used_at = none;
  use_count = 0;
  created_at = 100;
}

abbrev typed_link : ShareLink
typed_link = record link { label = text " For my parents" }

normalize_share_link-opens_example :
    IsTrimmed max_share_label_length link.label
    × (normalize_share_link link 100 ≡ ok link)
    × ((typed_link.revoked_at ≡ none)
        → (is_active_link link 100 ≡ true)
          × ((t : Time) → (is_active_link link t ≡ true) ↔ IsBefore typed_link.expires_at t))
unfolding normalize_share_link ◌>>=◌ refuse_if trim_space
normalize_share_link-opens_example = normalize_share_link-opens typed_link link 100 refl

abbrev trip_document : DocumentContent
trip_document = record content { tracks = record walk { stops = view ∷ [] } ∷ [] }

abbrev business : Secrets
business = record {
  booking_ref = λ id. text "QX7-" ++ text "3";
  contacts = λ id. text "+49 30 1";
  paid_by = λ id. some (suc id);
  cost_split = λ id. split_individuals;
  cost_shares = λ id. record { user_id = id; amount = some 5 } ∷ [];
}

for_share_link-content_with_example :
    (for_share_link (content_with business trip_document) ≡ for_share_link trip_document)
    × (content_with business (for_share_link trip_document) ≡ content_with business trip_document)
for_share_link-content_with_example = for_share_link-content_with business trip_document
