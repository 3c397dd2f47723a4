-- ===== src/Quota/Tests.antt =====
-- A store with an allowance of 1000 bytes.
use tripvault.Base.{none, some, [], ◌∷◌, ◌≡◌, refl, arith, leb, if◌then◌else◌}
use tripvault.Base.Text.{text}
use tripvault.Quota.{
  got, failed, Stores, StorageUsage, unlock, storage_quota, reserve, usage, used_bytes,
}
use tripvault.Quota.Bound.{after, reserve_exact}
use tripvault.Quota.Turns.{Site, FitsLimit, here, next, Step, admit, Reach-FitsLimit}

abbrev stores : Stores
stores = record {
  settings = got (record { trip_quota_bytes = 0 });
  stored_database_bytes = got 300;
  objects = got (
      record { key = text "media/1"; size = 400; modified = 0 }
      ∷ record { key = text ".previews/1"; size = 900; modified = 0 }
      ∷ []);
}

abbrev measured : StorageUsage
measured = record {
  media_bytes = 400;
  database_bytes = 300;
  limit_bytes = 1000;
  trip_quota_bytes = 0;
}

refused : reserve 1000 stores 301 ≡ failed storage_quota
unfolding reserve
refused = refl

reserve_exact_example :
    reserve 1000 stores 300
    ≡ (if leb (after (used_bytes measured) 300) 1000 then got unlock else failed storage_quota)
unfolding usage used_bytes
reserve_exact_example =
    reserve_exact 1000 stores 300 measured (λ e. cc e) (omega arith) (omega arith) refl
      (omega arith)

abbrev idle : Site
idle = record { stores = stores; ceiling = none }

abbrev working : Site
working = record { stores = stores; ceiling = some 1000 }

idle-FitsLimit : FitsLimit 1000 idle
unfolding usage used_bytes
idle-FitsLimit = (λ n (u, e, h). ground (arith, e, h), tt)

let_in : Step 1000 idle working
unfolding reserve usage used_bytes
let_in = admit 300 700 (omega arith) refl (measured, refl, refl) refl refl

Reach-FitsLimit_example : FitsLimit 1000 working
Reach-FitsLimit_example =
    Reach-FitsLimit 1000 (λ e. absurd (omega arith)) (omega arith) idle working idle-FitsLimit
      (next here let_in)
