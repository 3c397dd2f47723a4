-- ===== src/Packing/Checked.antt =====
-- What the checks of a packing list accept.
use tripvault.Base.{
  ℕ, ◌≤◌, ◌<◌, false, ◌≡◌, ok, Returns, Returns-ok, Returns-refuse, Returns-bind, goes_on, arith,
  ◌==◌, ◌||◌,
}
use tripvault.Base.Int64.{lt64, word}
use tripvault.Base.Text.{Text, is_empty}
use Prim.Native.String.{String}
use tripvault.Domain.Checks.{max_short_text, trimmed_text}
use tripvault.Domain.Trimmed.{IsTrimmed, trimmed_text-IsTrimmed, trimmed_text_fixed}
use tripvault.Packing.{
  PackingItem, normalize_packing_item, required_packing_text, max_packing_item_name,
  max_packing_quantity,
}

abbrev pub IsRequired : ℕ → Text → Type 0
IsRequired limit v = IsTrimmed limit v × (is_empty v ≡ false)

required_packing_text-IsRequired :
    (field : String) (value : Text) (limit : ℕ)
    → Returns (IsRequired limit) (required_packing_text field value limit)
unfolding required_packing_text
required_packing_text-IsRequired field value limit =
    Returns-bind (trimmed_text field value limit) _ (λ v e.
      Returns-refuse _ _ _
        (λ filled. Returns-ok ((trimmed_text-IsTrimmed field value limit).at v e, filled)))

required_packing_text_fixed :
    (field : String) (v : Text) (limit : ℕ)
    → IsRequired limit v
    → required_packing_text field v limit ≡ ok v
unfolding required_packing_text
required_packing_text_fixed field v limit (trimmed, filled) =
    rw (trimmed_text_fixed field v limit trimmed) (simp (goes_on, filled))

-- An item as the database may hold it.
pub record IsValidItem (i : PackingItem) : Type 0 where
  pub named : IsRequired max_packing_item_name i.name
  pub noted : IsTrimmed max_short_text i.note
  pub some_of_it : 1 ≤ i.quantity
  pub not_too_many : i.quantity ≤ max_packing_quantity

normalize_packing_item_ok :
    (i : PackingItem) → i.quantity < word → Returns IsValidItem (normalize_packing_item i)
unfolding normalize_packing_item
normalize_packing_item_ok i fits =
    Returns-bind (required_packing_text "name" i.name max_packing_item_name) _ (λ name e.
      Returns-bind (trimmed_text "note" i.note max_short_text) _ (λ note f.
        Returns-refuse _ _ _ (λ inside. Returns-ok (record {
          named = (required_packing_text-IsRequired "name" i.name max_packing_item_name).at name e;
          noted = (trimmed_text-IsTrimmed "note" i.note max_short_text).at note f;
          some_of_it = ground (arith, inside, fits);
          not_too_many = ground (arith, inside, fits);
        }))))

normalize_packing_item_fixed : (i : PackingItem) → IsValidItem i → normalize_packing_item i ≡ ok i
unfolding normalize_packing_item
normalize_packing_item_fixed i h =
    let counted : (i.quantity == 0) ≡ false = ground (arith, h.some_of_it) in
    let inside : (lt64 i.quantity 1 || lt64 max_packing_quantity i.quantity) ≡ false =
      ground (arith, h.some_of_it, h.not_too_many) in
    rw (required_packing_text_fixed "name" i.name max_packing_item_name h.named) (
      rw (trimmed_text_fixed "note" i.note max_short_text h.noted)
        (simp (goes_on, counted, inside)))

-- An item that `Normalize` accepts has a trimmed name of 1 to 200 characters, a trimmed note of at
-- most 500 and a quantity from 1 to 999, and normalising it again changes nothing. The quantity
-- that comes in is a 64-bit pattern.
pub normalize_packing_item-IsValidItem :
    (i j : PackingItem)
    → i.quantity < word
    → normalize_packing_item i ≡ ok j
    → IsValidItem j × (normalize_packing_item j ≡ ok j)
normalize_packing_item-IsValidItem i j fits e =
    let valid = (normalize_packing_item_ok i fits).at j e in
    (valid, normalize_packing_item_fixed j valid)
