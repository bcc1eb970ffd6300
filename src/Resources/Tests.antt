-- ===== src/Resources/Tests.antt =====
-- An item that replaces the stored one of its key, and a search among items with prices.
use wapsell_saas.Prelude.{
  ℕ, ◌≡◌, ◌≢◌, refl, false, none, some, [], ◌∷◌, Text, codes, ◌==◌, lookup, IsKeyed, leb,
}
use wapsell_saas.Prelude.Int.{pos}
use wapsell_saas.Prelude.Values.{Value, int, Floated, number, rejected}
use wapsell_saas.Resources.Defs.{Resource, ResourceRepo, upsert}
use wapsell_saas.Resources.Search.{Compare, search_items}
use wapsell_saas.Resources.Store.{upsert_dedups}

abbrev pub item : Text → Resource
item id = record {
  id = id;
  tenant_id = codes "t1";
  source_id = some (codes "s1");
  kind = codes "product";
  external_id = some (codes "x1");
  data_ = [];
  summary = codes "Remera";
  status = codes "active";
  created_at = 1;
  updated_at = 1;
}

abbrev stock : ResourceRepo
stock = (codes "r1", item (codes "r1")) ∷ []

stock-IsKeyed : IsKeyed Resource.id stock
unfolding lookup
stock-IsKeyed = (refl, refl, tt)

upsert_dedups_example :
    (lookup (codes "r2") (upsert (item (codes "r2")) stock).1 ≡ some (item (codes "r2")))
    × ((k : Text) (e : Resource)
        → lookup k (upsert (item (codes "r2")) stock).1 ≡ some e
        → e.tenant_id ≡ codes "t1"
        → e.source_id ≡ some (codes "s1")
        → e.external_id ≡ some (codes "x1")
        → e ≡ item (codes "r2"))
    × ((k : Text) (e : Resource)
        → k ≢ codes "r2"
        → lookup k stock ≡ some e
        → ((e.tenant_id ≡ codes "t1")
              × (e.source_id ≡ some (codes "s1"))
              × (e.external_id ≡ some (codes "x1"))
            → ⊥)
        → lookup k (upsert (item (codes "r2")) stock).1 ≡ some e)
upsert_dedups_example =
    upsert_dedups (item (codes "r2")) (codes "s1") (codes "x1") stock stock-IsKeyed refl refl

abbrev number_of : Value → Floated ℕ
number_of (int (pos n)) = number n
number_of v = rejected

abbrev pub compare : Compare
compare = record {
  unicode = record { lower = λ t. t; is_space = λ c. false };
  Number = ℕ;
  to_float = number_of;
  at_most = leb;
  same = λ v w. false;
  dumps = λ d. [];
}

abbrev pub priced : Text → ℕ → Resource
priced id n = record (item id) { data_ = (codes "price", int (pos n)) ∷ []; external_id = none }

abbrev pub catalog : ResourceRepo
catalog =
    (codes "r1", priced (codes "r1") 90)
    ∷ (codes "r2", priced (codes "r2") 120)
    ∷ (codes "r3", item (codes "r3"))
    ∷ []

-- At most 100, and a summary with the word
cheap :
    search_items compare
      (codes "t1")
      ((codes "max_price", int (pos 100)) ∷ [])
      (some (codes "Remera"))
      (some (codes "product"))
      10
      catalog
    ≡ some (priced (codes "r1") 90 ∷ item (codes "r3") ∷ [])
unfolding search_items ◌==◌ lookup
cheap = refl
