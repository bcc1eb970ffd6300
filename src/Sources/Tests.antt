-- ===== src/Sources/Tests.antt =====
-- A source with one row, and an item of another source.
use wapsell_saas.Prelude.{
  ℕ, ◌≡◌, ◌≢◌, refl, ◌==◌, none, some, [], ◌∷◌, Text, codes, lookup, IsKeyed, ok, false, ◌-◌, leb,
}
use wapsell_saas.Prelude.Values.{text, rejected}
use wapsell_saas.Resources.{Resource}
use wapsell_saas.Sources.Defs.{DataSource, Feed, Stores, sync}
use wapsell_saas.Sources.Outcome.{sync_isolated}
use wapsell_saas.Sources.Scheduler.{Clock}

abbrev source : DataSource
source = record {
  id = codes "s1";
  tenant_id = codes "t1";
  kind = codes "json_api";
  name = codes "Stock";
  config = [];
  last_synced_at = none;
  last_sync_ok = none;
  last_sync_count = none;
  last_sync_error = none;
  status = codes "active";
  created_at = 1;
}

abbrev feed : Feed
feed = record {
  fetch = λ s. ok (((codes "sku", text (codes "A1")) ∷ []) ∷ []);
  show_int = λ z. [];
  is_space = λ c. false;
  digest = λ row. codes "digest";
  dumps = λ row. codes "row";
  new_id = λ i. 110 ∷ i ∷ [];
  now = 9;
}

abbrev item : Resource
item = record {
  id = codes "x";
  tenant_id = codes "t1";
  source_id = none;
  kind = codes "item";
  external_id = some (codes "A1");
  data_ = [];
  summary = codes "Manual";
  status = codes "active";
  created_at = 1;
  updated_at = 1;
}

abbrev stores : Stores
stores = record { sources = (codes "s1", source) ∷ []; resources = (codes "x", item) ∷ [] }

sources-IsKeyed : IsKeyed DataSource.id stores.sources
unfolding lookup
sources-IsKeyed = (refl, refl, tt)

resources-IsKeyed : IsKeyed Resource.id stores.resources
unfolding lookup
resources-IsKeyed = (refl, refl, tt)

stored : lookup (codes "s1") stores.sources ≡ some source
unfolding lookup ◌==◌
stored = refl

sync_isolated_example :
    ((j : Text)
      → j ≢ codes "s1"
      → lookup j (sync feed (codes "s1") stores).1.sources ≡ lookup j stores.sources)
    × ((k : Text) (e : Resource)
        → ((j : ℕ) → k ≢ feed.new_id j)
        → ((e.tenant_id ≡ codes "t1") × (e.source_id ≡ some (codes "s1")) → ⊥)
        → lookup k stores.resources ≡ some e
        → lookup k (sync feed (codes "s1") stores).1.resources ≡ some e)
sync_isolated_example =
    sync_isolated feed (codes "s1") source stores sources-IsKeyed resources-IsKeyed stored

-- A clock of whole seconds
abbrev clock : Clock
clock = record {
  Number = ℕ;
  to_float = λ v. rejected;
  total_seconds = λ a b. a - b;
  at_most = leb;
  default_sync_interval = 86400;
}
