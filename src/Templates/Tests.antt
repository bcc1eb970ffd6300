-- ===== src/Templates/Tests.antt =====
-- A shop with two templates.
use wapsell_saas.Prelude.{
  ◌≡◌, refl, none, some, [], ◌∷◌, Text, codes, lookup, ◌==◌, insert, true, arith, eq_iff,
}
use wapsell_saas.Models.{MessageTemplate, draft, approved, utility}
use wapsell_saas.Access.{optional_current_user}
use wapsell_saas.Takeover.{Desk}
use wapsell_saas.Takeover.Tests.{desk, context}
use wapsell_saas.Templates.Defs.{
  is_named, TemplateCreate, TemplateUpdate, create_template, delete_template, update_template,
}
use wapsell_saas.Templates.Unique.{IsTemplateStore, routes-IsTemplateStore}

abbrev template : Text → Text → MessageTemplate
template id name = record {
  id = id;
  tenant_id = codes "t1";
  name = name;
  language = codes "es_AR";
  category = utility;
  body = codes "Hola {{1}}";
  status = draft;
  vendor_template_id = none;
  rejection_reason = none;
  created_at = 1;
  submitted_at = none;
  approved_at = none;
}

abbrev shop : Desk
shop = record desk { templates = (codes "m1", template (codes "m1") (codes "promo")) ∷ [] }

shop-IsTemplateStore : IsTemplateStore shop.templates
unfolding lookup
shop-IsTemplateStore = record { keyed = (refl, refl, tt); names = λ a n l. one a n l }
  where
    one :
        (a n l : Text) (j k : Text) (v w : MessageTemplate)
        → lookup j shop.templates ≡ some v
        → lookup k shop.templates ≡ some w
        → is_named a n l v ≡ true
        → is_named a n l w ≡ true
        → j ≡ k
    one a n l j k v w lj lk pv pw = ground (arith, eq_iff (codes "m1") j, eq_iff (codes "m1") k)

abbrev approve : TemplateUpdate
approve = record {
  name = none;
  body = none;
  language = none;
  category = none;
  status = some approved;
  vendor_template_id = none;
  rejection_reason = none;
}

abbrev again : TemplateCreate
again = record {
  name = codes "promo";
  body = codes "Hola";
  language = codes "es_AR";
  category = utility;
}

routes-IsTemplateStore_example :
    IsTemplateStore (create_template (codes "m2") 5 (codes "t1") again context shop).1.templates
    × IsTemplateStore (delete_template (codes "t1") (codes "m1") context shop).1.templates
    × IsTemplateStore (update_template 5 (codes "t1") (codes "m1") approve context shop).1.templates
routes-IsTemplateStore_example =
    routes-IsTemplateStore (codes "m2") (codes "m1") 5 (codes "t1") again approve context shop
      shop-IsTemplateStore refl refl

-- A rename to the name of another template of the tenant is accepted.
abbrev crowded : Desk
crowded = record desk {
  templates =
      (codes "m1", template (codes "m1") (codes "promo"))
      ∷ (codes "m2", template (codes "m2") (codes "alta"))
      ∷ [];
}

renamed :
    (update_template 5
      (codes "t1")
      (codes "m2")
      (record approve { name = some (codes "promo"); status = none })
      context
      crowded).1.templates
    ≡ (codes "m1", template (codes "m1") (codes "promo"))
      ∷ (codes "m2", template (codes "m2") (codes "promo"))
      ∷ []
unfolding update_template optional_current_user lookup ◌==◌ insert
renamed = refl
