-- ===== src/Tenants/Store.antt =====
-- The invariant of the tenant repository: rows stand under their ids, and no slug and no phone
-- number belongs to two tenants.
use wapsell_saas.Prelude.{
  ◌≡◌, refl, sym, ◌∙◌, some, Text, eq_iff, lookup, insert, IsKeyed, insert-IsKeyed, AtMostOne,
  AtMostOne-insert, is_text→eq,
}
use wapsell_saas.Models.{Tenant}
use wapsell_saas.Tenants.Defs.{TenantRepo, has_slug, has_phone}

pub record IsStore (d : TenantRepo) : Type 0 where
  pub keyed : IsKeyed Tenant.id d
  pub slugs : (s : Text) → AtMostOne (has_slug s) d
  pub phones : (s : Text) → AtMostOne (has_phone s) d

-- A row whose slug and phone number belong to no row stored under another id.
pub record IsNew (t : Tenant) (d : TenantRepo) : Type 0 where
  pub slug : (j : Text) (w : Tenant) → lookup j d ≡ some w → w.slug ≡ t.slug → j ≡ t.id
  pub phone :
      (j : Text) (w : Tenant) (s : Text)
      → lookup j d ≡ some w
      → t.whatsapp_phone_number_id ≡ some s
      → w.whatsapp_phone_number_id ≡ some s
      → j ≡ t.id

pub insert-IsStore :
    (t : Tenant) (d : TenantRepo) → IsStore d → IsNew t d → IsStore (insert t.id t d)
insert-IsStore t d h n = record {
  keyed = insert-IsKeyed Tenant.id t.id t d refl h.keyed;
  slugs = λ s.
      AtMostOne-insert (has_slug s) t.id t d (h.slugs s)
        λ j w l pw pt. n.slug j w l ((eq_iff w.slug s).0 pw ∙ sym ((eq_iff t.slug s).0 pt));
  phones = λ s. AtMostOne-insert (has_phone s) t.id t d (h.phones s) λ j w l pw pt.
      n.phone j w s l (is_text→eq t.whatsapp_phone_number_id s pt)
        (is_text→eq w.whatsapp_phone_number_id s pw);
}
