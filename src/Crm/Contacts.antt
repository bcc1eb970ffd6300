-- ===== src/Crm/Contacts.antt =====
-- The contact of a phone number, and its count of turns.
use wapsell_saas.Prelude.{
  ℕ, suc, ◌+◌, ◌≡◌, refl, subst, Bool, true, Option, none, some, List, [], ◌∷◌, Text, codes, ◌==◌,
  eq_iff, eq_refl, Dict, lookup, insert, values, find, find-insert_new, find_unique, find-lookup,
  find-test, find-none, AtMostOne, AtMostOne-insert, IsKeyed, insert-IsKeyed, arith, Bool-cases,
  inl, inr, lookup-insert, length, lookup-insert_self, ℤ, pos, ◌+ℤ◌, is_text→eq, eq→is_text,
}
use wapsell_saas.Prelude.Values.{Value, int, truthy_value}
use wapsell_saas.Resources.{
  Resource, ResourceRepo, has_external, upsert, dedup, find_by_external_id,
}
use wapsell_saas.Resources.Store.{lookup-dedup, upsert-IsKeyed}
use wapsell_saas.Crm.Defs.{
  Python, contact_kind, contact_external_id, new_contact, named, turn_count, bumped,
  upsert_contact_for_inbound,
}

same_external :
    (t k x t' k' x' : Text) (w r : Resource)
    → has_external t k x w ≡ true
    → has_external t k x r ≡ true
    → has_external t' k' x' r ≡ true
    → has_external t' k' x' w ≡ true
same_external t k x t' k' x' w r pw pr qr = ground (
  arith,
  eq_iff w.tenant_id t,
  eq_iff r.tenant_id t,
  eq_iff r.tenant_id t',
  eq_iff w.tenant_id t',
  eq_iff w.kind k,
  eq_iff r.kind k,
  eq_iff r.kind k',
  eq_iff w.kind k',
  is_text→eq w.external_id x,
  is_text→eq r.external_id x,
  is_text→eq r.external_id x',
  eq→is_text w.external_id x',
)

-- Items stand under their ids, and no tenant has two of one kind and external id.
pub record IsCrm (d : ResourceRepo) : Type 0 where
  pub keyed : IsKeyed Resource.id d
  pub external : (t k x : Text) → AtMostOne (has_external t k x) d

lookup-named :
    (p : Option Text) (d : Dict Value)
    → lookup (codes "turn_count") (named p d) ≡ lookup (codes "turn_count") d
unfolding ◌==◌
lookup-named none d = refl
lookup-named (some []) d = refl
lookup-named (some (c ∷ s)) d = rw lookup-insert

-- The contact with identifier `i` is found by the phone number, with `c` turns.
abbrev pub Turns : Python → Text → Text → Text → ℤ → ResourceRepo → Type 0
Turns py t n i c d =
    (r : Resource) × (find_by_external_id t contact_kind (contact_external_id n) d ≡ some r)
    × (r.id ≡ i)
    × (turn_count py r.data_ ≡ some c)

module _ (py : Python) (counts : (z : ℤ) → py.to_int (int z) ≡ some z) where
  turn_count-new_contact :
      (id t n : Text) (p : Option Text) (at : ℕ)
      → turn_count py (new_contact py id t n p at).data_ ≡ some (pos 1)
  unfolding turn_count new_contact
  turn_count-new_contact id t n p at =
      rw (lookup-named p, turn_count) (unfold lookup ◌==◌ in counts (pos 1))

  turn_count-bumped :
      (n : Text) (p : Option Text) (at : ℕ) (z : ℤ) (r : Resource)
      → turn_count py (bumped py n p at z r).data_ ≡ some (z +ℤ pos 1)
  unfolding turn_count bumped
  turn_count-bumped n p at z r =
      let seen : Dict Value =
        insert (codes "turn_count") (int (z +ℤ pos 1))
          (insert (codes "last_seen_at") (Value.text (py.isoformat at)) r.data_) in
      let l : lookup (codes "turn_count") seen ≡ some (int (z +ℤ pos 1)) =
        lookup-insert_self (codes "turn_count") (int (z +ℤ pos 1)) _ in
      elim (Bool-cases (truthy_value (lookup (codes "name") seen))) [
        | inl e ↦ rw (e, l, turn_count) (counts (z +ℤ pos 1))
        | inr e ↦ rw (e, lookup-named p seen, l, turn_count) (counts (z +ℤ pos 1))
      ]

  module _ (id t n : Text) (p : Option Text) (at : ℕ) (d : ResourceRepo) (h : IsCrm d) where
    abbrev is_contact : Resource → Bool
    is_contact = has_external t contact_kind (contact_external_id n)

    -- A row that takes the place of one with the same tenant, kind and external id, or that is the
    -- first with them, keeps the store in order.
    upsert-IsCrm :
        (r : Resource)
        → ((t' k x : Text) (j : Text) (w : Resource)
            → lookup j d ≡ some w
            → has_external t' k x w ≡ true
            → has_external t' k x r ≡ true
            → j ≡ r.id)
        → IsCrm (upsert r d).1
    upsert-IsCrm r alone = record {
      keyed = upsert-IsKeyed r d h.keyed;
      external = λ t' k x.
          unfold upsert in
          AtMostOne-insert (has_external t' k x) r.id r (dedup r d)
            (λ j i v w lj li pv pw.
              h.external t' k x j i v w (lookup-dedup r j d v h.keyed lj)
                (lookup-dedup r i d w h.keyed li) pv pw)
            (λ j w l pw pr. alone t' k x j w (lookup-dedup r j d w h.keyed l) pw pr);
    }

    after : ResourceRepo
    after = (upsert_contact_for_inbound py id t n p at d).1

    new_passes : is_contact (new_contact py id t n p at) ≡ true
    unfolding new_contact
    new_passes = ground (arith, eq_refl t, eq_refl contact_kind, eq_refl (contact_external_id n))

    after_new :
        find_by_external_id t contact_kind (contact_external_id n) d ≡ none
        → after ≡ insert id (new_contact py id t n p at) d
    unfolding after upsert_contact_for_inbound
    after_new e = ground arith

    after_known :
        (c : ℤ) (r : Resource)
        → find_by_external_id t contact_kind (contact_external_id n) d ≡ some r
        → turn_count py r.data_ ≡ some c
        → after ≡ (upsert (bumped py n p at c r) d).1
    unfolding after upsert_contact_for_inbound
    after_known c r e f = ground arith

    -- The first message of a phone number makes one contact, with one turn.
    contact_new :
        find_by_external_id t contact_kind (contact_external_id n) d ≡ none
        → IsCrm after × Turns py t n id (pos 1) after
    unfolding find_by_external_id
    contact_new e =
        let r : Resource = new_contact py id t n p at in
        let stored : find is_contact (values (insert id r d)) ≡ some r =
          unfold new_contact in find-insert_new Resource.id is_contact r d h.keyed e new_passes in
        let made : IsCrm (insert id r d) = record {
          keyed = unfold new_contact in insert-IsKeyed Resource.id id r d refl h.keyed;
          external = λ t' k x.
              AtMostOne-insert (has_external t' k x) id r d (h.external t' k x) λ j w l pw pr.
                absurd (
                  cc (
                    find-none is_contact j d {v = w} e l,
                    same_external t' k x t contact_kind (contact_external_id n) w r pw pr
                        new_passes,
                  ));
        } in
        (
          rw (after_new e) made,
          rw (after_new e)
              (r, stored, (unfold new_contact in refl), turn_count-new_contact id t n p at),
        )

    -- Another message of a known phone number keeps the contact and counts one more turn.
    contact_known :
        (i : Text) (c : ℤ) → Turns py t n i c d → IsCrm after × Turns py t n i (c +ℤ pos 1) after
    unfolding find_by_external_id bumped
    contact_known i c (r, e, ei, ec) =
        let r' : Resource = bumped py n p at c r in
        let passes : is_contact r ≡ true =
          unfold find_by_external_id in find-test is_contact (values d) {x = r} e in
        let l : lookup r.id d ≡ some r =
          unfold find_by_external_id in find-lookup Resource.id is_contact d {v = r} h.keyed e in
        let made : IsCrm (upsert r' d).1 =
          upsert-IsCrm r'
            (λ t' k x j w lj pw pr. h.external t' k x j r.id w r lj l pw (unfold bumped in pr)) in
        let found : find is_contact (values (upsert r' d).1) ≡ some r' =
          find_unique Resource.id is_contact r.id (upsert r' d).1 {v = r'} made.keyed
            (made.external t contact_kind (contact_external_id n))
            (unfold upsert bumped in lookup-insert_self r.id r' (dedup r' d))
            (unfold bumped in passes) in
        (
          rw (after_known c r e ec) made,
          rw (after_known c r e ec)
              (r', found, (unfold bumped in ei), turn_count-bumped n p at c r),
        )

module _ (py : Python) (counts : (z : ℤ) → py.to_int (int z) ≡ some z) (t n : Text) where
  -- The messages of one phone number in turn: the identifier drawn for a new row, the profile name
  -- and the time of each.
  pub inbounds : List (Text × Option Text × ℕ) → ResourceRepo → ResourceRepo
  inbounds [] d = d
  inbounds ((id, p, at) ∷ ms) d = inbounds ms (upsert_contact_for_inbound py id t n p at d).1

  inbounds_known :
      (ms : List (Text × Option Text × ℕ)) (d : ResourceRepo) (i : Text) (c : ℕ)
      → IsCrm d
      → Turns py t n i (pos c) d
      → IsCrm (inbounds ms d) × Turns py t n i (pos (length ms + c)) (inbounds ms d)
  unfolding inbounds
  inbounds_known [] d i c h r =
      (h, let e : c ≡ 0 + c = omega arith in subst (λ (m : ℕ). Turns py t n i (pos m) d) e r)
  inbounds_known ((id, p, at) ∷ ms) d i c h r =
      let d' : ResourceRepo = (upsert_contact_for_inbound py id t n p at d).1 in
      let (h', r') = contact_known py counts id t n p at d h i (pos c) r in
      let e : pos c +ℤ pos 1 ≡ pos (c + 1) = unfold ◌+ℤ◌ in ground arith in
      let (k, q) =
        inbounds_known ms d' i (c + 1) (unfold after in h')
          (unfold after in subst (λ z. Turns py t n i z d') e r') in
      let f : length ms + (c + 1) ≡ suc (length ms) + c = omega arith in
      (k, subst (λ (m : ℕ). Turns py t n i (pos m) (inbounds ms d')) f q)

  -- After any messages of a phone number that had no contact, there is one contact for the number,
  -- the row that the first message made, and its turns are as many as the messages, if `int` keeps
  -- integers.
  pub inbounds_count :
      (id : Text) (p : Option Text) (at : ℕ) (ms : List (Text × Option Text × ℕ)) (d : ResourceRepo)
      → IsCrm d
      → find_by_external_id t contact_kind (contact_external_id n) d ≡ none
      → let d' = inbounds ((id, p, at) ∷ ms) d in
        IsCrm d' × Turns py t n id (pos (length ms + 1)) d'
  unfolding inbounds
  inbounds_count id p at ms d h e =
      let (h', r') = contact_new py counts id t n p at d h e in
      inbounds_known ms (upsert_contact_for_inbound py id t n p at d).1 id 1 (unfold after in h')
        (unfold after in r')
