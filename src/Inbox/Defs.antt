-- ===== src/Inbox/Defs.antt =====
-- `InMemoryBotPauseRepository` of sdk/wapsell/inbox/repository.py. The dictionary keyed by the pair
-- (tenant, buyer) is the list of its values, which carry the pair.
use wapsell_saas.Prelude.{
  ℕ, Bool, false, not, ◌&&◌, Option, none, some, List, [], ◌∷◌, Text, ◌==◌, find, filter, ltb,
  if◌then◌else◌,
}

pub record BotPause : Type 0 where
  pub tenant_id : Text
  pub buyer_id : Text
  pub paused_until : ℕ

abbrev pub Pauses : Type 0
Pauses = List BotPause

abbrev pub is_of : Text → Text → BotPause → Bool
is_of tenant_id buyer_id p = p.tenant_id == tenant_id && p.buyer_id == buyer_id

unfoldable pub get : Text → Text → Pauses → Option BotPause
get tenant_id buyer_id ps = find (is_of tenant_id buyer_id) ps

unfoldable pub is_paused : Text → Text → ℕ → Pauses → Bool
unfolding get
is_paused tenant_id buyer_id now ps = elim (get tenant_id buyer_id ps) [
  | none ↦ false
  | some p ↦ ltb now p.paused_until
]

unfoldable pub put : BotPause → Pauses → Pauses
put p [] = p ∷ []
put p (q ∷ qs) = if is_of p.tenant_id p.buyer_id q then p ∷ qs else q ∷ put p qs

unfoldable pub pause : Text → Text → ℕ → Pauses → BotPause × Pauses
unfolding put
pause tenant_id buyer_id until ps =
    let p : BotPause = record {
      tenant_id = tenant_id;
      buyer_id = buyer_id;
      paused_until = until;
    } in
    (p, put p ps)

unfoldable pub resume : Text → Text → Pauses → Pauses
resume tenant_id buyer_id ps = filter (λ p. not (is_of tenant_id buyer_id p)) ps

unfoldable pub list_active : Text → ℕ → Pauses → List BotPause
list_active tenant_id now ps = filter (λ p. p.tenant_id == tenant_id && ltb now p.paused_until) ps
