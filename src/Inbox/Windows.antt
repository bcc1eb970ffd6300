-- ===== src/Inbox/Windows.antt =====
-- A pause lasts until its end, the last one counts, and pairs do not disturb one another.
use wapsell_saas.Prelude.{
  ℕ, ◌≡◌, refl, false, ◌&&◌, none, some, [], ◌∷◌, Text, ◌==◌, eq_iff, arith, ltb, if◌then◌else◌,
}
use wapsell_saas.Inbox.Defs.{BotPause, Pauses, is_of, get, is_paused, put, pause, resume}

get-put :
    (t b : Text) (p : BotPause) (ps : Pauses)
    → get t b (put p ps) ≡ (if is_of t b p then some p else get t b ps)
unfolding get put
get-put t b p [] = refl
get-put t b p (q ∷ qs) = ground (
  arith,
  get-put t b p qs,
  eq_iff p.tenant_id t,
  eq_iff p.buyer_id b,
  eq_iff q.tenant_id t,
  eq_iff q.buyer_id b,
  eq_iff q.tenant_id p.tenant_id,
  eq_iff q.buyer_id p.buyer_id,
)

get-resume :
    (t b t' b' : Text) (ps : Pauses)
    → get t b (resume t' b' ps) ≡ (if t' == t && b' == b then none else get t b ps)
unfolding get resume
get-resume t b t' b' [] = ground arith
get-resume t b t' b' (q ∷ qs) = ground (
  arith,
  get-resume t b t' b' qs,
  eq_iff t' t,
  eq_iff b' b,
  eq_iff q.tenant_id t,
  eq_iff q.buyer_id b,
  eq_iff q.tenant_id t',
  eq_iff q.buyer_id b',
)

-- After a pause the pair is silent exactly at the times before its end, whatever pauses came
-- before; after a resume it is not silent; and every other pair is as it was.
pub is_paused-pause :
    (t b t' b' : Text) (until now : ℕ) (ps : Pauses)
    → (is_paused t b now (pause t' b' until ps).1
        ≡ (if t' == t && b' == b then ltb now until else is_paused t b now ps))
      × (is_paused t b now (resume t' b' ps)
          ≡ (if t' == t && b' == b then false else is_paused t b now ps))
unfolding is_paused pause
is_paused-pause t b t' b' until now ps = (
  ground (arith, get-put t b (record { tenant_id = t'; buyer_id = b'; paused_until = until }) ps),
  ground (arith, get-resume t b t' b' ps),
)
