-- ===== src/Sources/Rounds.antt =====
-- The rounds of a tick.
use wapsell_saas.Prelude.{
  ℕ, ◌+◌, Bool, Option, if◌then◌else◌, ◌≡◌, ◌≢◌, refl, sym, ap, ◌∙◌, true, false, none, some, List,
  [], ◌∷◌, Text, ◌==◌, eq_iff, find, All, lookup, lookup-key, Result, ok, err, arith, Bool-cases,
  inl, inr,
}
use wapsell_saas.Sources.Defs.{
  DataSource, other_error, Feed, SyncReport, SyncError, Stores, resource_kind, sync_source, sync,
}
use wapsell_saas.Sources.Outcome.{sync_known}
use wapsell_saas.Sources.Scheduler.{Clock, is_due, count, visited, tick_source, tick_sources}
use wapsell_saas.Sources.Recorded.{IsStored, sync_other, sync-IsStored, sync_source-IsRecorded}

module _ (c : Clock) (feeds : ℕ → Feed) (now : ℕ) where
  -- Whether `_is_due` returns true.
  abbrev pub due : DataSource → Bool
  due x = elim (is_due c x now) [ none ↦ false | some b ↦ b ]

  -- A round, and the rounds, of a tick in which `_is_due` never raises.
  unfoldable round : ℕ → DataSource → ℕ × Stores → ℕ × Stores
  unfolding sync count
  round i x (n, w) = if due x then count c n (sync (feeds i) x.id w) else (n, w)

  unfoldable pub rounds : ℕ → List DataSource → ℕ × Stores → ℕ × Stores
  unfolding round
  rounds i [] a = a
  rounds i (x ∷ xs) a = rounds (i + 1) xs (round i x a)

  tick_source-round :
      (i : ℕ) (x : DataSource) (a : ℕ × Stores)
      → is_due c x now ≢ none
      → tick_source c feeds now i x a ≡ (some (round i x a).0, (round i x a).1)
  unfolding tick_source visited round
  tick_source-round i x (n, w) h = at_due (is_due c x now) h
    where
      at_due :
          (o : Option Bool)
          → o ≢ none
          → let a =
              if elim o as (λ q. Bool) [ none ↦ false | some b ↦ b ]
              then count c n (sync (feeds i) x.id w)
              else (n, w) in
            visited c o (count c n (sync (feeds i) x.id w)) (n, w) ≡ (some a.0, a.1)
      at_due none k = absurd (k refl)
      at_due (some true) k = refl
      at_due (some false) k = refl

  pub tick_sources-rounds :
      (i : ℕ) (xs : List DataSource) (a : ℕ × Stores)
      → All (λ x. is_due c x now ≢ none) xs
      → tick_sources c feeds now i xs a ≡ (some (rounds i xs a).0, (rounds i xs a).1)
  unfolding tick_sources rounds
  tick_sources-rounds i [] (n, w) h = refl
  tick_sources-rounds i (x ∷ xs) a h =
      ap (λ r. continued r) (tick_source-round i x a h.0)
      ∙ tick_sources-rounds (i + 1) xs (round i x a) h.1
    where
      continued : Option ℕ × Stores → Option ℕ × Stores
      continued (o, w) = elim o as (λ q. Option ℕ × Stores) [
        | none ↦ (none, w)
        | some n ↦ tick_sources c feeds now (i + 1) xs (n, w)
      ]

  round-due :
      (i : ℕ) (x : DataSource) (n : ℕ) (w : Stores)
      → due x ≡ true
      → (round i x (n, w)).1 ≡ (sync (feeds i) x.id w).1
  unfolding count round sync
  round-due i x n w e = rw e (counted (sync (feeds i) x.id w))
    where
      counted : (a : Result SyncError SyncReport × Stores) → (count c n a).1 ≡ a.1
      counted (ok r, v) = refl
      counted (err e, v) = refl

  round_kept :
      (i : ℕ) (x : DataSource) (n : ℕ) (w : Stores) → due x ≡ false → (round i x (n, w)).1 ≡ w
  unfolding round
  round_kept i x n w e = rw e refl

  round-IsStored :
      (i : ℕ) (x : DataSource) (n : ℕ) (w : Stores) → IsStored w → IsStored (round i x (n, w)).1
  round-IsStored i x n w h = elim (Bool-cases (due x)) [
    | inl e ↦ rw (round-due i x n w e) (sync-IsStored (feeds i) x.id w h)
    | inr e ↦ rw (round_kept i x n w e) h
  ]

  round_other :
      (i : ℕ) (x : DataSource) (n : ℕ) (w : Stores) (j : Text)
      → IsStored w
      → j ≢ x.id
      → lookup j (round i x (n, w)).1.sources ≡ lookup j w.sources
  round_other i x n w j h ne = elim (Bool-cases (due x)) [
    | inl e ↦
        ap (λ v. lookup j v.sources) (round-due i x n w e) ∙ sync_other (feeds i) x.id j w h ne
    | inr e ↦ ap (λ v. lookup j v.sources) (round_kept i x n w e)
  ]

  -- A source that every listed row of its id says is not due.
  pub rounds_kept :
      (i : ℕ) (xs : List DataSource) (n : ℕ) (w : Stores) (j : Text)
      → IsStored w
      → All (λ x. x.id ≡ j → due x ≡ false) xs
      → lookup j (rounds i xs (n, w)).1.sources ≡ lookup j w.sources
  unfolding rounds
  rounds_kept i [] n w j h a = refl
  rounds_kept i (x ∷ xs) n w j h a =
      rounds_kept (i + 1) xs (round i x (n, w)).0 (round i x (n, w)).1 j (round-IsStored i x n w h)
        a.1
      ∙ elim (Bool-cases (x.id == j)) [
        | inl e ↦ ap (λ v. lookup j v.sources) (round_kept i x n w (a.0 ((eq_iff x.id j).0 e)))
        | inr e ↦ round_other i x n w j h (λ q. ground (arith, eq_iff x.id j))
      ]

  module _ (s : DataSource) (kind : Text) where
    -- The source's row, with its configuration.
    abbrev Row : Stores → Type 0
    Row w = (x : DataSource) × (lookup s.id w.sources ≡ some x) × (x.config ≡ s.config)

    -- The row after one of the synchronizations of the tick.
    abbrev pub IsSynced : Stores → Type 0
    IsSynced w =
        (i : ℕ) × (x : DataSource) × (lookup s.id w.sources ≡ some x)
        × (x.config ≡ s.config)
        × (x.last_synced_at ≡ some (feeds i).now)
        × (x.last_sync_ok ≢ none)

    abbrev pub IsCalm : Type 0
    IsCalm =
        (i : ℕ) (x : DataSource) (e : Text) → x.id ≡ s.id → (feeds i).fetch x ≢ err (other_error e)

    sync-IsSynced :
        (i : ℕ) (w : Stores)
        → IsStored w
        → resource_kind s.config ≡ some kind
        → IsCalm
        → Row w
        → IsSynced (sync (feeds i) s.id w).1
    sync-IsSynced i w h k calm (x, l, same) =
        let q : x.id ≡ s.id = lookup-key DataSource.id s.id w.sources h.0 l in
        let (v, a, (b, t, o)) =
          sync_source-IsRecorded (feeds i) x ((feeds i).fetch x) kind w (λ z. cc)
            (ap resource_kind same ∙ k) (λ e. calm i x e q) in
        (
          i,
          v,
          ap (λ r. lookup s.id r.1.sources) (sync_known (feeds i) s.id x w l)
              ∙ (ap (λ j. lookup j (sync_source (feeds i) x ((feeds i).fetch x) w).1.sources)
                    (sym q)
                  ∙ a),
          b ∙ same,
          t,
          o,
        )

    IsSynced→Row : (w : Stores) → IsSynced w → Row w
    IsSynced→Row w (i, x, l, e, t, o) = (x, l, e)

    -- A round on the source, which is due, synchronizes it.
    round-IsSynced :
        (i : ℕ) (x : DataSource) (n : ℕ) (w : Stores)
        → IsStored w
        → resource_kind s.config ≡ some kind
        → IsCalm
        → x.id ≡ s.id
        → due x ≡ true
        → Row w
        → IsSynced (round i x (n, w)).1
    round-IsSynced i x n w h k calm e due r =
        rw (round-due i x n w due, e) (sync-IsSynced i w h k calm r)

    transfer-Row : (v w : Stores) → lookup s.id v.sources ≡ lookup s.id w.sources → Row w → Row v
    transfer-Row v w q (x, l, e) = (x, q ∙ l, e)

    transfer-IsSynced :
        (v w : Stores) → lookup s.id v.sources ≡ lookup s.id w.sources → IsSynced w → IsSynced v
    transfer-IsSynced v w q (i, x, l, e, t, o) = (i, x, q ∙ l, e, t, o)

    rounds-IsSynced_more :
        (i : ℕ) (xs : List DataSource) (n : ℕ) (w : Stores)
        → IsStored w
        → resource_kind s.config ≡ some kind
        → IsCalm
        → All (λ x. x.id ≡ s.id → due x ≡ true) xs
        → IsSynced w
        → IsSynced (rounds i xs (n, w)).1
    unfolding rounds
    rounds-IsSynced_more i [] n w h k calm a r = r
    rounds-IsSynced_more i (x ∷ xs) n w h k calm a r =
        rounds-IsSynced_more (i + 1) xs (round i x (n, w)).0 (round i x (n, w)).1
          (round-IsStored i x n w h) k calm a.1
          (elim (Bool-cases (x.id == s.id)) [
            | inl e ↦
                let q : x.id ≡ s.id = (eq_iff x.id s.id).0 e in
                round-IsSynced i x n w h k calm q (a.0 q) (IsSynced→Row w r)
            | inr e ↦
                transfer-IsSynced (round i x (n, w)).1 w
                  (round_other i x n w s.id h (λ q. ground (arith, eq_iff x.id s.id))) r
          ])

    pub rounds-IsSynced :
        (i : ℕ) (xs : List DataSource) (n : ℕ) (w : Stores)
        → IsStored w
        → resource_kind s.config ≡ some kind
        → IsCalm
        → All (λ x. x.id ≡ s.id → due x ≡ true) xs
        → find (λ x. x.id == s.id) xs ≢ none
        → Row w
        → IsSynced (rounds i xs (n, w)).1
    unfolding round rounds
    rounds-IsSynced i [] n w h k calm a there r = absurd (there refl)
    rounds-IsSynced i (x ∷ xs) n w h k calm a there r = elim (Bool-cases (x.id == s.id)) [
      | inl e ↦
          let q : x.id ≡ s.id = (eq_iff x.id s.id).0 e in
          rounds-IsSynced_more (i + 1) xs (round i x (n, w)).0 (round i x (n, w)).1
            (round-IsStored i x n w h) k calm a.1 (round-IsSynced i x n w h k calm q (a.0 q) r)
      | inr e ↦
          rounds-IsSynced (i + 1) xs (round i x (n, w)).0 (round i x (n, w)).1
            (round-IsStored i x n w h) k calm a.1 (λ z. there (rw e z))
            (transfer-Row (round i x (n, w)).1 w
              (round_other i x n w s.id h (λ q. ground (arith, eq_iff x.id s.id))) r)
    ]
