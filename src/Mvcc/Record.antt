-- ===== src/Mvcc/Record.antt =====
-- What recording a batch of writes changes for the readers of earlier epochs: nothing.
use mathlib.Core.Logic.{if_pos, if_neg}
use hench_db.Prelude.{
  ℕ, ◌≤◌, ◌<◌, ◌≡◌, refl, ◌⊎◌, inl, inr, Bool, true, false, Option, none, some, List, [], ◌∷◌,
  arith,
}
use hench_db.Mvcc.{Key, Row, VersionState, key_discrete, epoch_or_0}
use hench_db.Mvcc.Chain.{Resolves, Resolves-record, Descends}
use hench_db.Mvcc.Install.{Write, unchanged, supersede, record_one, record_commit_batch}

module _ (epoch : ℕ) (tree : Key → Option Row) where
  abbrev ResolvesAt : ℕ → Key → Option Row → VersionState → Type 0
  ResolvesAt read k row vs = Resolves read (vs.committed k) (vs.chains k) (tree k) row

  pub supersede-Resolves :
      (read : ℕ) (k : Key) (row : Option Row)
      → read < epoch
      → (b : Bool) (key : Key) (vs : VersionState) → ResolvesAt read k row vs
      → ResolvesAt read k row (supersede b epoch (tree key) key vs)
  unfolding supersede
  supersede-Resolves read k row lt true key vs h = h
  supersede-Resolves read k row lt false key vs h = elim (key_discrete key k) [
    | yes same ↦
        rw (if_pos _ same, if_pos _ same, same)
          (Resolves-record read epoch (vs.committed k) (vs.chains k) (tree k) row lt h)
    | no other ↦ rw (if_neg _ other, if_neg _ other) h
  ]

  pub supersede-Descends :
      (k : Key) (b : Bool) (key : Key) (vs : VersionState)
      → Descends epoch (vs.chains k)
      → Descends epoch ((supersede b epoch (tree key) key vs).chains k)
  unfolding supersede
  supersede-Descends k true key vs h = h
  supersede-Descends k false key vs h = elim (key_discrete key k) [
    | yes same ↦ rw (if_pos _ same, same) (omega arith, h)
    | no other ↦ rw (if_neg _ other) h
  ]

  pub supersede-epochs :
      (k : Key) (b : Bool) (key : Key) (vs : VersionState)
      → epoch_or_0 (vs.committed k) ≤ epoch
      → epoch_or_0 ((supersede b epoch (tree key) key vs).committed k) ≤ epoch
  unfolding supersede epoch_or_0
  supersede-epochs k true key vs h = h
  supersede-epochs k false key vs h = elim (key_discrete key k) [
    | yes same ↦ rw (if_pos _ same) (omega arith)
    | no other ↦ rw (if_neg _ other) h
  ]

  supersede-committed :
      (k : Key) (b : Bool) (key : Key) (vs : VersionState)
      → vs.committed k ≡ some epoch
      → (supersede b epoch (tree key) key vs).committed k ≡ some epoch
  unfolding supersede
  supersede-committed k true key vs h = h
  supersede-committed k false key vs h = elim (key_discrete key k) [
    | yes same ↦ rw (if_pos _ same)
    | no other ↦ rw (if_neg _ other) h
  ]

  supersede_self :
      (key : Key) (vs : VersionState)
      → (supersede false epoch (tree key) key vs).committed key ≡ some epoch
  unfolding supersede
  supersede_self key vs = rw (if_pos (key_discrete key key) refl)

-- A write that the installing thread still has to apply: its key is recorded at the epoch, or the
-- row is what the tree holds already.
abbrev pub IsPending : ℕ → (Key → Option Row) → (Key → Option ℕ) → Write → Type 0
IsPending epoch tree committed (key, new) = (committed key ≡ some epoch) ⊎ (tree key ≡ new)

abbrev pub AllPending : ℕ → (Key → Option Row) → (Key → Option ℕ) → List Write → Type 0
AllPending epoch tree committed [] = Unit
AllPending epoch tree committed (w ∷ staged) =
    IsPending epoch tree committed w × AllPending epoch tree committed staged

pub AllPending-map :
    (epoch : ℕ) (tree tree' : Key → Option Row) (committed committed' : Key → Option ℕ)
    → ((w : Write) → IsPending epoch tree committed w → IsPending epoch tree' committed' w)
    → (staged : List Write) → AllPending epoch tree committed staged
    → AllPending epoch tree' committed' staged
AllPending-map epoch tree tree' committed committed' f [] h = tt
AllPending-map epoch tree tree' committed committed' f (w ∷ staged) (p, h) =
    (f w p, AllPending-map epoch tree tree' committed committed' f staged h)

module _ (same_raw : Row → Row → Bool) (sound : (a b : Row) → same_raw a b ≡ true → a ≡ b)
    (epoch : ℕ) (tree : Key → Option Row) where
  -- What every single record keeps, the batch keeps.
  pub record_induction :
      (P : VersionState → Type 0)
      → ((b : Bool) (key : Key) (vs : VersionState)
          → P vs
          → P (supersede b epoch (tree key) key vs))
      → (staged : List Write) (vs : VersionState) → P vs
      → P (record_commit_batch same_raw epoch tree staged vs)
  unfolding record_commit_batch record_one
  record_induction P step [] vs h = h
  record_induction P step ((key, new) ∷ staged) vs h =
      record_induction P step staged _ (step (unchanged same_raw (tree key) new) key vs h)

  unchanged_sound : (a b : Option Row) → unchanged same_raw a b ≡ true → a ≡ b
  unfolding unchanged
  unchanged_sound none none h = refl
  unchanged_sound none (some b) h = cc
  unchanged_sound (some a) none h = cc
  unchanged_sound (some a) (some b) h = cc (sound a b h)

  one_IsPending :
      (key : Key) (new : Option Row) (vs : VersionState) (b : Bool)
      → unchanged same_raw (tree key) new ≡ b
      → IsPending epoch tree (supersede b epoch (tree key) key vs).committed (key, new)
  one_IsPending key new vs true e = inr (unchanged_sound _ _ e)
  one_IsPending key new vs false e = inl (supersede_self epoch tree key vs)

  keep_IsPending :
      (w : Write) (staged : List Write) (vs : VersionState)
      → IsPending epoch tree vs.committed w
      → IsPending epoch tree (record_commit_batch same_raw epoch tree staged vs).committed w
  keep_IsPending (key, new) staged vs (inl e) = inl (
      record_induction (λ v. v.committed key ≡ some epoch) (supersede-committed epoch tree key)
        staged vs e)
  keep_IsPending (key, new) staged vs (inr e) = inr e

  pub record-AllPending :
      (staged : List Write) (vs : VersionState)
      → AllPending epoch tree (record_commit_batch same_raw epoch tree staged vs).committed staged
  unfolding record_commit_batch record_one
  record-AllPending [] vs = tt
  record-AllPending ((key, new) ∷ staged) vs = (
    keep_IsPending (key, new) staged _ (one_IsPending key new vs _ refl),
    record-AllPending staged _,
  )
