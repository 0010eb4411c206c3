-- ===== src/Mvcc/Steps.antt =====
-- Every step keeps the invariant of the version buffer.
use mathlib.Core.Logic.{if_pos, if_neg}
use hench_db.Prelude.{
  ℕ, ◌≤◌, ◌<◌, ◌≡◌, refl, ◌≢◌, ◌⊎◌, inl, inr, Bool, true, false, Option, none, some, List, [], ◌∷◌,
  arith,
}
use hench_db.Mvcc.{
  Key, Row, Chain, VersionState, key_discrete, update, epoch_or_0, oldest, without, register,
  release, gc_locked, prune,
}
use hench_db.Mvcc.Chain.{Resolves, Resolves-fresh, Descends, Descends-weaken}
use hench_db.Mvcc.Pins.{AllPins, AllPins-map, AllPins-without, oldest-le_bound}
use hench_db.Mvcc.Record.{
  IsPending, AllPending, AllPending-map, record_induction, record-AllPending, supersede-Resolves,
  supersede-Descends, supersede-epochs,
}
use hench_db.Mvcc.Install.{
  LeavesOne, AllLeaveOne, Write, Db, Phase, idle, installing, System, Step, Reach, here, next,
  record_batch, apply, publish, begin, end, supersede, record_commit_batch, publish_at, begin_state,
  release_state, apply_state, publish_state, record_state,
}
use hench_db.Mvcc.Invariant.{
  IsConsistent, SeesAt, PinSees, Under, prune-Resolves, prune-Descends, prune-epochs,
  prune-committed, prune-pins,
}

begin-IsConsistent : (s : System) → IsConsistent s → IsConsistent (begin_state s)
unfolding begin_state register
begin-IsConsistent s h = record {
  current = h.current;
  pins = ((omega arith, h.current), h.pins);
  chains = h.chains;
  epochs = h.epochs;
  under = h.under;
}

frontier_chains :
    (s : System) (epoch : ℕ)
    → s.phase ≡ idle
    → s.db.visible_epoch < epoch
    → IsConsistent s
    → (k : Key) → Descends epoch (s.db.versions.chains k)
frontier_chains s epoch e lt h k =
    Descends-weaken s.db.visible_epoch epoch (s.db.versions.chains k) (omega arith)
      (rw e at (h.chains k))

frontier_epochs :
    (s : System) (epoch : ℕ)
    → s.phase ≡ idle
    → s.db.visible_epoch < epoch
    → IsConsistent s
    → (k : Key) → epoch_or_0 (s.db.versions.committed k) ≤ epoch
frontier_epochs s epoch e lt h k =
    let le : epoch_or_0 (s.db.versions.committed k) ≤ s.db.visible_epoch = rw e at (h.epochs k) in
    omega arith

-- A row reaches the tree: a reader below the epoch of the commit is served from the chain.
apply-Resolves :
    (read epoch : ℕ) (c : Option ℕ) (chain : Chain) (current new row : Option Row)
    → read < epoch
    → (c ≡ some epoch) ⊎ (current ≡ new)
    → Resolves read c chain current row
    → Resolves read c chain new row
unfolding epoch_or_0
apply-Resolves read epoch c chain current new row lt p r = ground arith

apply-SeesAt :
    (db : Db) (key : Key) (new : Option Row) (read epoch : ℕ) (view : Key → Option Row)
    → read < epoch
    → IsPending epoch db.tree db.versions.committed (key, new)
    → SeesAt read db view
    → SeesAt read (record db { tree = update key new db.tree }) view
apply-SeesAt db key new read epoch view lt p h k = elim (key_discrete key k) [
  | yes same ↦ rw (if_pos _ same) (
      apply-Resolves read epoch (db.versions.committed k) (db.versions.chains k) (db.tree k) new
        (view k) lt (rw same at p) (h k))
  | no other ↦ rw (if_neg _ other) (h k)
]

apply-IsPending :
    (epoch : ℕ) (tree : Key → Option Row) (committed : Key → Option ℕ) (key : Key)
    (new : Option Row)
    → IsPending epoch tree committed (key, new)
    → (w : Write) → IsPending epoch tree committed w
    → IsPending epoch (update key new tree) committed w
apply-IsPending epoch tree committed key new p (k, row) q = elim (key_discrete key k) [
  | yes same ↦ rw (if_pos _ same) (ground (arith, same))
  | no other ↦ rw (if_neg _ other) q
]

apply-IsConsistent :
    (s : System) (key : Key) (new : Option Row) (epoch : ℕ) (rest : List Write)
    → s.phase ≡ installing epoch ((key, new) ∷ rest)
    → IsConsistent s
    → IsConsistent (apply_state key new epoch rest s)
unfolding apply_state
apply-IsConsistent s key new epoch rest e h = record {
  current = apply-SeesAt s.db key new s.db.visible_epoch epoch _ lt head h.current;
  pins =
      AllPins-map
        (λ p ((le, sees) : PinSees s.db s.history p). (
          le,
          apply-SeesAt s.db key new p.read_epoch epoch (s.history p.read_epoch) (omega (arith, lt))
              head sees,
        ))
        s.db.versions.snapshots h.pins;
  chains = λ k. rw e at (h.chains k);
  epochs = λ k. rw e at (h.epochs k);
  under = (
    lt,
    AllPending-map epoch _ _ _ _
        (apply-IsPending epoch s.db.tree s.db.versions.committed key new head) rest tail,
  );
}
  where
    now :
        Under
          (installing epoch ((key, new) ∷ rest))
          s.db.visible_epoch
          s.db.tree
          s.db.versions.committed
    now = rw e at h.under

    lt : s.db.visible_epoch < epoch
    lt = now.0

    head : IsPending epoch s.db.tree s.db.versions.committed (key, new)
    head = now.1.0

    tail : AllPending epoch s.db.tree s.db.versions.committed rest
    tail = now.1.1

publish_at_self :
    (epoch : ℕ) (tree : Key → Option Row) (history : ℕ → Key → Option Row) (k : Key)
    → publish_at epoch tree history epoch k ≡ tree k
unfolding publish_at
publish_at_self epoch tree history k = ground arith

publish_at-earlier :
    (epoch read : ℕ) (tree : Key → Option Row) (history : ℕ → Key → Option Row) (k : Key)
    → read < epoch
    → publish_at epoch tree history read k ≡ history read k
unfolding publish_at
publish_at-earlier epoch read tree history k lt = ground arith

publish-IsConsistent :
    (s : System) (epoch : ℕ)
    → s.phase ≡ installing epoch []
    → IsConsistent s
    → IsConsistent (publish_state epoch s)
unfolding publish_state gc_locked
publish-IsConsistent s epoch e h = record {
  current = λ k. rw publish_at_self (
      prune-Resolves (oldest vs.snapshots) epoch epoch k (s.db.tree k) (s.db.tree k) vs (descends k)
        (λ old q. omega (arith, lt, oldest-le_bound vs.snapshots old s.db.visible_epoch q bounds))
        (λ n. refl)
        (Resolves-fresh epoch (vs.committed k) (vs.chains k) (s.db.tree k) (rw e at (h.epochs k))
          (descends k)));
  pins =
      unfold gc_locked in
      prune-pins moved (publish_at epoch s.db.tree s.history) vs epoch descends (
        AllPins-map
          (λ p ((le, sees) : PinSees s.db s.history p). (
            omega (arith, lt),
            λ k.
                rw (publish_at-earlier epoch p.read_epoch s.db.tree s.history k (omega (arith, lt)))
                  (sees k),
          ))
          vs.snapshots h.pins);
  chains = λ k. prune-Descends (oldest vs.snapshots) epoch k vs (descends k);
  epochs = λ k. prune-epochs (oldest vs.snapshots) epoch k vs (rw e at (h.epochs k));
  under = tt;
}
  where
    vs : VersionState
    vs = s.db.versions

    moved : Db
    moved = record s.db { visible_epoch = epoch }

    lt : s.db.visible_epoch < epoch
    lt = (rw e at h.under).0

    descends : (k : Key) → Descends epoch (s.db.versions.chains k)
    descends k = rw e at (h.chains k)

    bounds : AllPins (λ p. p.read_epoch ≤ s.db.visible_epoch) s.db.versions.snapshots
    bounds = AllPins-map (λ p (q : PinSees s.db s.history p). q.0) s.db.versions.snapshots h.pins

-- What a pending write says of the buffer is kept by pruning, while a snapshot is left.
prune-IsPending :
    (o : Option ℕ) (visible epoch : ℕ) (vs : VersionState) (tree : Key → Option Row)
    → ((old : ℕ) → o ≡ some old → old ≤ visible)
    → o ≢ none
    → visible < epoch
    → (w : Write) → IsPending epoch tree vs.committed w
    → IsPending epoch tree (prune o vs).committed w
prune-IsPending o visible epoch vs tree above left lt (key, new) (inl e) =
    inl (prune-committed o epoch key vs (λ old q. omega (arith, above old q)) left e)
prune-IsPending o visible epoch vs tree above left lt (key, new) (inr e) = inr e

prune-Under :
    (phase : Phase) (o : Option ℕ) (visible : ℕ) (vs : VersionState) (tree : Key → Option Row)
    → ((old : ℕ) → o ≡ some old → old ≤ visible)
    → (phase ≡ idle) ⊎ (o ≢ none)
    → Under phase visible tree vs.committed
    → Under phase visible tree (prune o vs).committed
prune-Under idle o visible vs tree above left h = tt
prune-Under (installing epoch staged) o visible vs tree above (inl e) h = cc
prune-Under (installing epoch staged) o visible vs tree above (inr left) (lt, h) = (
  lt,
  AllPending-map epoch _ _ _ _ (prune-IsPending o visible epoch vs tree above left lt) staged h,
)

-- With nothing under way the tree holds what was published last.
idle_tree :
    (s : System) (k : Key)
    → s.phase ≡ idle
    → IsConsistent s
    → s.db.tree k ≡ s.history s.db.visible_epoch k
idle_tree s k e h =
    let le : epoch_or_0 (s.db.versions.committed k) ≤ s.db.visible_epoch = rw e at (h.epochs k) in
    elim (h.current k) [ inl (_, _, same) ↦ same | inr (lt, _) ↦ absurd (omega arith) ]

end-IsConsistent :
    (s : System) (id : ℕ)
    → (s.phase ≡ idle) ⊎ (oldest (without id s.db.versions.snapshots) ≢ none)
    → IsConsistent s
    → IsConsistent (release_state id s)
unfolding release_state release gc_locked
end-IsConsistent s id left h = record {
  current = λ k.
      prune-Resolves o s.db.visible_epoch _ k (s.db.tree k) _ vs (h.chains k) above
        (λ n. elim left [ inl e ↦ idle_tree s k e h | inr some_left ↦ absurd (some_left n) ])
        (h.current k);
  pins = unfold gc_locked in prune-pins s.db s.history vs _ h.chains kept;
  chains = λ k. prune-Descends o _ k vs (h.chains k);
  epochs = λ k. prune-epochs o _ k vs (h.epochs k);
  under = prune-Under s.phase o s.db.visible_epoch vs s.db.tree above left h.under;
}
  where
    vs : VersionState
    vs = record s.db.versions { snapshots = without id s.db.versions.snapshots }

    o : Option ℕ
    o = oldest (without id s.db.versions.snapshots)

    kept : AllPins (PinSees s.db s.history) (without id s.db.versions.snapshots)
    kept = AllPins-without _ id s.db.versions.snapshots h.pins

    above :
        (old : ℕ)
        → oldest (without id s.db.versions.snapshots) ≡ some old
        → old ≤ s.db.visible_epoch
    above old q =
        oldest-le_bound (without id s.db.versions.snapshots) old s.db.visible_epoch q
          (AllPins-map (λ p (q : PinSees s.db s.history p). q.0) _ kept)

module _ (same_raw : Row → Row → Bool) (sound : (a b : Row) → same_raw a b ≡ true → a ≡ b) where
  record_keeps_snapshots :
      (epoch : ℕ) (tree : Key → Option Row) (staged : List Write) (vs : VersionState)
      → (record_commit_batch same_raw epoch tree staged vs).snapshots ≡ vs.snapshots
  record_keeps_snapshots epoch tree staged vs =
      record_induction same_raw sound epoch tree (λ v. v.snapshots ≡ vs.snapshots)
        (unfold supersede in
          λ b key v e.
            elim b as (λ b. (supersede b epoch (tree key) key v).snapshots ≡ vs.snapshots) [
              | true ↦ e
              | false ↦ e
            ])
        staged vs refl

  record-SeesAt :
      (s : System) (epoch read : ℕ) (staged : List Write) (view : Key → Option Row)
      → read < epoch
      → SeesAt read s.db view
      → SeesAt read (record_state same_raw epoch staged s).db view
  unfolding record_state
  record-SeesAt s epoch read staged view lt h k =
      record_induction same_raw sound epoch s.db.tree
        (λ v. Resolves read (v.committed k) (v.chains k) (s.db.tree k) (view k))
        (supersede-Resolves epoch s.db.tree read k (view k) lt) staged s.db.versions (h k)

  record-IsConsistent :
      (s : System) (epoch : ℕ) (staged : List Write)
      → s.phase ≡ idle
      → s.db.visible_epoch < epoch
      → IsConsistent s
      → IsConsistent (record_state same_raw epoch staged s)
  unfolding record_state
  record-IsConsistent s epoch staged e lt h = record {
    current = record-SeesAt s epoch s.db.visible_epoch staged _ lt h.current;
    pins = rw (record_keeps_snapshots epoch s.db.tree staged s.db.versions) (
        AllPins-map
          (λ p ((le, sees) : PinSees s.db s.history p). (
            le,
            record-SeesAt s epoch p.read_epoch staged (s.history p.read_epoch) (omega arith) sees,
          ))
          s.db.versions.snapshots h.pins);
    chains = λ k.
        record_induction same_raw sound epoch s.db.tree (λ v. Descends epoch (v.chains k))
          (supersede-Descends epoch s.db.tree k) staged s.db.versions
          (frontier_chains s epoch e lt h k);
    epochs = λ k.
        record_induction same_raw sound epoch s.db.tree (λ v. epoch_or_0 (v.committed k) ≤ epoch)
          (supersede-epochs epoch s.db.tree k) staged s.db.versions
          (frontier_epochs s epoch e lt h k);
    under = (lt, record-AllPending same_raw sound epoch s.db.tree staged s.db.versions);
  }

  -- Every step keeps the invariant.
  Step-IsConsistent :
      {s t : System} (st : Step same_raw s t)
      → LeavesOne same_raw st
      → IsConsistent s
      → IsConsistent t
  Step-IsConsistent (record_batch s epoch staged e lt) l h =
      record-IsConsistent s epoch staged e lt h
  Step-IsConsistent (apply s key new epoch rest e) l h = apply-IsConsistent s key new epoch rest e h
  Step-IsConsistent (publish s epoch e) l h = publish-IsConsistent s epoch e h
  Step-IsConsistent (begin s) l h = begin-IsConsistent s h
  Step-IsConsistent (end s id) l h = end-IsConsistent s id l h

  pub Reach-IsConsistent :
      {s t : System}
      → IsConsistent s
      → (r : Reach same_raw s t) → AllLeaveOne same_raw r
      → IsConsistent t
  Reach-IsConsistent h here l = h
  Reach-IsConsistent h (next r st) (l, m) = Step-IsConsistent st m (Reach-IsConsistent h r l)
