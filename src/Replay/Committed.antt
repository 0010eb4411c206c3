-- ===== src/Replay/Committed.antt =====
-- What replay applies of a log of whole transactions.
use mathlib.Core.List.{append_assoc, append-nil}
use mathlib.Core.Path.{fun_ext}
use hench_db.Prelude.{
  ℕ, ◌≡◌, refl, ◌∙◌, ap, true, Option, none, List, [], ◌∷◌, ◌++◌, ◌==◌, if◌then◌else◌, arith,
  Bool-cases, inl, inr,
}
use hench_db.Codec.Laws.{AllOf}
use hench_db.Wal.{Record, commit}
use hench_db.Replay.{txn_of, committed_txn, Pending, none_pending, push, remove, applied}

-- A record of the transaction that is no Commit.
abbrev pub IsWorkOf : ℕ → Record → Type 0
IsWorkOf txn rec = (committed_txn rec ≡ none) × (txn_of rec ≡ txn)

-- A transaction as its commit writes it: its number, its records and the time.
pub record Txn : Type 0 where
  pub number : ℕ
  pub work : List Record
  pub ts : Option ℕ

abbrev pub IsTxn : Txn → Type 0
IsTxn t = AllOf (IsWorkOf t.number) t.work

pub log_of : List Txn → List Record
log_of [] = []
log_of (t ∷ ts) = t.work ++ (commit t.number t.ts ∷ log_of ts)

pub works : List Txn → List Record
works [] = []
works (t ∷ ts) = t.work ++ works ts

abbrev push_all : ℕ → List Record → Pending → Pending
push_all txn work pending u = if u == txn then pending u ++ work else pending u

push_none : (txn : ℕ) (pending : Pending) (u : ℕ) → pending u ≡ push_all txn [] pending u
push_none txn pending u = elim (Bool-cases (u == txn)) [
  | inl e ↦ simp (e, append-nil) refl
  | inr e ↦ simp e refl
]

push_more :
    (txn : ℕ) (rec : Record) (work : List Record) (pending : Pending) (u : ℕ)
    → push_all txn work (push txn rec pending) u ≡ push_all txn (rec ∷ work) pending u
push_more txn rec work pending u = elim (Bool-cases (u == txn)) [
  | inl e ↦ simp (e, append_assoc) refl
  | inr e ↦ simp e refl
]

applied_waits :
    (rec : Record) (recs : List Record) (pending : Pending)
    → committed_txn rec ≡ none
    → applied pending (rec ∷ recs) ≡ applied (push (txn_of rec) rec pending) recs
unfolding applied
applied_waits rec recs pending e = rw (e, applied)

applied-work :
    (txn : ℕ) (work rest : List Record) (pending : Pending)
    → AllOf (IsWorkOf txn) work
    → applied pending (work ++ rest) ≡ applied (push_all txn work pending) rest
unfolding applied
applied-work txn [] rest pending h =
    ap (λ (p : Pending). applied p rest) (fun_ext (push_none txn pending))
applied-work txn (rec ∷ work) rest pending ((no_commit, same), h) =
    applied_waits rec (work ++ rest) pending no_commit
    ∙ rw same (applied-work txn work rest (push txn rec pending) h)
    ∙ ap (λ (p : Pending). applied p rest) (fun_ext (push_more txn rec work pending))

cleared :
    (txn : ℕ) (work : List Record) (u : ℕ)
    → remove txn (push_all txn work none_pending) u ≡ none_pending u
cleared txn work u = elim (Bool-cases (u == txn)) [ inl e ↦ simp e refl | inr e ↦ simp e refl ]

-- A log of whole transactions, and then records of one that has no Commit, replays to the records of
-- the whole transactions in their order, and to nothing of the last.
pub applied-log_of :
    (ts : List Txn) (txn : ℕ) (tail : List Record)
    → AllOf IsTxn ts
    → AllOf (IsWorkOf txn) tail
    → applied none_pending (log_of ts ++ tail) ≡ works ts
unfolding log_of works applied committed_txn
applied-log_of [] txn tail h k = rw append-nil at (applied-work txn tail [] none_pending k)
applied-log_of (t ∷ ts) txn tail (ht, h) k =
    let itself : (t.number == t.number) ≡ true = ground arith in
    rw (append_assoc t.work (commit t.number t.ts ∷ log_of ts) tail) (
      applied-work t.number t.work (commit t.number t.ts ∷ (log_of ts ++ tail)) none_pending ht
      ∙ simp itself (
          ap (λ (p : Pending). t.work ++ applied p (log_of ts ++ tail))
            (fun_ext (cleared t.number t.work))
          ∙ ap (λ xs. t.work ++ xs) (applied-log_of ts txn tail h k)))
