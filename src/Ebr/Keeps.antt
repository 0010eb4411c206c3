-- ===== src/Ebr/Keeps.antt =====
-- Every step of the threads keeps what guards the objects.
use mathlib.Core.Path.{subst}
use hench_db.Prelude.{
  ℕ, Bool, ◌≡◌, refl, ◌≢◌, ◌⊎◌, inl, inr, true, false, Option, some, List, [], ◌∷◌, ◌++◌, arith,
  Bool-cases, ◌==◌, sym, if◌then◌else◌,
}
use hench_db.Ebr.{Retired, is_registered, local_participant, epoch_of, min_with}
use hench_db.Ebr.Pinned.{
  Least, Least-min_with, Least-min_with_left, PinnedAt-append, PinnedAt-retain_shared,
  PinnedAt-set_epoch, ToCome, ToCome-threads, Waits, Waits-append, Waits-last, Waits-retain_from,
  epoch_of-PinnedAt, horizon-le,
}
use hench_db.Ebr.Guard.{
  Harmless, Carries, Safe, AllSafe, AllSafe-imp, Guarded, put-each, Carries-put,
}
use hench_db.Ebr.Steps.{
  register_participant, pin_load, pin_swap, guard_drop, retire_load, retire_count, retire_push,
  lock_participants, load_current, scan_next, advance, sweep, Doing, idle, pinning, retiring,
  counted, listing, scanning, sweeping, System, put,
}

-- What a step keeps, which changes nothing but what a thread is doing.
module _ {t epoch : ℕ} {s : System} {os : List ℕ} (g : Guarded t epoch s os) where
  put-Safe :
      (u : ℕ) (d : Doing) (after : List Retired) {now : Doing}
      → ((object : ℕ) → Waits epoch object s.manager.retired → Waits epoch object after)
      → s.doing u ≡ now
      → ((object : ℕ) → Carries epoch object now → Carries epoch object d)
      → AllSafe epoch after (put u d s.doing) os
  put-Safe u d after waits e carries =
      AllSafe-imp epoch s.manager.retired after s.doing (put u d s.doing)
        (λ o w. elim w [
          | inl h ↦ inl (waits o h)
          | inr c ↦
              inr (Carries-put epoch o u d s.doing (λ k. carries o (subst (Carries epoch o) e k)) c)
        ])
        os g.safe

  put-Harmless :
      (u : ℕ) (d : Doing) → Harmless t epoch d → (v : ℕ) → Harmless t epoch (put u d s.doing v)
  put-Harmless u d h = put-each (Harmless t epoch) u d s.doing h g.harmless

  pub step_register : (u : ℕ) → Guarded t epoch (register_participant u s) os
  unfolding register_participant local_participant
  step_register u = elim (Bool-cases (is_registered u s.manager.participants)) [
    | inl e ↦ rw (e, if◌then◌else◌) g
    | inr e ↦
        rw (e, if◌then◌else◌)
          (record {
            stays_pinned = PinnedAt-append t epoch s.manager.participants _ g.stays_pinned;
            not_above = g.not_above;
            harmless = g.harmless;
            safe = g.safe;
          })
  ]

  pub step_pin_load : (u : ℕ) → s.doing u ≡ idle → Guarded t epoch (pin_load u s) os
  unfolding pin_load
  step_pin_load u e = record {
    stays_pinned = g.stays_pinned;
    not_above = g.not_above;
    harmless = put-Harmless u (pinning s.manager.global_epoch) tt;
    safe = put-Safe u (pinning s.manager.global_epoch) _ (λ o w. w) e (λ o c. absurd c);
  }

  pub step_pin_swap :
      (u e : ℕ) → t ≢ u → s.doing u ≡ pinning e → Guarded t epoch (pin_swap u e s) os
  unfolding pin_swap
  step_pin_swap u e ne now = record {
    stays_pinned = PinnedAt-set_epoch t u epoch (some e) _ ne g.stays_pinned;
    not_above = g.not_above;
    harmless = put-Harmless u idle tt;
    safe = put-Safe u idle _ (λ o w. w) now (λ o c. absurd c);
  }

  pub step_drop_guard : (u : ℕ) (prev : Option ℕ) → t ≢ u → Guarded t epoch (guard_drop u prev s) os
  unfolding guard_drop
  step_drop_guard u prev ne = record {
    stays_pinned = PinnedAt-set_epoch t u epoch prev _ ne g.stays_pinned;
    not_above = g.not_above;
    harmless = g.harmless;
    safe = g.safe;
  }

  pub step_retire_load :
      (u object : ℕ) → s.doing u ≡ idle → Guarded t epoch (retire_load u object s) (object ∷ os)
  unfolding retire_load put
  step_retire_load u object now =
      let itself : (u == u) ≡ true = ground arith in
      record {
        stays_pinned = g.stays_pinned;
        not_above = g.not_above;
        harmless = put-Harmless u (retiring object s.manager.global_epoch) tt;
        safe = (
          inr (u, rw (itself, if◌then◌else◌) (refl, g.not_above)),
          put-Safe u (retiring object s.manager.global_epoch) _ (λ o w. w) now (λ o c. absurd c),
        );
      }

  pub step_retire_count :
      (u object e : ℕ)
      → s.doing u ≡ retiring object e
      → Guarded t epoch (retire_count u object e s) os
  unfolding retire_count
  step_retire_count u object e now = record {
    stays_pinned = g.stays_pinned;
    not_above = g.not_above;
    harmless = put-Harmless u (counted object e) tt;
    safe = put-Safe u (counted object e) _ (λ o w. w) now (λ o c. c);
  }

  pub step_lock : (u : ℕ) → s.doing u ≡ idle → Guarded t epoch (lock_participants u s) os
  unfolding lock_participants
  step_lock u now = record {
    stays_pinned = PinnedAt-retain_shared t epoch s.manager.participants g.stays_pinned;
    not_above = g.not_above;
    harmless = put-Harmless u listing tt;
    safe = put-Safe u listing _ (λ o w. w) now (λ o c. absurd c);
  }

  pub step_load_current : (u : ℕ) → s.doing u ≡ listing → Guarded t epoch (load_current u s) os
  unfolding load_current
  step_load_current u now = record {
    stays_pinned = g.stays_pinned;
    not_above = g.not_above;
    harmless =
        put-Harmless u _ (inl (ToCome-threads t epoch s.manager.participants g.stays_pinned));
    safe = put-Safe u _ _ (λ o w. w) now (λ o c. absurd c);
  }

  -- The round for the thread itself sees its epoch.
  scanned :
      (v : ℕ) (todo : List ℕ) (oldest : Option ℕ)
      → ToCome t (v ∷ todo) ⊎ Least epoch oldest
      → ToCome t todo ⊎ Least epoch (min_with (epoch_of v s.manager.participants) oldest)
  scanned v todo oldest (inl (inl same)) = inr (
      rw (same, epoch_of-PinnedAt t epoch s.manager.participants g.stays_pinned)
        (Least-min_with_left epoch oldest))
  scanned v todo oldest (inl (inr more)) = inl more
  scanned v todo oldest (inr least) =
      inr (Least-min_with epoch (epoch_of v s.manager.participants) oldest least)

  pub step_scan :
      (u current v : ℕ) (todo : List ℕ) (oldest : Option ℕ) (caught_up : Bool)
      → s.doing u ≡ scanning current (v ∷ todo) oldest caught_up
      → Guarded t epoch (scan_next u current v todo oldest caught_up s) os
  unfolding scan_next
  step_scan u current v todo oldest caught_up now =
      let before = subst (Harmless t epoch) now (g.harmless u) in
      record {
        stays_pinned = g.stays_pinned;
        not_above = g.not_above;
        harmless = put-Harmless u _ (scanned v todo oldest before);
        safe = put-Safe u _ _ (λ o w. w) now (λ o c. absurd c);
      }

  least_of : (oldest : Option ℕ) → ToCome t [] ⊎ Least epoch oldest → Least epoch oldest
  least_of oldest (inl none_left) = absurd none_left
  least_of oldest (inr least) = least

  pub step_advance :
      (u current : ℕ) (oldest : Option ℕ) (caught_up : Bool)
      → s.doing u ≡ scanning current [] oldest caught_up
      → Guarded t epoch (advance u current oldest caught_up s) os
  unfolding advance
  step_advance u current oldest true now =
      let least = least_of oldest (subst (Harmless t epoch) now (g.harmless u)) in
      record {
        stays_pinned = g.stays_pinned;
        not_above = omega (arith, g.not_above);
        harmless = put-Harmless u _ (horizon-le epoch _ oldest least);
        safe = put-Safe u _ _ (λ o w. w) now (λ o c. absurd c);
      }
  step_advance u current oldest false now =
      let least = least_of oldest (subst (Harmless t epoch) now (g.harmless u)) in
      record {
        stays_pinned = g.stays_pinned;
        not_above = g.not_above;
        harmless = put-Harmless u _ (horizon-le epoch _ oldest least);
        safe = put-Safe u _ _ (λ o w. w) now (λ o c. absurd c);
      }

  pub step_sweep :
      (u horizon : ℕ) → s.doing u ≡ sweeping horizon → Guarded t epoch (sweep u horizon s) os
  unfolding sweep
  step_sweep u horizon now =
      let low = subst (Harmless t epoch) now (g.harmless u) in
      record {
        stays_pinned = g.stays_pinned;
        not_above = g.not_above;
        harmless = put-Harmless u idle tt;
        safe =
            put-Safe u idle _ (λ o w. Waits-retain_from horizon epoch o s.manager.retired low w) now
              (λ o c. absurd c);
      }

  push-Safe :
      (u object e o : ℕ)
      → s.doing u ≡ counted object e
      → Safe epoch s.manager.retired s.doing o
      → Safe epoch
          (s.manager.retired ++ (record { object = object; epoch = e } ∷ []))
          (put u idle s.doing)
          o
  unfolding put
  push-Safe u object e o now (inl w) = inl (Waits-append epoch o s.manager.retired _ w)
  push-Safe u object e o now (inr (v, c)) = elim (Bool-cases (v == u)) [
    | inl b ↦
        let same : v ≡ u = ground arith in
        let carried : Carries epoch o (counted object e) =
          subst (Carries epoch o) now (subst (λ w. Carries epoch o (s.doing w)) same c) in
        inl (
          subst (λ x. Waits epoch o (s.manager.retired ++ (record { object = x; epoch = e } ∷ [])))
            (sym carried.0) (Waits-last epoch o e s.manager.retired carried.1))
    | inr b ↦ inr (v, rw (b, if◌then◌else◌) c)
  ]

  pub step_retire_push :
      (u object e : ℕ)
      → s.doing u ≡ counted object e
      → Guarded t epoch (retire_push u object e s) os
  unfolding retire_push
  step_retire_push u object e now = record {
    stays_pinned = g.stays_pinned;
    not_above = g.not_above;
    harmless = put-Harmless u idle tt;
    safe =
        AllSafe-imp epoch s.manager.retired _ s.doing (put u idle s.doing)
          (λ o w. push-Safe u object e o now w) os g.safe;
  }
