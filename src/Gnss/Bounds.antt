-- ===== src/Gnss/Bounds.antt =====
-- What the engine is asked for when the time based sessions are multiplexed (gps/gnss/GnssAdapter.cpp).
use android_device_xiaomi_ms.Base.{
  ℕ, ◌≤◌, ◌≡◌, ◌≢◌, ◌⊎◌, inl, inr, refl, sym, subst, ◌∙◌, Bool, true, false, ◌&&◌, ◌||◌, Option,
  none, some, [], ◌∷◌, All, arith, ltb, ◌==◌, Bool-cases, if_cases, if◌then◌else◌, find, insert,
  erase, length, is_empty,
}
use android_device_xiaomi_ms.Core.{SessionKey, session_key, session_key_eq, session_key_eq_iff}
use android_device_xiaomi_ms.Gnss.Types.{
  TrackingOptions, GnssAdapter, Handler, time_started, time_updated,
}
use android_device_xiaomi_ms.Gnss.Sessions.{Step, key_of}
use android_device_xiaomi_ms.Gnss.Multiplex.{
  Sessions, min_tracking_interval, start_engine, start_tracking_of, update_tracking,
  stop_tracking_of, unset_options, interval_loop, power_loop, none_skipped,
  start_time_based_tracking_multiplex, update_tracking_multiplex,
  stop_time_based_tracking_multiplex,
}
use android_device_xiaomi_ms.Gnss.Order.{
  IsSorted, All-map, All-insert, All-insert_others, All-erase, session_key_lt_ne,
}
use android_device_xiaomi_ms.Gnss.Served.{
  IsFast, IsHighest, AllFast, IsProper, AtMost, IsBelow, start_engine-Starts, interval_loop-IsBelow,
  interval_loop-All, slower, Serves,
}

-- The sessions are sorted and proper, and the engine, if it does what it has been asked last, runs at least
-- as fast as each of them needs.
pub record IsServing (engine : Option TrackingOptions) (a : GnssAdapter) : Type 0 where
  pub sorted : IsSorted a.time_based_tracking_sessions
  pub proper : All IsProper a.time_based_tracking_sessions
  pub served : AllFast engine a.time_based_tracking_sessions
  pub highest : IsHighest engine a

-- A multiplexed step serves the sessions `s` that are saved after it.
pub record Multiplexes (engine : Option TrackingOptions) (a : GnssAdapter) (s : Sessions)
    (step : Step) : Type 0 where
  pub serves : Serves engine s step
  pub same_sessions : step.0.time_based_tracking_sessions ≡ a.time_based_tracking_sessions

starts :
    (on_answer : Handler) (client id : ℕ) (options : TrackingOptions) (a : GnssAdapter)
    (engine : Option TrackingOptions) (s : Sessions)
    → All (AtMost options) s
    → IsHighest engine a
    → Multiplexes engine a s (start_engine on_answer client id options a)
starts on_answer client id options a engine s bounds highest =
    let r = start_engine-Starts on_answer client id options a engine s bounds highest in
    record {
      serves = record { served = r.served; highest = r.highest };
      same_sessions = r.same_sessions;
    }

-- Nothing is asked.
stays :
    (a : GnssAdapter) (engine : Option TrackingOptions) (s : Sessions)
    → AllFast engine s
    → IsHighest engine a
    → Multiplexes engine a s (a, [])
stays a engine s fast highest = record {
  serves = record { served = fast; highest = highest };
  same_sessions = refl;
}

AtMost-All :
    (r : TrackingOptions) (s : Sessions)
    → All IsProper s
    → All (λ e. (false ≡ true) ⊎ IsBelow r e.1) s
    → All (AtMost r) s
AtMost-All r [] proper below = tt
AtMost-All r ((key, o) ∷ rest) (p, proper) (b, below) =
    let first : IsBelow r o = elim b [ inl skipped ↦ absurd (ground arith) | inr c ↦ c ] in
    ((first.1, p.1), AtMost-All r rest proper below)

empty-All : (P : SessionKey × TrackingOptions → Type 0) (s : Sessions) → is_empty s ≡ true → All P s
empty-All P [] e = tt
empty-All P (x ∷ s) e = absurd (ground arith)

best-All :
    (s : Sessions)
    → All IsProper s
    → is_empty s ≡ false
    → let r = interval_loop none_skipped unset_options s in (r.size ≢ 0) × All (AtMost r) s
best-All [] proper some_session = absurd (ground arith)
best-All ((key, o) ∷ rest) proper some_session =
    let s : Sessions = (key, o) ∷ rest in
    let below = (interval_loop-IsBelow none_skipped unset_options s proper).1 in
    let r = interval_loop none_skipped unset_options s in
    let first : IsBelow r o = elim below.0 [ inl skipped ↦ absurd (ground arith) | inr b ↦ b ] in
    (first.0, AtMost-All r s proper below)

module _ (client id : ℕ) (options : TrackingOptions) (a : GnssAdapter)
    (engine : Option TrackingOptions) (serving : IsServing engine a) where
  pub start_multiplex-Multiplexes :
      min_tracking_interval ≤ options.min_interval
      → Multiplexes engine a
          (insert (key_of client id) options a.time_based_tracking_sessions)
          (start_time_based_tracking_multiplex client id options a).1
  unfolding start_time_based_tracking_multiplex start_tracking_of
  start_multiplex-Multiplexes long =
      let s = a.time_based_tracking_sessions in
      let key = key_of client id in
      let best = interval_loop none_skipped unset_options s in
      let power = power_loop none_skipped 0 s in
      let faster = ltb options.min_interval best.min_interval in
      let stronger = ltb options.power_mode power in
      let multiplexed = record best {
        min_interval = if faster then options.min_interval else best.min_interval;
        power_mode = if stronger then options.power_mode else best.power_mode;
      } in
      let saved = insert key options s in
      if_cases (λ (r : Bool × Step). Multiplexes engine a saved r.1) (is_empty s)
        (λ first.
          let bounds =
            All-insert (AtMost options) key options s (omega arith, long)
              (empty-All (AtMost options) s first) in
          let m =
            starts (time_started client id) client id options a engine saved bounds
              serving.highest in
          let serves = m.serves in
          record {
            serves = record { served = serves.served; highest = serves.highest };
            same_sessions = m.same_sessions;
          })
        (λ more.
          let (set, below) = best-All s serving.proper more in
          if_cases (λ (r : Bool × Step). Multiplexes engine a saved r.1) (faster || stronger)
            (λ restarts.
              let least : multiplexed.min_interval ≤ best.min_interval = ground arith in
              let own : multiplexed.min_interval ≤ options.min_interval = ground arith in
              let bounds =
                All-insert (AtMost multiplexed) key options s (own, long)
                  (All-map s (λ e b. (omega (arith, b.0, least), b.1)) below) in
              starts (time_started client id) client id multiplexed a engine saved bounds
                serving.highest)
            (λ goes_on.
              let slow : best.min_interval ≤ options.min_interval = ground arith in
              let fast : IsFast best.min_interval engine =
                elim (interval_loop-All (λ n. IsFast n engine) none_skipped unset_options s
                  serving.served (inl refl)) [
                    | inl not_set ↦ absurd (set not_set)
                    | inr found ↦ found
                  ] in
              let own = slower engine best.min_interval options.min_interval slow fast in
              stays a engine saved
                (All-insert (λ e. IsFast e.1.min_interval engine) key options s own serving.served)
                serving.highest))

-- The interval found is at most that of every session but this.
others-AtMost :
    (key : SessionKey) (s : Sessions)
    → All IsProper s
    → All
        (λ e.
          session_key_eq e.0 key ≡ false
          → AtMost (interval_loop (λ k. session_key_eq k key) unset_options s) e)
        s
others-AtMost key s proper =
    go s proper (interval_loop-IsBelow (λ k. session_key_eq k key) unset_options s proper).1
  where
    go :
        (t : Sessions)
        → All IsProper t
        → All
            (λ e.
              (session_key_eq e.0 key ≡ true)
              ⊎ IsBelow (interval_loop (λ k. session_key_eq k key) unset_options s) e.1)
            t
        → All
            (λ e.
              session_key_eq e.0 key ≡ false
              → AtMost (interval_loop (λ k. session_key_eq k key) unset_options s) e)
            t
    go [] proper below = tt
    go (e ∷ rest) (p, proper) (b, below) = (
      (λ other. elim b [ inl same ↦ absurd (ground arith) | inr c ↦ (c.1, p.1) ]),
      go rest proper below,
    )

-- A map of one session has no other.
single_others :
    (P : SessionKey × TrackingOptions → Type 0) (key : SessionKey) (s : Sessions)
    {o : TrackingOptions}
    → (length s == 1) ≡ true
    → find key s ≡ some o
    → All (λ e. session_key_eq e.0 key ≡ false → P e) s
unfolding find
single_others P key [] one there = tt
single_others P key ((j, w) ∷ []) one there = (
  (λ other.
      let missing : find key ((j, w) ∷ []) ≡ none = rw (find, other) refl in absurd (ground arith)),
  tt,
)
single_others P key (x ∷ (y ∷ s)) one there = absurd (ground arith)

module _ (client id : ℕ) (a : GnssAdapter) (engine : Option TrackingOptions)
    (serving : IsServing engine a) where
  pub stop_multiplex-Multiplexes :
      {old : TrackingOptions}
      → find (key_of client id) a.time_based_tracking_sessions ≡ some old
      → Multiplexes engine a
          (erase (key_of client id) a.time_based_tracking_sessions)
          (stop_time_based_tracking_multiplex client id a).1
  unfolding stop_time_based_tracking_multiplex start_tracking_of stop_tracking_of
  stop_multiplex-Multiplexes {old} there =
      let s = a.time_based_tracking_sessions in
      let key = key_of client id in
      let best = interval_loop (λ k. session_key_eq k key) unset_options s in
      let power = power_loop (λ k. session_key_eq k key) 0 s in
      let left = erase key s in
      let multiplexed = record best { power_mode = power } in
      if_cases (λ (r : Bool × Step). Multiplexes engine a left r.1) (length s == 1)
        (λ last. record {
          serves = record {
            served =
                All-erase (λ e. IsFast e.1.min_interval none) key s
                  (single_others (λ e. IsFast e.1.min_interval none) key s last there);
            highest = inl (ground arith);
          };
          same_sessions = refl;
        })
        (λ more. rw there (
          if_cases (λ (r : Bool × Step). Multiplexes engine a left r.1)
            (ltb old.min_interval best.min_interval || ltb old.power_mode power)
            (λ restarts.
              starts (time_started client id) client id multiplexed a engine left
                (All-erase (AtMost multiplexed) key s (others-AtMost key s serving.proper))
                serving.highest)
            (λ goes_on.
              stays a engine left
                (All-erase (λ e. IsFast e.1.min_interval engine) key s
                  (All-map s (λ e f other. f) serving.served))
                serving.highest)))

All-find :
    (P : SessionKey × TrackingOptions → Type 0) (key : SessionKey) (s : Sessions)
    {o : TrackingOptions}
    → All P s
    → find key s ≡ some o
    → P (key, o)
unfolding find
All-find P key [] h there = absurd (ground arith)
All-find P key ((j, w) ∷ s) {o} (p, h) there = elim (Bool-cases (session_key_eq j key)) [
  | inl here ↦
      let taken : find key ((j, w) ∷ s) ≡ some w = rw (find, here) refl in
      let value : w ≡ o = ground arith in
      let same : j ≡ key = (session_key_eq_iff j key).0 here in
      let both : (j, w) ≡ (key, o) = cc in subst P both p
  | inr other ↦ All-find P key s h (
      let skipped : find key ((j, w) ∷ s) ≡ find key s = rw (find, other) refl in
      sym skipped ∙ there)
]

-- With two sessions or more there is another one.
no_other :
    (key : SessionKey) (s : Sessions) {o : TrackingOptions}
    → IsSorted s
    → (length s == 1) ≡ false
    → find key s ≡ some o
    → All (λ e. session_key_eq e.0 key ≡ true) s
    → false ≡ true
unfolding find
no_other key [] sorted more there same = absurd (ground arith)
no_other key ((j, v) ∷ []) sorted more there same = absurd (ground arith)
no_other key ((j, v) ∷ ((k, w) ∷ s)) sorted more there same =
    let apart : session_key_eq k j ≡ false = session_key_lt_ne j k sorted.0.0 in
    let first : j ≡ key = (session_key_eq_iff j key).0 same.0 in
    let second : k ≡ key = (session_key_eq_iff k key).0 same.1.0 in
    sym apart ∙ (session_key_eq_iff k j).1 (second ∙ sym first)

module _ (client id : ℕ) (options : TrackingOptions) (a : GnssAdapter)
    (engine : Option TrackingOptions) (serving : IsServing engine a) where
  pub update_multiplex-Multiplexes :
      {old : TrackingOptions}
      → find (key_of client id) a.time_based_tracking_sessions ≡ some old
      → min_tracking_interval ≤ options.min_interval
      → (r : Bool × Step) × (update_tracking_multiplex client id options a ≡ some r)
        × Multiplexes engine a
            (insert (key_of client id) options a.time_based_tracking_sessions)
            r.1
  unfolding update_tracking_multiplex update_tracking
  update_multiplex-Multiplexes {old} there long =
      let s = a.time_based_tracking_sessions in
      let key = key_of client id in
      let best = interval_loop (λ k. session_key_eq k key) unset_options s in
      let power = power_loop (λ k. session_key_eq k key) 0 s in
      let faster = ltb options.min_interval best.min_interval in
      let stronger = ltb options.power_mode power in
      let multiplexed = record best {
        min_interval = if faster then options.min_interval else best.min_interval;
        power_mode = if stronger then options.power_mode else best.power_mode;
      } in
      let saved = insert key options s in
      let Good : Option (Bool × Step) → Type 0 =
        (λ o. (r : Bool × Step) × (o ≡ some r) × Multiplexes engine a saved r.1) in
      let keeps : IsFast options.min_interval engine → Multiplexes engine a saved (a, []) = (λ own.
        stays a engine saved
          (All-insert (λ e. IsFast e.1.min_interval engine) key options s own serving.served)
          serving.highest) in
      let skips : SessionKey → Bool = (λ k. session_key_eq k key) in
      let not_faster : (faster || stronger) ≡ false → best.min_interval ≤ options.min_interval =
        (λ goes_on. ground arith) in
      let fast_best : (length s == 1) ≡ false → IsFast best.min_interval engine = (λ more.
        elim (interval_loop-All (λ n. IsFast n engine) skips unset_options s serving.served
          (inl refl)) [
            | inl not_set ↦
                let same =
                  All-map s
                    (λ e b. elim b [ inl here ↦ here | inr below ↦ absurd (below.0 not_set) ])
                    (interval_loop-IsBelow skips unset_options s serving.proper).1 in
                let wrong = no_other key s serving.sorted more there same in absurd (ground arith)
            | inr found ↦ found
          ]) in
      rw (update_tracking_multiplex, there)
        (if_cases Good
          ((old.min_interval == options.min_interval) && (old.power_mode == options.power_mode))
          (λ same.
            let same_interval : old.min_interval ≤ options.min_interval = ground arith in
            let own = All-find (λ e. IsFast e.1.min_interval engine) key s serving.served there in
            (
              _,
              refl,
              keeps (slower engine old.min_interval options.min_interval same_interval own),
            ))
          (λ changed.
            if_cases Good (length s == 1)
              (λ only.
                let bounds =
                  All-insert_others (AtMost options) key options s serving.sorted
                    (omega arith, long) (single_others (AtMost options) key s only there) in
                (
                  _,
                  refl,
                  starts (time_updated client id old) client id options a engine saved bounds
                      serving.highest,
                ))
              (λ more.
                if_cases Good (faster || stronger)
                  (λ restarts.
                    let least : multiplexed.min_interval ≤ best.min_interval = ground arith in
                    let own : multiplexed.min_interval ≤ options.min_interval = ground arith in
                    let bounds =
                      All-insert_others (AtMost multiplexed) key options s serving.sorted
                        (own, long)
                        (All-map s (λ e b other. (omega (arith, (b other).0, least), (b other).1))
                          (others-AtMost key s serving.proper)) in
                    (
                      _,
                      refl,
                      starts (time_updated client id old) client id multiplexed a engine saved
                          bounds serving.highest,
                    ))
                  (λ goes_on. (
                    _,
                    refl,
                    keeps (
                        slower engine best.min_interval options.min_interval (not_faster goes_on)
                          (fast_best more)),
                  )))))
