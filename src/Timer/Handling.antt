-- ===== src/Timer/Handling.antt =====
-- Each operation of gps/utils/LocTimer.cpp on the delegates keeps them safe.
use android_device_xiaomi_ms.Base.{
  ℕ, ◌<◌, ◌≡◌, ◌∙◌, refl, sym, ap, true, false, none, some, List, [], ◌∷◌, ◌++◌, arith, ◌==◌,
  ==_iff, nat_key, find, insert, erase, find-insert_eq, find-insert_ne, find-erase_eq,
  find-erase_ne, key_cases, Bool-cases, inl, inr,
}
use android_device_xiaomi_ms.Heap.Node.{LocHeapNode}
use android_device_xiaomi_ms.Timer.Types.{Delegate, DelegateFields, TimerMsg, timer_remove}
use android_device_xiaomi_ms.Timer.Life.{
  pushes, removes, IsSafe, pushes-append, removes-append, append_other-IsOrdered, one_remove,
}

-- The fields of a delegate that has been told to go.
abbrev pub gone_fields : DelegateFields → DelegateFields
gone_fields f = record f { client = none; in_container = false }

module _ (q : List TimerMsg) (t : LocHeapNode Delegate) (timers : List (ℕ × ℕ))
    (delegates : List (ℕ × DelegateFields)) (next : ℕ) (h : IsSafe q t timers delegates next)
    (timer a : ℕ) (f : DelegateFields) (runs : find timer timers ≡ some a)
    (found : find a delegates ≡ some f) where
  abbrev d : Delegate
  d = record { address = a; future_time = f.made_for }

  its_fields : (f.client ≡ some timer) × (f.in_container ≡ true)
  its_fields =
      let (g, found', is_client, inside) = h.running timer a runs in
      let same : g ≡ f = cc in (rw (← same) is_client, rw (← same) inside)

  not_removed : removes d q ≡ 0
  not_removed = elim (Bool-cases (removes d q == 0)) [
    | inl never ↦ (==_iff _ _).0 never
    | inr once ↦
        let outside = h.gone d f (ground arith) found in let inside = its_fields.1 in absurd (cc)
  ]

  -- A stop of a running timer.
  pub stop-IsSafe :
      IsSafe
        (q ++ timer_remove d ∷ [])
        t
        (erase timer timers)
        (insert a (gone_fields f) delegates)
        next
  stop-IsSafe = record {
    heap = h.heap;
    once =
        λ e. omega (arith, pushes-append e q (timer_remove d ∷ []), (one_remove e d).0, h.once e);
    removed_once = λ e.
        let (none_pushed, cases) = one_remove e d in
        elim cases [
          | inl (same, one) ↦
              let never : removes e q ≡ 0 = rw same not_removed in
              omega (arith, removes-append e q (timer_remove d ∷ []))
          | inr (other, zero_more) ↦
              omega (arith, removes-append e q (timer_remove d ∷ []), h.removed_once e)
        ];
    live = λ e somewhere.
        let (none_pushed, cases) = one_remove e d in
        elim cases [
          | inl (same, one) ↦
              let there = ap (λ (x : Delegate). x.address) same in
              (
                gone_fields f,
                find-insert_eq e.address a delegates (gone_fields f) (sym there),
                ap (λ (x : Delegate). x.future_time) (sym same),
              )
          | inr (other, zero_more) ↦
              let (g, found', time) = h.live e (
                omega (
                  arith,
                  removes-append e q (timer_remove d ∷ []),
                  pushes-append e q (timer_remove d ∷ []),
                )) in
              elim (key_cases a e.address) [
                | inl same ↦
                    let found_f : find e.address delegates ≡ some f = rw (← same) found in
                    let same_fields : f ≡ g = cc in
                    (
                      gone_fields f,
                      find-insert_eq e.address a delegates (gone_fields f) same,
                      ap (λ (x : DelegateFields). x.made_for) same_fields ∙ time,
                    )
                | inr differs ↦
                    (g, find-insert_ne e.address a delegates (gone_fields f) differs ∙ found', time)
              ]
        ];
    gone = λ e g removed found'. elim (key_cases a e.address) [
      | inl same ↦
          let now_gone : gone_fields f ≡ g =
            ground (arith, find-insert_eq e.address a delegates (gone_fields f) same) in
          ap (λ (x : DelegateFields). x.in_container) (sym now_gone)
      | inr differs ↦
          let (none_pushed, cases) = one_remove e d in
          let before : 0 < removes e q = elim cases [
            | inl (same, one) ↦ absurd (differs (ap (λ (x : Delegate). x.address) (sym same)))
            | inr (other, zero_more) ↦ omega (arith, removes-append e q (timer_remove d ∷ []))
          ] in
          h.gone e g before
            (sym (find-insert_ne e.address a delegates (gone_fields f) differs) ∙ found')
    ];
    running = λ other b found'. elim (key_cases timer other) [
      | inl same ↦ let erased = find-erase_eq other timer timers same in absurd (ground arith)
      | inr differs ↦
          let (g, found_g, is_client, inside) =
            h.running other b (sym (find-erase_ne other timer timers differs) ∙ found') in
          elim (key_cases a b) [
            | inl same ↦
                let found_f : find b delegates ≡ some f = rw (← same) found in
                let mine = its_fields.0 in absurd (differs (cc))
            | inr other_address ↦ (
              g,
              find-insert_ne b a delegates (gone_fields f) other_address ∙ found_g,
              is_client,
              inside,
            )
          ]
    ];
    fresh = λ b g found'. elim (key_cases a b) [
      | inl same ↦ let lower = h.fresh a f found in omega arith
      | inr differs ↦
          h.fresh b g (sym (find-insert_ne b a delegates (gone_fields f) differs) ∙ found')
    ];
    ordered =
        append_other-IsOrdered q (timer_remove d) (λ e. (one_remove e d).0)
          (unfold pushes in (refl, tt)) h.ordered;
  }
